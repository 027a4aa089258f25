-- ===== src/Config/Seeds.antt =====
-- internal/config/config.go: the loops of normalizeAndValidate that keep one seed for each address or
-- domain, the last one.
pub mod Last
pub mod Allowed
use carteiro.Common.{
  Bool, Bytes, List, [], codes, false, if◌then◌else◌, length, none, not, some, str_eq, ◌+◌, ◌==◌,
  ◌||◌, ◌∷◌,
}
use carteiro.Text.{normalize, last_index_byte, contains_any, trim_space}
use carteiro.Storage.Accounts.{add_allowed}
use carteiro.Config.Types.{
  Account, DkimKey, Outside, Result, ok, err, ◌>>=◌, bad_email, no_password, no_domain, no_key,
  bad_key,
}

-- `uniq` with `x` in the place that `index` has for its key, or behind. `index` maps the keys of
-- `uniq` to their places.
module _ {A : Type 0} (key : A → Bytes) where
  unfoldable pub put_seed : A → List A → List A
  unfolding str_eq
  put_seed x [] = x ∷ []
  put_seed x (y ∷ uniq) = if str_eq (key y) (key x) then x ∷ uniq else y ∷ put_seed x uniq

  -- The loop, where `norm` brings the key of a seed to normal form.
  unfoldable pub dedupe : (A → A) → List A → List A → List A
  unfolding put_seed
  dedupe norm [] uniq = uniq
  dedupe norm (x ∷ xs) uniq = dedupe norm xs (put_seed (norm x) uniq)

abbrev pub email_of : Account → Bytes
email_of a = a.email

abbrev pub lower_email : Account → Account
lower_email a = record a { email = normalize a.email }

unfoldable pub dedupe_accounts : List Account → List Account
unfolding dedupe normalize
dedupe_accounts accounts = dedupe email_of lower_email accounts []

abbrev pub domain_of : DkimKey → Bytes
domain_of k = k.domain

abbrev pub lower_domain : DkimKey → DkimKey
lower_domain k = record k { domain = normalize k.domain }

unfoldable pub dedupe_dkim : List DkimKey → List DkimKey
unfolding dedupe normalize
dedupe_dkim keys = dedupe domain_of lower_domain keys []

unfoldable pub valid_email : Bytes → Bool
unfolding last_index_byte contains_any
valid_email s = elim (last_index_byte s b'@') [
  | none ↦ false
  | some at ↦
      if at == 0 || at + 1 == length s then false else not (contains_any s (codes " \t<>()"))
]

-- The addresses so far stand for the map `seen` too.
unfoldable pub normalize_extra_allowed : List Bytes → List Bytes
unfolding add_allowed
normalize_extra_allowed extra = add_allowed extra []

unfoldable pub check_account : Account → Result Account
unfolding valid_email normalize_extra_allowed str_eq
check_account a =
    if str_eq a.email [] || not (valid_email a.email)
    then err bad_email
    else if str_eq a.password []
    then err no_password
    else ok (record a { allowed_from = normalize_extra_allowed a.allowed_from })

unfoldable pub check_key : Outside → DkimKey → Result DkimKey
unfolding trim_space str_eq
check_key o k =
    if str_eq k.domain [] || str_eq k.selector []
    then err no_domain
    else if str_eq k.key_data []
    then err no_key
    else if o.is_signer k.key_data
    then ok (record k { selector = trim_space k.selector })
    else err bad_key

unfoldable pub each : {A : Type 0} → (A → Result A) → List A → Result (List A)
each f [] = ok []
each f (x ∷ xs) = do y ← f x; ys ← each f xs; ok (y ∷ ys)
