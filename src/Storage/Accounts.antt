-- ===== src/Storage/Accounts.antt =====
-- internal/storage/accounts.go: the accounts, their passwords and the senders that they may use.
pub mod Allowed
pub mod Table
pub mod Owned
pub mod Invariant
pub mod Stored
pub mod Frame
use carteiro.Common.{
  Bool, Bytes, List, Option, [], any, false, if◌then◌else◌, length, ltb, none, some, str_eq, true,
  ℕ, ◌&&◌, ◌++◌, ◌+◌, ◌==◌, ◌||◌, ◌∷◌,
}
use carteiro.Text.{normalize}
use carteiro.Storage.Types.{Account, AccountSeed, UpsertSummary, Store}
use carteiro.Storage.Db.{
  M, ◌>>=◌, ◌>>◌, return, fail, query, exec_, empty_email, not_found, delete_where, order_by,
  empty_password, update_where, hash_failed,
}
use carteiro.Storage.Bcrypt.{Bcrypt}

abbrev pub has_email : Bytes → Account → Bool
has_email email a = str_eq a.email email

abbrev pub find_account : Bytes → List Account → Option Account
find_account email [] = none
find_account email (a ∷ accounts) =
    if has_email email a then some a else find_account email accounts

unfoldable pub get_account : Bytes → M (Option Account)
unfolding query normalize
get_account email = query (λ s. find_account (normalize email) s.accounts)

-- `ORDER BY email` compares byte by byte.
unfoldable pub text_le : Bytes → Bytes → Bool
text_le [] t = true
text_le (c ∷ s) [] = false
text_le (c ∷ s) (d ∷ t) = ltb c d || (c == d && text_le s t)

abbrev pub by_email : Account → Account → Bool
by_email a b = text_le a.email b.email

unfoldable pub list_accounts : M (List Account)
unfolding query order_by text_le
list_accounts = query (λ s. order_by by_email s.accounts)

-- The loop of `normalizeAllowed`; `out` is the list so far and stands for the map `seen` too, which
-- holds the same addresses.
unfoldable pub add_allowed : List Bytes → List Bytes → List Bytes
unfolding normalize
add_allowed [] out = out
add_allowed (f ∷ extra) out =
    let f' = normalize f in
    add_allowed extra (if str_eq f' [] || any (str_eq f') out then out else out ++ f' ∷ [])

unfoldable pub normalize_allowed : Bytes → List Bytes → List Bytes
unfolding add_allowed
normalize_allowed email extra = add_allowed extra (email ∷ [])

-- The JSON texts of two lists are equal if the lists are.
unfoldable pub json_equal : List Bytes → List Bytes → Bool
json_equal [] [] = true
json_equal (x ∷ xs) (y ∷ ys) = str_eq x y && json_equal xs ys
json_equal _ _ = false

unfoldable pub allows_from : Account → Bytes → Bool
unfolding normalize
allows_from a from = any (λ f. str_eq f (normalize from)) a.allowed_from

-- `INSERT … ON CONFLICT(email) DO UPDATE`, or MySQL's form of it.
abbrev pub put_account : Account → List Account → List Account
put_account a [] = a ∷ []
put_account a (x ∷ accounts) =
    if has_email a.email x then a ∷ accounts else x ∷ put_account a accounts

abbrev pub save_account : Account → Store → Store
save_account a s = record s { accounts = put_account a s.accounts }

unfoldable pub delete_account : Bytes → M (Unit {0})
unfolding exec_ normalize
delete_account email =
    exec_ (λ s. record s { accounts = delete_where (has_email (normalize email)) s.accounts })

abbrev pub empty_summary : UpsertSummary
empty_summary = record { created = []; updated = []; unchanged = [] }

abbrev pub note_created : Bytes → UpsertSummary → UpsertSummary
note_created email u = record u { created = u.created ++ email ∷ [] }

abbrev pub note_updated : Bytes → UpsertSummary → UpsertSummary
note_updated email u = record u { updated = u.updated ++ email ∷ [] }

abbrev pub note_unchanged : Bytes → UpsertSummary → UpsertSummary
note_unchanged email u = record u { unchanged = u.unchanged ++ email ∷ [] }

abbrev pub total : UpsertSummary → ℕ
total u = length u.created + length u.updated + length u.unchanged

module _ (bcrypt : Bcrypt) where
  open bcrypt use {generate, compare_hash}

  -- The salt is what the random source gives to this call.
  unfoldable pub hash_password : ℕ → Bytes → M Bytes
  hash_password salt [] = fail empty_password
  hash_password salt (c ∷ plain) = elim (generate salt (c ∷ plain)) [
    | none ↦ fail hash_failed
    | some hash ↦ return hash
  ]

  unfoldable pub verify_password : Bytes → Bytes → Bool
  verify_password hash plain = compare_hash hash plain

  -- The stored account is as the seed wants it.
  unfoldable pub is_current : Bytes → List Bytes → Account → Bool
  unfolding verify_password json_equal
  is_current password allowed a =
      verify_password a.password_hash password && json_equal a.allowed_from allowed

  store_seed : ℕ → Bytes → Bytes → List Bytes → M (Unit {0})
  unfolding hash_password exec_
  store_seed salt email password allowed = do
    hash ← hash_password salt password
    exec_ (save_account (record { email = email; password_hash = hash; allowed_from = allowed }))

  -- What one round does once the account was looked up.
  pub upsert_found :
      ℕ → Bytes → Bytes → List Bytes → UpsertSummary → Option Account → M UpsertSummary
  unfolding store_seed
  upsert_found salt email password allowed summary none = do
    store_seed salt email password allowed
    return (note_created email summary)
  upsert_found salt email password allowed summary (some a) =
      if is_current password allowed a
      then return (note_unchanged email summary)
      else (do store_seed salt email password allowed; return (note_updated email summary))

  unfoldable pub upsert_one : ℕ → AccountSeed → UpsertSummary → M UpsertSummary
  unfolding get_account upsert_found normalize normalize_allowed
  upsert_one salt seed summary =
      let email = normalize seed.email in
      if str_eq email []
      then fail empty_email
      else if str_eq seed.password []
      then fail empty_password
      else (do
        found ← get_account email
        upsert_found salt email seed.password (normalize_allowed email seed.allowed_from) summary
            found)

  -- A seed comes with the salt of its round. The partial summary that an error comes with is dropped.
  unfoldable pub upsert_accounts : List (ℕ × AccountSeed) → UpsertSummary → M UpsertSummary
  unfolding upsert_one
  upsert_accounts [] summary = return summary
  upsert_accounts ((salt, seed) ∷ seeds) summary = do
    u ← upsert_one salt seed summary
    upsert_accounts seeds u

  update_found : ℕ → Bytes → List Bytes → Bytes → Account → M (Unit {0})
  unfolding exec_ hash_password normalize_allowed
  update_found salt email allowed_from [] a = exec_ (λ s. record s {
    accounts =
        update_where (has_email email)
          (λ b. record b { allowed_from = normalize_allowed email allowed_from }) s.accounts;
  })
  update_found salt email allowed_from (c ∷ new_password) a = do
    hash ← hash_password salt (c ∷ new_password)
    exec_ (λ s. record s {
      accounts =
          update_where (has_email email)
            (λ b. record b {
              allowed_from = normalize_allowed email allowed_from;
              password_hash = hash;
            })
            s.accounts;
    })

  update_known : ℕ → Bytes → List Bytes → Bytes → Option Account → M (Unit {0})
  unfolding update_found
  update_known salt email allowed_from new_password none = fail not_found
  update_known salt email allowed_from new_password (some a) =
      update_found salt email allowed_from new_password a

  unfoldable pub update_account : ℕ → Bytes → List Bytes → Bytes → M (Unit {0})
  unfolding get_account update_known normalize
  update_account salt email allowed_from new_password = do
    found ← get_account (normalize email)
    update_known salt (normalize email) allowed_from new_password found
