-- ===== src/Config/Seeds/Last.antt =====
-- internal/config/config.go: which seed the loops of normalizeAndValidate keep.
use carteiro.Common.{
  Bool, Bool-cases, Bytes, List, Option, [], any, ap, arith, false, if◌then◌else◌, inl, inr, none,
  refl, some, str_eq, str_eq_iff, str_eq_sound, subst, true, ◌||◌, ◌∙◌, ◌∷◌, ◌≡◌,
}
use carteiro.Config.Types.{Account}
use carteiro.Config.Seeds.{put_seed, dedupe, dedupe_accounts, email_of, lower_email}

abbrev pub or_else : {A : Type 0} → Option A → Option A → Option A
or_else (some a) b = some a
or_else none b = b

pub or_else-none : {A : Type 0} (o : Option A) → or_else o none ≡ o
or_else-none none = refl
or_else-none (some a) = refl

module _ {A : Type 0} (key : A → Bytes) where
  -- A list as a map: the first seed with the key.
  abbrev pub find_seed : Bytes → List A → Option A
  find_seed k [] = none
  find_seed k (x ∷ xs) = if str_eq (key x) k then some x else find_seed k xs

  -- The map that a later seed overrides: the last one whose normal form has the key.
  abbrev pub last_seed : (A → A) → Bytes → List A → Option A
  last_seed norm k [] = none
  last_seed norm k (x ∷ xs) =
      or_else (last_seed norm k xs) (if str_eq (key (norm x)) k then some (norm x) else none)

  -- No key stands twice.
  abbrev pub HasDistinctKeys : List A → Type 0
  HasDistinctKeys [] = Unit
  HasDistinctKeys (x ∷ xs) = (any (λ y. str_eq (key y) (key x)) xs ≡ false) × HasDistinctKeys xs

  find_seed-put_seed :
      (k : Bytes) (x : A) (uniq : List A)
      → find_seed k (put_seed key x uniq) ≡ (if str_eq (key x) k then some x else find_seed k uniq)
  unfolding put_seed
  find_seed-put_seed k x [] = refl
  find_seed-put_seed k x (y ∷ uniq) = ground (
    arith,
    str_eq_iff (key y) (key x),
    str_eq_iff (key x) k,
    str_eq_iff (key y) k,
    find_seed-put_seed k x uniq,
  )

  pub find_seed-dedupe :
      (norm : A → A) (k : Bytes) (xs uniq : List A)
      → find_seed k (dedupe key norm xs uniq) ≡ or_else (last_seed norm k xs) (find_seed k uniq)
  unfolding dedupe
  find_seed-dedupe norm k [] uniq = refl
  find_seed-dedupe norm k (x ∷ xs) uniq =
      find_seed-dedupe norm k xs (put_seed key (norm x) uniq)
      ∙ ap (or_else (last_seed norm k xs)) (find_seed-put_seed k (norm x) uniq)
      ∙ regroup (last_seed norm k xs) (str_eq (key (norm x)) k)
    where
      regroup :
          (o : Option A) (b : Bool)
          → or_else o (if b then some (norm x) else find_seed k uniq)
            ≡ or_else (or_else o (if b then some (norm x) else none)) (find_seed k uniq)
      regroup (some a) b = refl
      regroup none true = refl
      regroup none false = refl

  any-put_seed :
      (k : Bytes) (x : A) (uniq : List A)
      → any (λ y. str_eq (key y) k) (put_seed key x uniq)
        ≡ (str_eq (key x) k || any (λ y. str_eq (key y) k) uniq)
  unfolding put_seed
  any-put_seed k x [] = refl
  any-put_seed k x (y ∷ uniq) = ground (
    arith,
    str_eq_iff (key y) (key x),
    str_eq_iff (key x) k,
    str_eq_iff (key y) k,
    any-put_seed k x uniq,
  )

  put_seed-HasDistinctKeys :
      (x : A) (uniq : List A) → HasDistinctKeys uniq → HasDistinctKeys (put_seed key x uniq)
  unfolding put_seed
  put_seed-HasDistinctKeys x [] d = (refl, tt)
  put_seed-HasDistinctKeys x (y ∷ uniq) d = elim (Bool-cases (str_eq (key y) (key x))) [
    | inl e ↦ rw e (
      subst (λ k. any (λ z. str_eq (key z) k) uniq ≡ false) (str_eq_sound (key y) (key x) e) d.0,
      d.1,
    )
    | inr e ↦ rw e (
      ground (
        arith,
        any-put_seed (key y) x uniq,
        str_eq_iff (key x) (key y),
        str_eq_iff (key y) (key x),
      ),
      put_seed-HasDistinctKeys x uniq d.1,
    )
  ]

  pub dedupe-HasDistinctKeys :
      (norm : A → A) (xs uniq : List A)
      → HasDistinctKeys uniq
      → HasDistinctKeys (dedupe key norm xs uniq)
  unfolding dedupe
  dedupe-HasDistinctKeys norm [] uniq d = d
  dedupe-HasDistinctKeys norm (x ∷ xs) uniq d =
      dedupe-HasDistinctKeys norm xs (put_seed key (norm x) uniq)
        (put_seed-HasDistinctKeys (norm x) uniq d)

-- Seen as maps from addresses, the accounts that are left are the ones that were listed, where a
-- later one overrides an earlier one with the same address in normal form, and no address stands
-- twice.
pub dedupe_accounts-Last :
    (accounts : List Account)
    → ((email : Bytes)
        → find_seed email_of email (dedupe_accounts accounts)
          ≡ last_seed email_of lower_email email accounts)
      × HasDistinctKeys email_of (dedupe_accounts accounts)
unfolding dedupe_accounts
dedupe_accounts-Last accounts = (
  λ email. find_seed-dedupe email_of lower_email email accounts [] ∙ or_else-none _,
  dedupe-HasDistinctKeys email_of lower_email accounts [] tt,
)
