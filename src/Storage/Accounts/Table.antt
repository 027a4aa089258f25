-- ===== src/Storage/Accounts/Table.antt =====
-- The table of accounts: what its rows promise, and that the statements keep that.
use carteiro.Common.{
  All, Bool, Bool-cases, Bytes, In, List, [], any, arith, false, inl, inr, refl, str_eq,
  str_eq_complete, str_eq_sound, sym, true, ◌||◌, ◌∷◌, ◌≡◌, ◌≢◌,
}
use carteiro.Text.{normalize}
use carteiro.Storage.Types.{Account}
use carteiro.Storage.Db.{update_where, delete_where}
use carteiro.Storage.Accounts.{has_email, put_account}

-- An account is stored under its address in normal form, which it may always send from.
pub record IsAccount (a : Account) : Type 0 where
  pub addressed : a.email ≢ []
  pub normal : normalize a.email ≡ a.email
  pub own : In a.email a.allowed_from

abbrev pub UniqueEmails : List Account → Type 0
UniqueEmails [] = Unit
UniqueEmails (a ∷ accounts) = (any (has_email a.email) accounts ≡ false) × UniqueEmails accounts

pub record IsAccounts (accounts : List Account) : Type 0 where
  pub unique : UniqueEmails accounts
  pub each : All IsAccount accounts

any-put :
    (e : Bytes) (a : Account) (accounts : List Account)
    → any (has_email e) (put_account a accounts) ≡ (any (has_email e) accounts || has_email e a)
any-put e a [] = ground arith
any-put e a (x ∷ accounts) = ground (arith, any-put e a accounts, str_eq_sound x.email a.email)

str_eq-swap : (a b : Bytes) → str_eq a b ≡ true → str_eq b a ≡ true
str_eq-swap a b h = str_eq_complete b a (sym (str_eq_sound a b h))

put_unique :
    (a : Account) (accounts : List Account)
    → UniqueEmails accounts
    → UniqueEmails (put_account a accounts)
put_unique a [] u = (refl, tt)
put_unique a (x ∷ accounts) u = ground (
  arith,
  any-put x.email a accounts,
  put_unique a accounts u.1,
  str_eq_sound x.email a.email,
  str_eq-swap a.email x.email,
)

put-each :
    (a : Account) (accounts : List Account)
    → IsAccount a
    → All IsAccount accounts
    → All IsAccount (put_account a accounts)
put-each a [] v h = (v, tt)
put-each a (x ∷ accounts) v h = elim (Bool-cases (has_email a.email x)) [
  | inl e ↦ rw e (v, h.1)
  | inr e ↦ rw e (h.0, put-each a accounts v h.1)
]

pub put-IsAccounts :
    (a : Account) (accounts : List Account)
    → IsAccount a
    → IsAccounts accounts
    → IsAccounts (put_account a accounts)
put-IsAccounts a accounts v h = record {
  unique = put_unique a accounts h.unique;
  each = put-each a accounts v h.each;
}

any-delete :
    (e : Bytes) (p : Account → Bool) (accounts : List Account)
    → any (has_email e) accounts ≡ false
    → any (has_email e) (delete_where p accounts) ≡ false
any-delete e p [] h = refl
any-delete e p (a ∷ accounts) h = ground (arith, any-delete e p accounts)

pub delete_unique :
    (p : Account → Bool) (accounts : List Account)
    → UniqueEmails accounts
    → UniqueEmails (delete_where p accounts)
delete_unique p [] u = tt
delete_unique p (a ∷ accounts) u =
    ground (arith, any-delete a.email p accounts, delete_unique p accounts u.1)

pub delete-each :
    (p : Account → Bool) (accounts : List Account)
    → All IsAccount accounts
    → All IsAccount (delete_where p accounts)
delete-each p [] h = tt
delete-each p (a ∷ accounts) h = ground (arith, delete-each p accounts)

any-update :
    (e : Bytes) (p : Account → Bool) (f : Account → Account) (accounts : List Account)
    → ((a : Account) → (f a).email ≡ a.email)
    → any (has_email e) (update_where p f accounts) ≡ any (has_email e) accounts
any-update e p f [] keeps = refl
any-update e p f (a ∷ accounts) keeps = ground (arith, keeps a, any-update e p f accounts keeps)

pub update_unique :
    (p : Account → Bool) (f : Account → Account) (accounts : List Account)
    → ((a : Account) → (f a).email ≡ a.email)
    → UniqueEmails accounts
    → UniqueEmails (update_where p f accounts)
update_unique p f [] keeps u = tt
update_unique p f (a ∷ accounts) keeps u =
    ground
      (arith, keeps a, any-update a.email p f accounts keeps, update_unique p f accounts keeps u.1)

pub update-each :
    (p : Account → Bool) (f : Account → Account) (accounts : List Account)
    → ((a : Account) → p a ≡ true → IsAccount a → IsAccount (f a))
    → All IsAccount accounts
    → All IsAccount (update_where p f accounts)
update-each p f [] keeps h = tt
update-each p f (a ∷ accounts) keeps h = (
  elim (Bool-cases (p a)) [ inl e ↦ rw e (keeps a e h.0) | inr e ↦ rw e h.0 ],
  update-each p f accounts keeps h.1,
)
