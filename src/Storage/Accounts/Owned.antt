-- ===== src/Storage/Accounts/Owned.antt =====
-- The rows of accounts that the operations write, each free to send from its own address.
use carteiro.Common.{Bytes, In, List, [], inl, refl, str_eq_sound, ◌≡◌, ◌≢◌}
use carteiro.Text.{normalize}
use carteiro.Storage.Types.{Account, Store}
use carteiro.Storage.Db.{done, failed, after, bind, Outcome, delete_where, return, update_where}
use carteiro.Storage.Db.Rules.{exec_-cases}
use carteiro.Storage.Accounts.{has_email, normalize_allowed, delete_account}
use carteiro.Storage.Accounts.Allowed.{normalize_allowed_lem}
use carteiro.Storage.Accounts.Table.{
  IsAccount, IsAccounts, delete_unique, delete-each, update_unique, update-each,
}

abbrev pub Keeps : {A : Type 0} → Outcome A → Type 0
Keeps o = IsAccounts (after o).accounts

pub delete_account-IsAccounts :
    (email : Bytes) (s : Store) → IsAccounts s.accounts → Keeps (delete_account email s)
unfolding delete_account
delete_account-IsAccounts email s h =
    exec_-cases Keeps s
      (λ t. record t { accounts = delete_where (has_email (normalize email)) t.accounts }) h
      (record {
        unique = delete_unique (has_email (normalize email)) s.accounts h.unique;
        each = delete-each (has_email (normalize email)) s.accounts h.each;
      })

own_first : (email : Bytes) (extra : List Bytes) → In email (normalize_allowed email extra)
own_first email extra = ((normalize_allowed_lem email extra).1 email).1 (inl refl)

unfoldable pub new_account : Bytes → Bytes → List Bytes → Account
new_account email hash extra = record {
  email = email;
  password_hash = hash;
  allowed_from = normalize_allowed email extra;
}

pub new_account-IsAccount :
    (email hash : Bytes) (extra : List Bytes)
    → email ≢ []
    → normalize email ≡ email
    → IsAccount (new_account email hash extra)
unfolding new_account
new_account-IsAccount email hash extra filled normal = record {
  addressed = filled;
  normal = normal;
  own = own_first email extra;
}

-- The account of the address gets a list that begins with the address.
pub allowed-IsAccounts :
    (email : Bytes) (extra : List Bytes) (f : Account → Account) (accounts : List Account)
    → ((a : Account) → (f a).email ≡ a.email)
    → ((a : Account) → (f a).allowed_from ≡ normalize_allowed email extra)
    → IsAccounts accounts
    → IsAccounts (update_where (has_email email) f accounts)
allowed-IsAccounts email extra f accounts keeps sets h = record {
  unique = update_unique (has_email email) f accounts keeps h.unique;
  each =
      update-each (has_email email) f accounts
        (λ a e v. record {
          addressed = rw (keeps a) v.addressed;
          normal = rw (keeps a) v.normal;
          own = rw (keeps a, sets a, str_eq_sound a.email email e) (own_first email extra);
        })
        h.each;
}

pub Keeps-return : {A B : Type 0} (o : Outcome A) (x : B) → Keeps o → Keeps (bind o (λ _. return x))
Keeps-return (done a s) x h = h
Keeps-return (failed e s) x h = h
