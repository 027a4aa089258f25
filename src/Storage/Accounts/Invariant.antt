-- ===== src/Storage/Accounts/Invariant.antt =====
-- What the operations on accounts keep, whatever statements and hashes fail.
use carteiro.Common.{
  Bool-cases, Bytes, List, Option, Option-cases, [], inl, inr, none, refl, some, str_eq,
  str_eq_complete, ℕ, ◌∷◌, ◌≡◌, ◌≢◌,
}
use carteiro.Text.{normalize, normalize_idem}
use carteiro.Storage.Types.{Account, UpsertSummary, Store, AccountSeed}
use carteiro.Storage.Db.{
  done, failed, after, bind, Outcome, Error, spend, db_failed, exec_, empty_password, hash_failed,
  M, update_where, empty_email,
}
use carteiro.Storage.Db.Rules.{exec_-cases, query-cases}
use carteiro.Storage.Bcrypt.{Bcrypt}
use carteiro.Storage.Accounts.{
  has_email, normalize_allowed, store_seed, upsert_found, hash_password, delete_account,
  save_account, upsert_accounts, is_current, upsert_one, get_account, find_account, empty_summary,
  update_found, update_known, update_account,
}
use carteiro.Storage.Accounts.Table.{IsAccounts, put-IsAccounts}
use carteiro.Storage.Accounts.Owned.{
  Keeps, Keeps-return, allowed-IsAccounts, delete_account-IsAccounts, new_account,
  new_account-IsAccount,
}

module _ (b : Bcrypt) where
  pub hash_password-cases {ℓ} :
      (P : Outcome Bytes → Type ℓ) (salt : ℕ) (password : Bytes) (s : Store)
      → ((e : Error) → P (failed e s))
      → ((hash : Bytes) → b.generate salt password ≡ some hash → P (done hash s))
      → P (hash_password b salt password s)
  unfolding hash_password
  hash_password-cases P salt [] s broken works = broken empty_password
  hash_password-cases P salt (c ∷ plain) s broken works =
      elim (Option-cases (b.generate salt (c ∷ plain))) [
        | inl e ↦ rw (e, hash_password) (broken hash_failed)
        | inr (hash, e) ↦ rw (e, hash_password) (works hash e)
      ]

  store_seed-IsAccounts :
      (salt : ℕ) (email password : Bytes) (extra : List Bytes) (s : Store)
      → email ≢ []
      → normalize email ≡ email
      → IsAccounts s.accounts
      → Keeps (store_seed b salt email password (normalize_allowed email extra) s)
  unfolding store_seed new_account
  store_seed-IsAccounts salt email password extra s filled normal h =
      hash_password-cases
        (λ o. Keeps (bind o (λ hash. exec_ (save_account (new_account email hash extra))))) salt
        password s (λ e. h)
        (λ hash _. exec_-cases Keeps s (save_account (new_account email hash extra)) h (
          put-IsAccounts (new_account email hash extra) s.accounts
            (new_account-IsAccount email hash extra filled normal) h))

  upsert_found-IsAccounts :
      (salt : ℕ) (email password : Bytes) (extra : List Bytes) (u : UpsertSummary)
      (found : Option Account) (s : Store)
      → email ≢ []
      → normalize email ≡ email
      → IsAccounts s.accounts
      → Keeps (upsert_found b salt email password (normalize_allowed email extra) u found s)
  unfolding upsert_found
  upsert_found-IsAccounts salt email password extra u none s filled normal h =
      Keeps-return (store_seed b salt email password (normalize_allowed email extra) s) _
        (store_seed-IsAccounts salt email password extra s filled normal h)
  upsert_found-IsAccounts salt email password extra u (some a) s filled normal h =
      elim (Bool-cases (is_current b password (normalize_allowed email extra) a)) [
        | inl e ↦ rw e h
        | inr e ↦ rw e (
            Keeps-return (store_seed b salt email password (normalize_allowed email extra) s) _
              (store_seed-IsAccounts salt email password extra s filled normal h))
      ]

  pub upsert_one-cases {ℓ} :
      (P : Outcome UpsertSummary → Type ℓ) (salt : ℕ) (seed : AccountSeed) (u : UpsertSummary)
      (s : Store)
      → ((e : Error) (t : Store) → t.accounts ≡ s.accounts → P (failed e t))
      → (normalize seed.email ≢ []
          → let email = normalize seed.email in
            P (
              upsert_found b salt email seed.password
                (normalize_allowed email seed.allowed_from)
                u
                (find_account email s.accounts)
                (spend s)))
      → P (upsert_one b salt seed u s)
  unfolding upsert_one get_account
  upsert_one-cases P salt seed u s broken works =
      let email = normalize seed.email in
      elim (Bool-cases (str_eq email [])) [
        | inl e ↦ rw (e, upsert_one) (broken empty_email s refl)
        | inr e ↦ elim (Bool-cases (str_eq seed.password [])) [
          | inl e' ↦ rw (e, e', upsert_one) (broken empty_password s refl)
          | inr e' ↦
              rw (e, e', upsert_one, normalize_idem seed.email)
                (query-cases
                  (λ o. P (
                    bind o (
                      upsert_found b salt email seed.password
                        (normalize_allowed email seed.allowed_from) u)))
                  s (λ t. find_account email t.accounts) (broken db_failed (spend s) refl)
                  (works (λ empty. cc (str_eq_complete email [] empty, e))))
        ]
      ]

  upsert_one-IsAccounts :
      (salt : ℕ) (seed : AccountSeed) (u : UpsertSummary) (s : Store)
      → IsAccounts s.accounts
      → Keeps (upsert_one b salt seed u s)
  upsert_one-IsAccounts salt seed u s h =
      upsert_one-cases Keeps salt seed u s (λ e t same. rw same h)
        λ filled.
          upsert_found-IsAccounts salt (normalize seed.email) seed.password seed.allowed_from u
            (find_account (normalize seed.email) s.accounts) (spend s) filled
            (normalize_idem seed.email) h

  Keeps-then :
      {A B : Type 0} (o : Outcome A) (f : A → M B)
      → Keeps o
      → ((a : A) (s : Store) → IsAccounts s.accounts → Keeps (f a s))
      → Keeps (bind o f)
  Keeps-then (done a s) f h k = k a s h
  Keeps-then (failed e s) f h k = h

  -- Whatever statements and hashes fail, the seeds are stored under their normal addresses, once
  -- each, and every account may send from its own address.
  pub upsert_accounts-IsAccounts :
      (seeds : List (ℕ × AccountSeed)) (u : UpsertSummary) (s : Store)
      → IsAccounts s.accounts
      → IsAccounts (after (upsert_accounts b seeds u s)).accounts
  unfolding upsert_accounts
  upsert_accounts-IsAccounts [] u s h = h
  upsert_accounts-IsAccounts ((salt, seed) ∷ seeds) u s h =
      Keeps-then (upsert_one b salt seed u s) (upsert_accounts b seeds)
        (upsert_one-IsAccounts salt seed u s h) (λ v t k. upsert_accounts-IsAccounts seeds v t k)

  update_found-IsAccounts :
      (salt : ℕ) (email : Bytes) (extra : List Bytes) (password : Bytes) (a : Account) (s : Store)
      → IsAccounts s.accounts
      → Keeps (update_found b salt email extra password a s)
  unfolding update_found
  update_found-IsAccounts salt email extra [] a s h =
      exec_-cases Keeps s
        (λ t. record t {
          accounts =
              update_where (has_email email)
                (λ c. record c { allowed_from = normalize_allowed email extra }) t.accounts;
        })
        h
        (allowed-IsAccounts email extra
          (λ c. record c { allowed_from = normalize_allowed email extra }) s.accounts (λ c. refl)
          (λ c. refl) h)
  update_found-IsAccounts salt email extra (c ∷ password) a s h =
      hash_password-cases
        (λ o. Keeps (
          bind o (λ hash. exec_ λ t. record t {
            accounts =
                update_where (has_email email)
                  (λ d. record d {
                    allowed_from = normalize_allowed email extra;
                    password_hash = hash;
                  })
                  t.accounts;
          })))
        salt (c ∷ password) s (λ e. h)
        (λ hash _.
          exec_-cases Keeps s
            (λ t. record t {
              accounts =
                  update_where (has_email email)
                    (λ d. record d {
                      allowed_from = normalize_allowed email extra;
                      password_hash = hash;
                    })
                    t.accounts;
            })
            h
            (allowed-IsAccounts email extra
              (λ d. record d { allowed_from = normalize_allowed email extra; password_hash = hash })
              s.accounts (λ d. refl) (λ d. refl) h))

  update_known-IsAccounts :
      (salt : ℕ) (email : Bytes) (extra : List Bytes) (password : Bytes) (found : Option Account)
      (s : Store)
      → IsAccounts s.accounts
      → Keeps (update_known b salt email extra password found s)
  unfolding update_known
  update_known-IsAccounts salt email extra password none s h = h
  update_known-IsAccounts salt email extra password (some a) s h =
      update_found-IsAccounts salt email extra password a s h

  pub update_account-IsAccounts :
      (salt : ℕ) (email : Bytes) (extra : List Bytes) (password : Bytes) (s : Store)
      → IsAccounts s.accounts
      → Keeps (update_account b salt email extra password s)
  unfolding update_account get_account
  update_account-IsAccounts salt email extra password s h =
      query-cases (λ o. Keeps (bind o (update_known b salt (normalize email) extra password))) s
        (λ t. find_account (normalize (normalize email)) t.accounts) h
        (update_known-IsAccounts salt (normalize email) extra password
          (find_account (normalize (normalize email)) s.accounts) (spend s) h)

  -- The calls that change the accounts.
  pub data Call : Type 0 where
    upserts : List (ℕ × AccountSeed) → Call
    updates : ℕ → Bytes → List Bytes → Bytes → Call
    deletes : Bytes → Call

  pub call : Call → Store → Store
  call (upserts seeds) s = after (upsert_accounts b seeds empty_summary s)
  call (updates salt email allowed password) s =
      after (update_account b salt email allowed password s)
  call (deletes email) s = after (delete_account email s)

  -- Whatever statements and hashes fail, each call keeps the accounts stored under normal addresses,
  -- one for each address, and each account free to send from its own address.
  pub call-IsAccounts :
      (c : Call) (s : Store) → IsAccounts s.accounts → IsAccounts (call c s).accounts
  unfolding call
  call-IsAccounts (upserts seeds) s h = upsert_accounts-IsAccounts seeds empty_summary s h
  call-IsAccounts (updates salt email allowed password) s h =
      update_account-IsAccounts salt email allowed password s h
  call-IsAccounts (deletes email) s h = delete_account-IsAccounts email s h
