-- ===== src/Storage/Accounts/Frame.antt =====
-- The operations on accounts leave the queue alone.
use carteiro.Common.{Bytes, List, Option, [], if_lem, none, refl, some, str_eq, ℕ, ◌∙◌, ◌∷◌, ◌≡◌}
use carteiro.Text.{normalize}
use carteiro.Storage.Types.{Store, Account, AccountSeed, UpsertSummary}
use carteiro.Storage.Db.{M, Outcome, after, bind, done, failed, exec_, update_where, delete_where}
use carteiro.Storage.Db.Rules.{query-cases, exec_-cases}
use carteiro.Storage.Bcrypt.{Bcrypt}
use carteiro.Storage.Accounts.{
  delete_account, update_account, update_found, update_known, upsert_accounts, upsert_one,
  upsert_found, store_seed, hash_password, get_account, is_current, normalize_allowed, put_account,
  has_email, find_account,
}
use carteiro.Storage.Accounts.Invariant.{hash_password-cases}

abbrev SameQueue {ℓ} : {A : Type ℓ} → Store → Outcome A → Type 0
SameQueue s o = (after o).queue ≡ s.queue

bind-SameQueue :
    {A B : Type 0} (s : Store) (o : Outcome A) (f : A → M B)
    → SameQueue s o
    → ((a : A) (t : Store) → SameQueue t (f a t))
    → SameQueue s (bind o f)
bind-SameQueue s (done a t) f h k = k a t ∙ h
bind-SameQueue s (failed e t) f h k = h

-- A statement that only changes the table of accounts.
change-SameQueue :
    (f : List Account → List Account) (s : Store)
    → SameQueue s (exec_ (λ t. record t { accounts = f t.accounts }) s)
change-SameQueue f s =
    exec_-cases (SameQueue s) s (λ t. record t { accounts = f t.accounts }) refl refl

get_account-SameQueue : (email : Bytes) (s : Store) → SameQueue s (get_account email s)
unfolding get_account
get_account-SameQueue email s =
    query-cases (SameQueue s) s (λ t. find_account (normalize email) t.accounts) refl refl

pub delete_account-SameQueue :
    (email : Bytes) (s : Store) → (after (delete_account email s)).queue ≡ s.queue
unfolding delete_account
delete_account-SameQueue email s = change-SameQueue (delete_where (has_email (normalize email))) s

module _ (b : Bcrypt) where
  hash_password-SameQueue :
      (salt : ℕ) (password : Bytes) (s : Store) → SameQueue s (hash_password b salt password s)
  hash_password-SameQueue salt password s =
      hash_password-cases b (SameQueue s) salt password s (λ e. refl) (λ hash _. refl)

  store_seed-SameQueue :
      (salt : ℕ) (email password : Bytes) (allowed : List Bytes) (s : Store)
      → SameQueue s (store_seed b salt email password allowed s)
  unfolding store_seed
  store_seed-SameQueue salt email password allowed s =
      bind-SameQueue s (hash_password b salt password s) _ (hash_password-SameQueue salt password s)
        (λ hash t.
          change-SameQueue
            (put_account (record { email = email; password_hash = hash; allowed_from = allowed }))
            t)

  upsert_found-SameQueue :
      (salt : ℕ) (email password : Bytes) (allowed : List Bytes) (u : UpsertSummary)
      (found : Option Account) (s : Store)
      → SameQueue s (upsert_found b salt email password allowed u found s)
  unfolding upsert_found
  upsert_found-SameQueue salt email password allowed u none s =
      bind-SameQueue s (store_seed b salt email password allowed s) _
        (store_seed-SameQueue salt email password allowed s) (λ _ t. refl)
  upsert_found-SameQueue salt email password allowed u (some a) s =
      if_lem (λ (m : M UpsertSummary). SameQueue s (m s)) (is_current b password allowed a) _ _
        (λ _. refl)
        (λ _.
          bind-SameQueue s (store_seed b salt email password allowed s) _
            (store_seed-SameQueue salt email password allowed s) (λ _ t. refl))

  upsert_one-SameQueue :
      (salt : ℕ) (seed : AccountSeed) (u : UpsertSummary) (s : Store)
      → SameQueue s (upsert_one b salt seed u s)
  unfolding upsert_one
  upsert_one-SameQueue salt seed u s =
      let P = λ (m : M UpsertSummary). SameQueue s (m s) in
      if_lem P (str_eq (normalize seed.email) []) _ _ (λ _. refl)
        λ _.
          if_lem P (str_eq seed.password []) _ _ (λ _. refl)
            λ _.
              bind-SameQueue s (get_account (normalize seed.email) s) _
                (get_account-SameQueue (normalize seed.email) s)
                (λ found t.
                  upsert_found-SameQueue salt (normalize seed.email) seed.password
                    (normalize_allowed (normalize seed.email) seed.allowed_from) u found t)

  pub upsert_accounts-SameQueue :
      (seeds : List (ℕ × AccountSeed)) (u : UpsertSummary) (s : Store)
      → (after (upsert_accounts b seeds u s)).queue ≡ s.queue
  unfolding upsert_accounts
  upsert_accounts-SameQueue [] u s = refl
  upsert_accounts-SameQueue ((salt, seed) ∷ seeds) u s =
      bind-SameQueue s (upsert_one b salt seed u s) _ (upsert_one-SameQueue salt seed u s)
        (λ v t. upsert_accounts-SameQueue seeds v t)

  update_known-SameQueue :
      (salt : ℕ) (email : Bytes) (allowed : List Bytes) (password : Bytes) (found : Option Account)
      (s : Store)
      → SameQueue s (update_known b salt email allowed password found s)
  unfolding update_known update_found
  update_known-SameQueue salt email allowed password none s = refl
  update_known-SameQueue salt email allowed [] (some a) s =
      change-SameQueue
        (update_where (has_email email)
          (λ (b : Account). record b { allowed_from = normalize_allowed email allowed }))
        s
  update_known-SameQueue salt email allowed (c ∷ password) (some a) s =
      bind-SameQueue s (hash_password b salt (c ∷ password) s) _
        (hash_password-SameQueue salt (c ∷ password) s)
        (λ hash t.
          change-SameQueue
            (update_where (has_email email) (λ (b : Account). record b {
              allowed_from = normalize_allowed email allowed;
              password_hash = hash;
            }))
            t)

  pub update_account-SameQueue :
      (salt : ℕ) (email : Bytes) (allowed : List Bytes) (password : Bytes) (s : Store)
      → (after (update_account b salt email allowed password s)).queue ≡ s.queue
  unfolding update_account
  update_account-SameQueue salt email allowed password s =
      bind-SameQueue s (get_account (normalize email) s) _
        (get_account-SameQueue (normalize email) s)
        (λ found t. update_known-SameQueue salt (normalize email) allowed password found t)
