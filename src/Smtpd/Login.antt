-- ===== src/Smtpd/Login.antt =====
-- internal/smtpd/session.go: who is authenticated.
use carteiro.Common.{Bytes, Option, if_lem, none, refl, some, true, ◌≡◌}
use carteiro.Text.{to_lower, trim_space, normalize}
use carteiro.Storage.Types.{Account}
use carteiro.Storage.Db.{done, failed, spend}
use carteiro.Storage.Db.Rules.{query-cases}
use carteiro.Storage.Accounts.{get_account, find_account, verify_password}
use carteiro.Smtpd.Server.{Services, Session, reply, reset, bump_metric}
use carteiro.Smtpd.Auth.{check_password, try_authenticate, accept_auth, refuse_auth, fail_auth}

module _ (services : Services) where
  -- The user is the account that was looked up, and the password verifies its hash.
  abbrev pub Proven : Bytes → Option Account → Option Account → Type 0
  Proven password found none = Unit
  Proven password found (some a) =
      (found ≡ some a) × (verify_password services.bcrypt a.password_hash password ≡ true)

  check_password-Proven :
      (password : Bytes) (found : Option Account) (s : Session)
      → Proven password found (check_password services password found s).user
  unfolding check_password accept_auth refuse_auth fail_auth reset reply bump_metric
  check_password-Proven password none s = tt
  check_password-Proven password (some a) s =
      if_lem (λ (t : Session). Proven password (some a) t.user)
        (verify_password services.bcrypt a.password_hash password) (accept_auth a s) (refuse_auth s)
        (λ e. (refl, e)) (λ _. tt)

  -- After an attempt to authenticate, the session has no user, or its user is the account with the
  -- address of the login, trimmed and in lower case, and that account's hash verifies the password.
  pub try_authenticate-Proven :
      (login password : Bytes) (s : Session)
      → Proven password
          (find_account (normalize (to_lower (trim_space login))) s.store.accounts)
          (try_authenticate services login password s).user
  unfolding try_authenticate get_account fail_auth reset reply
  try_authenticate-Proven login password s =
      let key = normalize (to_lower (trim_space login)) in
      query-cases
        (λ o.
          Proven password (find_account key s.store.accounts)
            (elim o as (λ _. Session) [
              | failed e t ↦ fail_auth (record s { store = t })
              | done found t ↦ check_password services password found (record s { store = t })
            ]).user)
        s.store (λ t. find_account key t.accounts) tt
        (check_password-Proven password (find_account key s.store.accounts)
          (record s { store = spend s.store }))
