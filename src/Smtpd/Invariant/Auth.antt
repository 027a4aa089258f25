-- ===== src/Smtpd/Invariant/Auth.antt =====
-- internal/smtpd/session.go: the `AUTH` command keeps a session safe.
use carteiro.Common.{
  Bytes, In, List, Option, [], codes, if_lem, if◌then◌else◌, none, not, refl, some, str_eq, subst,
  sym, true, ◌&&◌, ◌∷◌, ◌≡◌,
}
use carteiro.Text.{to_lower, trim_space, decode, to_upper, fields, split}
use carteiro.Storage.Types.{Account, Store}
use carteiro.Storage.Db.{Outcome, done, failed}
use carteiro.Storage.Accounts.{get_account, verify_password}
use carteiro.Smtpd.Lines.{read_line, got, bad, LineRead}
use carteiro.Smtpd.Server.{
  Server, Services, Session, Next, close, reply, reset, bump_metric, auth_allowed, go_on,
}
use carteiro.Smtpd.Auth.{
  with_line, fail_auth, refuse_auth, accept_auth, check_password, try_authenticate, invalid_base64,
  login_user, auth_method, login_password, unknown_mechanism, plain_parts, plain_payload,
  auth_inline, auth_plain, reply334, auth_login, handle_auth,
}
use carteiro.Smtpd.Effects.{Kept, add_counter-Kept, Looked, get_account-Looked}
use carteiro.Smtpd.Invariant.{
  IsSafe, Step, StepTo, Step-to, Step-trans, blank, then_, session, replied,
}

module _ (services : Services) (server : Server) where
  fail_auth-Step : (s : Session) → Step server s (fail_auth s)
  unfolding fail_auth reset reply
  fail_auth-Step s =
      Step-to server s (fail_auth s) (blank server s.store.accounts none s.tls_on s.loopback tt)
        (refl, refl)

  refuse_auth-Step : (s : Session) → Step server s (refuse_auth s)
  unfolding refuse_auth fail_auth reset reply bump_metric
  refuse_auth-Step s =
      Step-to server s (refuse_auth s) (blank server s.store.accounts none s.tls_on s.loopback tt)
        (add_counter-Kept (codes "auth_failure") 1 s.store)

  accept_auth-Step :
      (a : Account) (s : Session)
      → In a s.store.accounts
      → auth_allowed server s ≡ true
      → Step server s (accept_auth a s)
  unfolding accept_auth reset reply bump_metric auth_allowed
  accept_auth-Step a s known allowed =
      Step-to server s (accept_auth a s)
        (blank server s.store.accounts (some a) s.tls_on s.loopback (known, allowed))
        (add_counter-Kept (codes "auth_success") 1 s.store)

  check_password-Step :
      (password : Bytes) (a : Account) (s : Session)
      → In a s.store.accounts
      → auth_allowed server s ≡ true
      → Step server s (check_password services password (some a) s)
  unfolding check_password
  check_password-Step password a s known allowed =
      if_lem (Step server s) (verify_password services.bcrypt a.password_hash password)
        (accept_auth a s) (refuse_auth s) (λ _. accept_auth-Step a s known allowed)
        (λ _. refuse_auth-Step s)

  with_store-Step :
      (s : Session) (t : Store)
      → IsSafe server s
      → Kept s.store t
      → Step server s (record s { store = t })
  with_store-Step s t h kept = Step-to server s (record s { store = t }) h kept

  Looked-Step :
      (password : Bytes) (s : Session) (o : Outcome (Option Account))
      → IsSafe server s
      → auth_allowed server s ≡ true
      → Looked s.store o
      → Step server s (elim o [
        | failed e t ↦ fail_auth (record s { store = t })
        | done found t ↦ check_password services password found (record s { store = t })
      ])
  unfolding check_password auth_allowed
  Looked-Step password s (failed e t) h allowed kept =
      Step-trans server s (record s { store = t }) (fail_auth (record s { store = t }))
        (with_store-Step s t h kept) (fail_auth-Step (record s { store = t }))
  Looked-Step password s (done none t) h allowed kept =
      Step-trans server s (record s { store = t }) (refuse_auth (record s { store = t }))
        (with_store-Step s t h kept) (refuse_auth-Step (record s { store = t }))
  Looked-Step password s (done (some a) t) h allowed (kept, known) =
      let s' = record s { store = t } in
      Step-trans server s s' (check_password services password (some a) s')
        (with_store-Step s t h kept)
        (check_password-Step password a s' (subst (In a) (sym kept.0) known) allowed)

  pub try_authenticate-Step :
      (login password : Bytes) (s : Session)
      → IsSafe server s
      → auth_allowed server s ≡ true
      → Step server s (try_authenticate services login password s)
  unfolding try_authenticate
  try_authenticate-Step login password s h allowed =
      let key = to_lower (trim_space login) in
      Looked-Step password s (get_account key s.store) h allowed (get_account-Looked key s.store)

  -- What a continuation of the command does for every safe session in which `AUTH` is allowed.
  abbrev Steps : (Session → Next) → Type 0
  Steps k = (s : Session) → IsSafe server s → auth_allowed server s ≡ true → StepTo server s (k s)

  with_line-Steps :
      (k : Bytes → Session → Next) → ((text : Bytes) → Steps (k text)) → Steps (with_line k)
  unfolding with_line auth_allowed
  with_line-Steps k steps s h allowed = go (read_line s.input)
    where
      go :
          (r : LineRead)
          → StepTo server s (elim r [
            | got text rest ↦ k text (record s { input = rest })
            | bad e rest ↦ close (record s { input = rest })
          ])
      go (got text rest) =
          let s' = record s { input = rest } in
          then_ server s s' (session (k text s')) h (refl, refl) (steps text s' h allowed)
      go (bad e rest) = Step-to server s (record s { input = rest }) h (refl, refl)

  -- The same behind a reply.
  prompt-Steps : (k : Session → Next) (text : Bytes) → Steps k → Steps (λ s. k (reply334 text s))
  unfolding reply334 reply auth_allowed
  prompt-Steps k text steps s h allowed =
      let s' = reply334 text s in
      then_ server s s' (session (k s')) h (refl, refl) (steps s' h allowed)

  plain_parts-Step :
      (parts : List Bytes) (s : Session)
      → IsSafe server s
      → auth_allowed server s ≡ true
      → Step server s (plain_parts services parts s)
  unfolding plain_parts
  plain_parts-Step [] s h allowed = replied server 501 (codes "5.5.2 Invalid AUTH PLAIN format") s h
  plain_parts-Step (a ∷ []) s h allowed =
      replied server 501 (codes "5.5.2 Invalid AUTH PLAIN format") s h
  plain_parts-Step (a ∷ b ∷ []) s h allowed =
      replied server 501 (codes "5.5.2 Invalid AUTH PLAIN format") s h
  plain_parts-Step (authz ∷ authc ∷ password ∷ []) s h allowed =
      if_lem (Step server s) (not (str_eq authz []) && not (str_eq authz authc))
        (reply 535 (codes "5.7.8 authorization identity not supported") s)
        (try_authenticate services authc password s)
        (λ _. replied server 535 (codes "5.7.8 authorization identity not supported") s h)
        (λ _. try_authenticate-Step authc password s h allowed)
  plain_parts-Step (a ∷ b ∷ c ∷ d ∷ parts) s h allowed =
      replied server 501 (codes "5.5.2 Invalid AUTH PLAIN format") s h

  invalid-Steps : Steps invalid_base64
  unfolding invalid_base64
  invalid-Steps s h allowed = replied server 501 (codes "5.5.2 Invalid base64") s h

  -- Credentials that are decoded first.
  decoded-Steps :
      (o : Option Bytes) (k : Bytes → Session → Next)
      → ((text : Bytes) → Steps (k text))
      → Steps (λ s. elim o [ none ↦ invalid_base64 s | some text ↦ k text s ])
  decoded-Steps none k steps = invalid-Steps
  decoded-Steps (some text) k steps = steps text

  plain_payload-Steps : (payload : Bytes) → Steps (plain_payload services payload)
  unfolding plain_payload
  plain_payload-Steps payload =
      decoded-Steps (decode (trim_space payload))
        (λ decoded s. go_on (plain_parts services (split decoded 0) s))
        (λ decoded. plain_parts-Step (split decoded 0))

  auth_plain-Steps : (inline : Bytes) → Steps (auth_plain services inline)
  unfolding auth_plain
  auth_plain-Steps [] =
      prompt-Steps (with_line (plain_payload services)) []
        (with_line-Steps (plain_payload services) plain_payload-Steps)
  auth_plain-Steps (c ∷ cs) = plain_payload-Steps (c ∷ cs)

  login_password-Steps : (user text : Bytes) → Steps (login_password services user text)
  unfolding login_password
  login_password-Steps user text =
      decoded-Steps (decode (trim_space text))
        (λ password s. go_on (try_authenticate services user password s))
        (λ password. try_authenticate-Step user password)

  login_user-Steps : (text : Bytes) → Steps (login_user services text)
  unfolding login_user
  login_user-Steps text =
      decoded-Steps (decode (trim_space text))
        (λ user s. with_line (login_password services user) (reply334 (codes "UGFzc3dvcmQ6") s))
        (λ user.
          prompt-Steps (with_line (login_password services user)) (codes "UGFzc3dvcmQ6")
            (with_line-Steps (login_password services user) (login_password-Steps user)))

  auth_login-Steps : Steps (auth_login services)
  unfolding auth_login
  auth_login-Steps =
      prompt-Steps (with_line (login_user services)) (codes "VXNlcm5hbWU6")
        (with_line-Steps (login_user services) login_user-Steps)

  unknown-Steps : Steps unknown_mechanism
  unfolding unknown_mechanism
  unknown-Steps s h allowed =
      replied server 504 (codes "5.5.4 Unsupported authentication mechanism") s h

  auth_inline-Steps : (words : List Bytes) → Steps (auth_inline services words)
  unfolding auth_inline
  auth_inline-Steps [] s h allowed = unknown-Steps s h allowed
  auth_inline-Steps (m ∷ []) s h allowed = unknown-Steps s h allowed
  auth_inline-Steps (m ∷ credentials ∷ []) s h allowed =
      if_lem (StepTo server s) (str_eq (to_upper m) (codes "PLAIN"))
        (auth_plain services credentials s) (unknown_mechanism s)
        (λ _. auth_plain-Steps credentials s h allowed) (λ _. unknown-Steps s h allowed)
  auth_inline-Steps (m ∷ c ∷ d ∷ words) s h allowed = unknown-Steps s h allowed

  auth_method-Steps : (arg : Bytes) → Steps (auth_method services arg)
  unfolding auth_method
  auth_method-Steps arg s h allowed =
      let plain = auth_plain services [] s in
      let inline = auth_inline services (fields arg) s in
      let is_plain = str_eq (to_upper arg) (codes "PLAIN") in
      if_lem (StepTo server s) (str_eq (to_upper arg) (codes "LOGIN")) (auth_login services s)
        (if is_plain then plain else inline) (λ _. auth_login-Steps s h allowed)
        (λ _.
          if_lem (StepTo server s) is_plain plain inline (λ _. auth_plain-Steps [] s h allowed)
            (λ _. auth_inline-Steps (fields arg) s h allowed))

  -- `handle_auth` keeps a session safe, whatever the client sends.
  pub handle_auth-Step :
      (arg : Bytes) (s : Session)
      → IsSafe server s
      → StepTo server s (handle_auth services server arg s)
  unfolding handle_auth
  handle_auth-Step arg s h = go s.user
    where
      go :
          (u : Option Account)
          → StepTo server s (elim u [
            | some a ↦ go_on (reply 503 (codes "5.5.1 Already authenticated") s)
            | none ↦
                if auth_allowed server s
                then auth_method services arg s
                else go_on (reply 538 (codes "5.7.11 Authentication requires TLS (STARTTLS)") s)
          ])
      go (some a) = replied server 503 (codes "5.5.1 Already authenticated") s h
      go none =
          if_lem (StepTo server s) (auth_allowed server s) (auth_method services arg s)
            (go_on (reply 538 (codes "5.7.11 Authentication requires TLS (STARTTLS)") s))
            (auth_method-Steps arg s h)
            (λ _. replied server 538 (codes "5.7.11 Authentication requires TLS (STARTTLS)") s h)
