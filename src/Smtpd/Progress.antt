-- ===== src/Smtpd/Progress.antt =====
-- internal/smtpd/session.go: no command gives input back, so the loop of a connection ends.
pub mod Mail
pub mod Loop
use carteiro.Common.{
  Bytes, List, Option, [], ap, arith, codes, if_lem, if◌then◌else◌, length, none, not, refl, some,
  str_eq, ℕ, ◌&&◌, ◌∙◌, ◌∷◌, ◌≡◌, ◌≤◌,
}
use carteiro.Text.{to_upper, to_lower, trim_space, decode, fields, split}
use carteiro.Storage.Types.{Account}
use carteiro.Storage.Db.{Outcome, done, failed}
use carteiro.Storage.Accounts.{get_account, verify_password}
use carteiro.Smtpd.Lines.{Slice, read_line, got, bad, LineRead}
use carteiro.Smtpd.Lines.Limits.{Shrinks, read_line-Shrinks}
use carteiro.Smtpd.Server.{
  Server, Services, Session, Next, go_on, close, reply, reset, bump_metric, auth_allowed,
}
use carteiro.Smtpd.Auth.{
  with_line, fail_auth, refuse_auth, accept_auth, reply334, invalid_base64, check_password,
  try_authenticate, plain_parts, plain_payload, auth_plain, login_password, login_user, auth_login,
  unknown_mechanism, auth_inline, auth_method, handle_auth,
}

-- The two sessions have the same input and the same handshakes to come.
abbrev pub SameInput : Session → Session → Type 0
SameInput s t = (t.input ≡ s.input) × (t.handshakes ≡ s.handshakes)

-- What is left of the input is no longer, and the handshakes are the same.
abbrev pub NotLonger : Session → Session → Type 0
NotLonger s t = (length t.input ≤ length s.input) × (t.handshakes ≡ s.handshakes)

-- The same, if the connection goes on.
abbrev pub Reads : Session → Next → Type 0
Reads s (go_on t) = NotLonger s t
Reads s (close t) = Unit

pub NotLonger-same : (s t : Session) → SameInput s t → NotLonger s t
NotLonger-same s t (i, h) = (omega (arith, ap (length {A = Slice}) i), h)

pub Reads-via : (s t : Session) (n : Next) → NotLonger s t → Reads t n → Reads s n
Reads-via s t (go_on u) h k = (omega (arith, h.0, k.0), k.1 ∙ h.1)
Reads-via s t (close u) h k = tt

module _ (services : Services) where
  check_password-same :
      (password : Bytes) (found : Option Account) (s : Session)
      → SameInput s (check_password services password found s)
  unfolding check_password accept_auth refuse_auth fail_auth reset reply bump_metric
  check_password-same password none s = (refl, refl)
  check_password-same password (some a) s =
      if_lem (SameInput s) (verify_password services.bcrypt a.password_hash password)
        (accept_auth a s) (refuse_auth s) (λ _. (refl, refl)) (λ _. (refl, refl))

  try_authenticate-same :
      (login password : Bytes) (s : Session)
      → SameInput s (try_authenticate services login password s)
  unfolding try_authenticate fail_auth reset reply
  try_authenticate-same login password s = go (get_account (to_lower (trim_space login)) s.store)
    where
      go :
          (o : Outcome (Option Account))
          → SameInput s (elim o [
            | failed e t ↦ fail_auth (record s { store = t })
            | done found t ↦ check_password services password found (record s { store = t })
          ])
      go (failed e t) = (refl, refl)
      go (done found t) = check_password-same password found (record s { store = t })

  abbrev AlwaysReads : (Session → Next) → Type 0
  AlwaysReads k = (s : Session) → Reads s (k s)

  with_line-Reads :
      (k : Bytes → Session → Next)
      → ((text : Bytes) → AlwaysReads (k text))
      → AlwaysReads (with_line k)
  unfolding with_line
  with_line-Reads k reads s = go (read_line s.input) (read_line-Shrinks s.input)
    where
      go :
          (r : LineRead)
          → Shrinks (length s.input) r
          → Reads s (elim r [
            | got text rest ↦ k text (record s { input = rest })
            | bad e rest ↦ close (record s { input = rest })
          ])
      go (got text rest) h =
          let s' = record s { input = rest } in
          Reads-via s s' (k text s') (omega (arith, h), refl) (reads text s')
      go (bad e rest) h = tt

  prompt-Reads :
      (k : Session → Next) (text : Bytes) → AlwaysReads k → AlwaysReads (λ s. k (reply334 text s))
  unfolding reply334 reply
  prompt-Reads k text reads s =
      Reads-via s (reply334 text s) (k (reply334 text s))
        (NotLonger-same s (reply334 text s) (refl, refl)) (reads (reply334 text s))

  -- A command that only replies.
  pub replies : (code : ℕ) (text : Bytes) → AlwaysReads (λ s. go_on (reply code text s))
  unfolding reply
  replies code text s = NotLonger-same s (reply code text s) (refl, refl)

  plain_parts-Reads : (parts : List Bytes) → AlwaysReads (λ s. go_on (plain_parts services parts s))
  unfolding plain_parts
  plain_parts-Reads [] s = replies 501 (codes "5.5.2 Invalid AUTH PLAIN format") s
  plain_parts-Reads (a ∷ []) s = replies 501 (codes "5.5.2 Invalid AUTH PLAIN format") s
  plain_parts-Reads (a ∷ b ∷ []) s = replies 501 (codes "5.5.2 Invalid AUTH PLAIN format") s
  plain_parts-Reads (authz ∷ authc ∷ password ∷ []) s =
      if_lem (NotLonger s) (not (str_eq authz []) && not (str_eq authz authc))
        (reply 535 (codes "5.7.8 authorization identity not supported") s)
        (try_authenticate services authc password s)
        (λ _. replies 535 (codes "5.7.8 authorization identity not supported") s)
        (λ _.
          NotLonger-same s (try_authenticate services authc password s)
            (try_authenticate-same authc password s))
  plain_parts-Reads (a ∷ b ∷ c ∷ d ∷ parts) s =
      replies 501 (codes "5.5.2 Invalid AUTH PLAIN format") s

  decoded-Reads :
      (o : Option Bytes) (k : Bytes → Session → Next)
      → ((text : Bytes) → AlwaysReads (k text))
      → AlwaysReads (λ s. elim o [ none ↦ invalid_base64 s | some text ↦ k text s ])
  unfolding invalid_base64
  decoded-Reads none k reads = replies 501 (codes "5.5.2 Invalid base64")
  decoded-Reads (some text) k reads = reads text

  plain_payload-Reads : (payload : Bytes) → AlwaysReads (plain_payload services payload)
  unfolding plain_payload
  plain_payload-Reads payload =
      decoded-Reads (decode (trim_space payload))
        (λ decoded s. go_on (plain_parts services (split decoded 0) s))
        (λ decoded. plain_parts-Reads (split decoded 0))

  auth_plain-Reads : (inline : Bytes) → AlwaysReads (auth_plain services inline)
  unfolding auth_plain
  auth_plain-Reads [] =
      prompt-Reads (with_line (plain_payload services)) []
        (with_line-Reads (plain_payload services) plain_payload-Reads)
  auth_plain-Reads (c ∷ cs) = plain_payload-Reads (c ∷ cs)

  login_password-Reads : (user text : Bytes) → AlwaysReads (login_password services user text)
  unfolding login_password
  login_password-Reads user text =
      decoded-Reads (decode (trim_space text))
        (λ password s. go_on (try_authenticate services user password s))
        (λ password s.
          NotLonger-same s (try_authenticate services user password s)
            (try_authenticate-same user password s))

  login_user-Reads : (text : Bytes) → AlwaysReads (login_user services text)
  unfolding login_user
  login_user-Reads text =
      decoded-Reads (decode (trim_space text))
        (λ user s. with_line (login_password services user) (reply334 (codes "UGFzc3dvcmQ6") s))
        (λ user.
          prompt-Reads (with_line (login_password services user)) (codes "UGFzc3dvcmQ6")
            (with_line-Reads (login_password services user) (login_password-Reads user)))

  auth_login-Reads : AlwaysReads (auth_login services)
  unfolding auth_login
  auth_login-Reads =
      prompt-Reads (with_line (login_user services)) (codes "VXNlcm5hbWU6")
        (with_line-Reads (login_user services) login_user-Reads)

  unknown-Reads : AlwaysReads unknown_mechanism
  unfolding unknown_mechanism
  unknown-Reads s = replies 504 (codes "5.5.4 Unsupported authentication mechanism") s

  auth_inline-Reads : (words : List Bytes) → AlwaysReads (auth_inline services words)
  unfolding auth_inline
  auth_inline-Reads [] s = unknown-Reads s
  auth_inline-Reads (m ∷ []) s = unknown-Reads s
  auth_inline-Reads (m ∷ credentials ∷ []) s =
      if_lem (Reads s) (str_eq (to_upper m) (codes "PLAIN")) (auth_plain services credentials s)
        (unknown_mechanism s) (λ _. auth_plain-Reads credentials s) (λ _. unknown-Reads s)
  auth_inline-Reads (m ∷ c ∷ d ∷ words) s = unknown-Reads s

  auth_method-Reads : (arg : Bytes) → AlwaysReads (auth_method services arg)
  unfolding auth_method
  auth_method-Reads arg s =
      let plain = auth_plain services [] s in
      let inline = auth_inline services (fields arg) s in
      let is_plain = str_eq (to_upper arg) (codes "PLAIN") in
      if_lem (Reads s) (str_eq (to_upper arg) (codes "LOGIN")) (auth_login services s)
        (if is_plain then plain else inline) (λ _. auth_login-Reads s)
        (λ _.
          if_lem (Reads s) is_plain plain inline (λ _. auth_plain-Reads [] s)
            (λ _. auth_inline-Reads (fields arg) s))

  pub handle_auth-Reads :
      (server : Server) (arg : Bytes) (s : Session) → Reads s (handle_auth services server arg s)
  unfolding handle_auth
  handle_auth-Reads server arg s = go s.user
    where
      go :
          (u : Option Account)
          → Reads s (elim u [
            | some a ↦ go_on (reply 503 (codes "5.5.1 Already authenticated") s)
            | none ↦
                if auth_allowed server s
                then auth_method services arg s
                else go_on (reply 538 (codes "5.7.11 Authentication requires TLS (STARTTLS)") s)
          ])
      go (some a) = replies 503 (codes "5.5.1 Already authenticated") s
      go none =
          if_lem (Reads s) (auth_allowed server s) (auth_method services arg s)
            (go_on (reply 538 (codes "5.7.11 Authentication requires TLS (STARTTLS)") s))
            (λ _. auth_method-Reads arg s)
            (λ _. replies 538 (codes "5.7.11 Authentication requires TLS (STARTTLS)") s)
