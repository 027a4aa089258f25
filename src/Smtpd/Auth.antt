-- ===== src/Smtpd/Auth.antt =====
-- internal/smtpd/session.go: the `AUTH` command.
use carteiro.Common.{
  Bytes, List, Option, [], codes, false, if◌then◌else◌, none, not, some, str_eq, ◌&&◌, ◌∷◌,
}
use carteiro.Text.{to_upper, to_lower, trim_space, fields, split, decode}
use carteiro.Storage.Types.{Account, auth_success, auth_failure}
use carteiro.Storage.Db.{after, done, failed}
use carteiro.Storage.Accounts.{get_account, verify_password}
use carteiro.Storage.Counters.{add_counter}
use carteiro.Smtpd.Lines.{read_line, got, bad}
use carteiro.Smtpd.Server.{
  Server, Services, Session, Next, go_on, close, reply, reset, bump_metric, auth_allowed,
}

-- Reads a line; an error closes the connection.
unfoldable pub with_line : (Bytes → Session → Next) → Session → Next
unfolding read_line
with_line k s = elim (read_line s.input) [
  | got text rest ↦ k text (record s { input = rest })
  | bad e rest ↦ close (record s { input = rest })
]

unfoldable pub fail_auth : Session → Session
unfolding reset reply
fail_auth s =
    reply 535 (codes "5.7.8 Authentication credentials invalid")
      (reset false (record s { user = none }))

-- The failure that is counted.
unfoldable pub refuse_auth : Session → Session
unfolding fail_auth bump_metric add_counter
refuse_auth s = fail_auth (
    bump_metric auth_failure
      (record s { store = after (add_counter (codes "auth_failure") 1 s.store) }))

unfoldable pub accept_auth : Account → Session → Session
unfolding reset reply bump_metric add_counter
accept_auth a s = reply 235 (codes "2.7.0 Authentication successful") (
    bump_metric auth_success (
      reset false
        (record s { user = some a; store = after (add_counter (codes "auth_success") 1 s.store) })))

-- `reply334`; an empty prompt is sent as a space.
unfoldable pub reply334 : Bytes → Session → Session
unfolding reply
reply334 prompt = reply 334 (elim prompt [ [] ↦ codes " " | c ∷ cs ↦ c ∷ cs ])

unfoldable pub invalid_base64 : Session → Next
unfolding reply
invalid_base64 s = go_on (reply 501 (codes "5.5.2 Invalid base64") s)

unfoldable pub unknown_mechanism : Session → Next
unfolding reply
unknown_mechanism s = go_on (reply 504 (codes "5.5.4 Unsupported authentication mechanism") s)

module _ (services : Services) where
  -- The account that was found, if its hash verifies the password.
  unfoldable pub check_password : Bytes → Option Account → Session → Session
  unfolding verify_password refuse_auth accept_auth
  check_password password none s = refuse_auth s
  check_password password (some a) s =
      if verify_password services.bcrypt a.password_hash password
      then accept_auth a s
      else refuse_auth s

  unfoldable pub try_authenticate : Bytes → Bytes → Session → Session
  unfolding get_account check_password fail_auth to_lower trim_space
  try_authenticate login password s = elim (get_account (to_lower (trim_space login)) s.store) [
    | failed e t ↦ fail_auth (record s { store = t })
    | done found t ↦ check_password password found (record s { store = t })
  ]

  -- The parts of the credentials, between the zero bytes.
  unfoldable pub plain_parts : List Bytes → Session → Session
  unfolding try_authenticate reply str_eq
  plain_parts (authz ∷ authc ∷ password ∷ []) s =
      if not (str_eq authz []) && not (str_eq authz authc)
      then reply 535 (codes "5.7.8 authorization identity not supported") s
      else try_authenticate authc password s
  plain_parts parts s = reply 501 (codes "5.5.2 Invalid AUTH PLAIN format") s

  unfoldable pub plain_payload : Bytes → Session → Next
  unfolding plain_parts invalid_base64 decode split trim_space
  plain_payload payload s = elim (decode (trim_space payload)) [
    | none ↦ invalid_base64 s
    | some decoded ↦ go_on (plain_parts (split decoded 0) s)
  ]

  unfoldable pub auth_plain : Bytes → Session → Next
  unfolding plain_payload with_line reply334
  auth_plain [] s = with_line plain_payload (reply334 [] s)
  auth_plain (c ∷ cs) s = plain_payload (c ∷ cs) s

  unfoldable pub login_password : Bytes → Bytes → Session → Next
  unfolding try_authenticate invalid_base64 decode trim_space
  login_password user text s = elim (decode (trim_space text)) [
    | none ↦ invalid_base64 s
    | some password ↦ go_on (try_authenticate user password s)
  ]

  unfoldable pub login_user : Bytes → Session → Next
  unfolding login_password with_line reply334 invalid_base64 decode trim_space
  login_user text s = elim (decode (trim_space text)) [
    | none ↦ invalid_base64 s
    | some user ↦ with_line (login_password user) (reply334 (codes "UGFzc3dvcmQ6") s)
  ]

  unfoldable pub auth_login : Session → Next
  unfolding login_user with_line reply334
  auth_login s = with_line login_user (reply334 (codes "VXNlcm5hbWU6") s)

  -- `AUTH PLAIN <credentials>`, or a mechanism that is not known.
  unfoldable pub auth_inline : List Bytes → Session → Next
  unfolding auth_plain unknown_mechanism to_upper str_eq
  auth_inline (mechanism ∷ credentials ∷ []) s =
      if str_eq (to_upper mechanism) (codes "PLAIN")
      then auth_plain credentials s
      else unknown_mechanism s
  auth_inline words s = unknown_mechanism s

  unfoldable pub auth_method : Bytes → Session → Next
  unfolding auth_login auth_plain auth_inline to_upper str_eq fields
  auth_method arg s =
      if str_eq (to_upper arg) (codes "LOGIN")
      then auth_login s
      else if str_eq (to_upper arg) (codes "PLAIN")
      then auth_plain [] s
      else auth_inline (fields arg) s

  unfoldable pub handle_auth : Server → Bytes → Session → Next
  unfolding auth_method auth_allowed reply
  handle_auth server arg s = elim s.user [
    | some a ↦ go_on (reply 503 (codes "5.5.1 Already authenticated") s)
    | none ↦
        if auth_allowed server s
        then auth_method arg s
        else go_on (reply 538 (codes "5.7.11 Authentication requires TLS (STARTTLS)") s)
  ]
