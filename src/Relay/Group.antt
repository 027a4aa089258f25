-- ===== src/Relay/Group.antt =====
-- internal/relay/deliver.go: `resolveHost`, `isPermanent` and `deliverGroup`. The resolver and the
-- SMTP client of package net/smtp are scripted: for each domain or host it is given what their calls
-- return.
pub mod Refusals
pub mod Decides
use carteiro.Common.{
  Bool, Bytes, List, Option, [], any, codes, false, if◌then◌else◌, leb, none, not, some, str_eq,
  true, ℕ, ◌&&◌, ◌++◌, ◌==◌, ◌∷◌,
}
use carteiro.Storage.Types.{Reasons}
use carteiro.Storage.Db.{order_by}
use carteiro.Relay.Domains.{trim_dot}

-- An error: its text, and the code of the `textproto.Error` in it if there is one.
pub record Failure : Type 0 where
  pub code : Option ℕ
  pub text : Bytes

-- `fmt.Errorf` with `%w`.
abbrev pub wrap : Bytes → Failure → Failure
wrap prefix e = record e { text = prefix ++ e.text }

unfoldable pub is_permanent : Failure → Bool
is_permanent e = elim e.code [ none ↦ false | some c ↦ leb 500 c && not (c == 421) ]

abbrev pub plain : Bytes → Failure
plain text = record { code = none; text = text }

-- A look-up: what was found, or an error that says whether the name does not exist.
pub data Lookup (A : Type 0) : Type 0 where
  answer : A → Lookup A
  no_answer : Bool → Bytes → Lookup A

-- What the calls return at one host: `none` for success. `starttls` is `none` where the server does
-- not offer it. `reconnect` and `hello_again` are for the connection in plain text that follows a
-- failed handshake.
pub record Mx : Type 0 where
  pub connect : Option Failure
  pub hello : Option Failure
  pub starttls : Option Bool
  pub reconnect : Option Failure
  pub hello_again : Option Failure
  pub mail : Option Failure
  pub rcpt : Bytes → Option Failure
  pub data_start : Option Failure
  pub write : Option Failure
  pub data_end : Option Failure

pub record Network : Type 0 where
  pub lookup_mx : Bytes → Lookup (List (ℕ × Bytes))
  pub lookup_host : Bytes → Lookup (List Bytes)
  pub mx : Bytes → Mx

pub data Resolved : Type 0 where
  host : Bytes → Resolved
  unresolved : Failure → Resolved

abbrev pub by_pref : ℕ × Bytes → ℕ × Bytes → Bool
by_pref a b = leb a.0 b.0

-- The address of the domain itself.
unfoldable pub resolve_address : Bytes → Lookup (List Bytes) → Resolved
resolve_address domain (no_answer true text) =
    unresolved (plain (codes "domain " ++ domain ++ codes " does not exist (no MX or A): " ++ text))
resolve_address domain (no_answer false text) =
    unresolved (plain (codes "resolving " ++ domain ++ codes ": " ++ text))
resolve_address domain (answer []) =
    unresolved (plain (codes "domain " ++ domain ++ codes " has no MX or A/AAAA records"))
resolve_address domain (answer (h ∷ hs)) = host h

-- The host with the lowest preference.
unfoldable pub resolve_mx : Bytes → Lookup (List Bytes) → Lookup (List (ℕ × Bytes)) → Resolved
unfolding resolve_address order_by
resolve_mx domain hosts (no_answer true text) =
    unresolved (plain (codes "domain " ++ domain ++ codes " does not exist: " ++ text))
resolve_mx domain hosts (no_answer false text) =
    unresolved (plain (codes "MX lookup for " ++ domain ++ codes ": " ++ text))
resolve_mx domain hosts (answer mxs) = elim (order_by by_pref mxs) [
  | [] ↦ resolve_address domain hosts
  | m ∷ ms ↦ host m.1
]

unfoldable pub resolve_host : Network → Bytes → Resolved
unfolding resolve_mx trim_dot
resolve_host net domain =
    let d = trim_dot domain in resolve_mx d (net.lookup_host d) (net.lookup_mx d)

-- The recipients delivered to and the refused ones, or a failure to try again.
pub data GroupResult : Type 0 where
  settled : List Bytes → Reasons → GroupResult
  retry : Failure → GroupResult

-- `perm[addr] = reason`.
unfoldable pub set_reason : Bytes → Bytes → Reasons → Reasons
unfolding str_eq
set_reason addr reason [] = (addr, reason) ∷ []
set_reason addr reason ((a, r) ∷ perm) =
    if str_eq a addr then (addr, reason) ∷ perm else (a, r) ∷ set_reason addr reason perm

-- The same reason for each recipient.
unfoldable pub refuse_all : Bytes → List Bytes → Reasons → Reasons
unfolding set_reason
refuse_all reason [] perm = perm
refuse_all reason (a ∷ rcpts) perm = refuse_all reason rcpts (set_reason a reason perm)

-- The body is sent to the recipients that were accepted.
unfoldable pub finish_data : Mx → List Bytes → Reasons → GroupResult
unfolding refuse_all is_permanent
finish_data mx delivered perm = elim mx.data_end [
  | none ↦ settled delivered perm
  | some e ↦
      if is_permanent e
      then settled [] (refuse_all (codes "DATA: " ++ e.text) delivered perm)
      else retry (wrap (codes "DATA: ") e)
]

unfoldable pub send_data : Mx → List Bytes → Reasons → GroupResult
unfolding finish_data
send_data mx [] perm = settled [] perm
send_data mx (a ∷ delivered) perm = elim mx.data_start [
  | some e ↦ retry (wrap (codes "DATA: ") e)
  | none ↦ elim mx.write [
    | some e ↦ retry (wrap (codes "writing data: ") e)
    | none ↦ finish_data mx (a ∷ delivered) perm
  ]
]

-- What follows the answer for one recipient: the loop goes on with it delivered or refused, or stops.
unfoldable pub rcpt_answer :
    (List Bytes → Reasons → GroupResult)
    → Bytes
    → List Bytes
    → Reasons
    → Option Failure
    → GroupResult
unfolding set_reason is_permanent
rcpt_answer next rcp delivered perm none = next (delivered ++ rcp ∷ []) perm
rcpt_answer next rcp delivered perm (some e) =
    if is_permanent e
    then next delivered (set_reason rcp (codes "RCPT: " ++ e.text) perm)
    else retry (wrap (codes "RCPT " ++ rcp ++ codes ": ") e)

-- The loop over the recipients.
unfoldable pub send_rcpts : Mx → List Bytes → List Bytes → Reasons → GroupResult
unfolding rcpt_answer send_data
send_rcpts mx [] delivered perm = send_data mx delivered perm
send_rcpts mx (rcp ∷ rcpts) delivered perm =
    rcpt_answer (send_rcpts mx rcpts) rcp delivered perm (mx.rcpt rcp)

unfoldable pub send_mail : Mx → List Bytes → GroupResult
unfolding send_rcpts refuse_all is_permanent
send_mail mx rcpts = elim mx.mail [
  | none ↦ send_rcpts mx rcpts [] []
  | some e ↦
      if is_permanent e
      then settled [] (refuse_all (codes "MAIL FROM: " ++ e.text) rcpts [])
      else retry (wrap (codes "MAIL FROM: ") e)
]

-- The second connection, after a handshake that failed.
unfoldable pub send_plain : Bytes → Mx → List Bytes → GroupResult
unfolding send_mail
send_plain host_ mx rcpts = elim mx.reconnect [
  | some e ↦ retry (wrap (codes "reconnecting to " ++ host_ ++ codes ": ") e)
  | none ↦ elim mx.hello_again [
    | some e ↦ retry (wrap (codes "EHLO (plain) to " ++ host_ ++ codes ": ") e)
    | none ↦ send_mail mx rcpts
  ]
]

unfoldable pub send_opportunistic : Bytes → Mx → List Bytes → GroupResult
unfolding send_plain send_mail
send_opportunistic host_ mx rcpts = elim mx.starttls [
  | none ↦ send_mail mx rcpts
  | some ok ↦ if ok then send_mail mx rcpts else send_plain host_ mx rcpts
]

unfoldable pub send_to : Bytes → Bytes → Mx → List Bytes → GroupResult
unfolding send_opportunistic
send_to domain host_ mx rcpts = elim mx.connect [
  | some e ↦
      retry (wrap (codes "connecting to " ++ host_ ++ codes " (MX of " ++ domain ++ codes "): ") e)
  | none ↦ elim mx.hello [
    | some e ↦ retry (wrap (codes "EHLO to " ++ host_ ++ codes ": ") e)
    | none ↦ send_opportunistic host_ mx rcpts
  ]
]

unfoldable pub group_result : Network → Bytes → List Bytes → GroupResult
unfolding send_to resolve_host refuse_all is_permanent
group_result net domain rcpts = elim (resolve_host net domain) [
  | host h ↦ send_to domain h (net.mx h) rcpts
  | unresolved e ↦
      if is_permanent e
      then settled [] (refuse_all e.text rcpts [])
      else retry (wrap (codes "resolving MX of " ++ domain ++ codes ": ") e)
]

abbrev pub elem : Bytes → List Bytes → Bool
elem a addrs = any (λ b. str_eq a b) addrs

abbrev pub has_reason : Bytes → Reasons → Bool
has_reason a perm = any (λ p. str_eq a p.0) perm
