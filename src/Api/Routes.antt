-- ===== src/Api/Routes.antt =====
-- internal/api/api.go: registerRoutes and requireAuth. The multiplexer of net/http finds the route
-- whose method and pattern fit; no two patterns here fit the same request.
pub mod Auth
pub mod Sound
use carteiro.Common.{
  Bool, Bytes, List, Option, [], codes, false, if◌then◌else◌, none, not, some, str_eq, true, ℕ,
  ◌&&◌, ◌||◌, ◌∷◌,
}
use carteiro.Text.{has_prefix, trim_prefix, trim_space}
use carteiro.Api.Types.{Services, Server, Request, Handler, write_json, write_error, mux_page}
use carteiro.Api.System.{handle_health, handle_metrics, handle_openapi, handle_stats}
use carteiro.Api.Accounts.{
  handle_list_accounts, handle_create_account, handle_update_account, handle_delete_account,
}
use carteiro.Api.Dkim.{handle_list_dkim, handle_create_dkim, handle_delete_dkim, handle_dns_check}
use carteiro.Api.Queue.{handle_queue_stats, handle_list_messages, handle_requeue}
use carteiro.Api.Sends.{handle_list_sends, handle_get_send, handle_send}
use Prim.Native.String.{String}

-- A segment of a pattern: a literal, or a `{name}` that takes one segment.
pub data Segment : Type 0 where
  lit : Bytes → Segment
  wild : Segment

-- `h` is given the request and what the wildcard took.
pub record Route : Type 0 where
  pub method : Bytes
  pub path : List Segment
  pub public : Bool
  pub legacy : Bool
  pub h : Request → Bytes → Handler

abbrev route : String → List Segment → Bool → Bool → (Request → Bytes → Handler) → Route
route method path public legacy h = record {
  method = codes method;
  path = path;
  public = public;
  legacy = legacy;
  h = h;
}

abbrev at : String → List Segment
at s = lit (codes s) ∷ []

unfoldable pub routes : Services → Server → List Route
routes services server =
    route "GET" (at "health") true true (λ r v. handle_health)
    ∷ route "GET" (at "metrics") true true (λ r v. handle_metrics)
    ∷ route "GET" (at "openapi.json") true true (λ r v. handle_openapi)
    ∷ route "GET" (at "accounts") false false (λ r v. handle_list_accounts)
    ∷ route "POST" (at "accounts") false false (λ r v. handle_create_account services r.body)
    ∷ route "PATCH" (lit (codes "accounts") ∷ wild ∷ []) false false
        (λ r v. handle_update_account services v r.body)
    ∷ route "DELETE" (lit (codes "accounts") ∷ wild ∷ []) false false
        (λ r v. handle_delete_account v)
    ∷ route "GET" (at "dkim") false true (λ r v. handle_list_dkim)
    ∷ route "POST" (at "dkim") false true (λ r v. handle_create_dkim services r.body)
    ∷ route "DELETE" (lit (codes "dkim") ∷ wild ∷ []) false true (λ r v. handle_delete_dkim v)
    ∷ route "GET" (lit (codes "queue") ∷ at "stats") false true (λ r v. handle_queue_stats)
    ∷ route "GET" (at "queue") false true (λ r v. handle_list_messages r)
    ∷ route "POST" (lit (codes "queue") ∷ wild ∷ at "retry") false true
        (λ r v. handle_requeue server v)
    ∷ route "GET" (at "stats") false false (λ r v. handle_stats server)
    ∷ route "GET" (at "sends") false false (λ r v. handle_list_sends server r)
    ∷ route "GET" (lit (codes "sends") ∷ wild ∷ []) false false (λ r v. handle_get_send server v)
    ∷ route "POST" (at "send") false false (λ r v. handle_send services server r.body)
    ∷ route "GET" (at "dns") false false (λ r v. handle_dns_check services server r)
    ∷ []

-- What the wildcard of a pattern takes, the empty text without one; `none` if it does not fit. A
-- wildcard takes no empty segment.
unfoldable pub fit : List Segment → List Bytes → Option Bytes
unfolding str_eq
fit [] [] = some []
fit (lit a ∷ ps) (b ∷ path) = if str_eq a b then fit ps path else none
fit (wild ∷ ps) ((c ∷ b) ∷ path) = elim (fit ps path) [ none ↦ none | some _ ↦ some (c ∷ b) ]
fit _ _ = none

unfoldable pub valid_token : Server → Bytes → Bool
unfolding str_eq
valid_token server given = str_eq server.token given

unfoldable pub has_token : Server → Request → Bool
unfolding valid_token has_prefix trim_prefix trim_space
has_token server r =
    has_prefix r.authorization (codes "Bearer ")
    && valid_token server (trim_space (trim_prefix r.authorization (codes "Bearer ")))

unfoldable pub require_auth : Server → (Request → Bytes → Handler) → Request → Bytes → Handler
unfolding has_token write_error
require_auth server next r v =
    if not (has_token server r)
    then write_error 401 (codes "invalid or missing bearer token")
    else next r v

-- What a route answers with, once it is mounted.
unfoldable pub mounted : Server → Route → Request → Bytes → Handler
unfolding require_auth
mounted server rt = if rt.public then rt.h else require_auth server rt.h

-- A pattern for GET takes HEAD too.
unfoldable pub method_fits : Bytes → Bytes → Bool
unfolding str_eq
method_fits pattern given =
    str_eq pattern given || (str_eq pattern (codes "GET") && str_eq given (codes "HEAD"))

-- The routes under one prefix, with what the multiplexer answers where none fits: 405 if the path
-- fits with another method, and else 404. `legacy` leaves out those without a root alias.
unfoldable pub dispatch : Server → List Route → Bool → ℕ → Request → List Bytes → Handler
unfolding fit mounted method_fits write_json
dispatch server [] legacy code r path = write_json code mux_page
dispatch server (rt ∷ rts) legacy code r path =
    let rest = dispatch server rts legacy code r path in
    let other = dispatch server rts legacy 405 r path in
    elim (fit rt.path path) [
      | none ↦ rest
      | some v ↦
          if legacy && not rt.legacy
          then rest
          else if method_fits rt.method r.method
          then mounted server rt r v
          else other
    ]

unfoldable pub under_api : List Bytes → Option (List Bytes)
unfolding str_eq
under_api [] = none
under_api (a ∷ path) = if str_eq a (codes "api") then some path else none

abbrev is_dots : Bytes → Bool
is_dots a = str_eq a (codes ".") || str_eq a (codes "..")

-- The multiplexer cleans a path: it has an empty segment before the last one, or a segment `.` or `..`.
unfoldable pub is_unclean : List Bytes → Bool
unfolding str_eq
is_unclean [] = false
is_unclean (a ∷ []) = is_dots a
is_unclean (a ∷ b ∷ path) = str_eq a [] || is_dots a || is_unclean (b ∷ path)

-- The two calls of `registerRoutes` in `New`, and the multiplexer over them, which redirects a path
-- that is not clean before it looks for a route, but for CONNECT.
unfoldable pub serve : Services → Server → Request → Handler
unfolding str_eq routes dispatch under_api is_unclean write_json
serve services server r =
    if not (str_eq r.method (codes "CONNECT")) && is_unclean r.path
    then write_json 301 mux_page
    else elim (under_api r.path) [
      | some path ↦ dispatch server (routes services server) false 404 r path
      | none ↦ dispatch server (routes services server) true 404 r r.path
    ]
