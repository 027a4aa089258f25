-- ===== src/Api/Dkim.antt =====
-- internal/api/api.go: the handlers of DKIM keys and of the DNS diagnostics.
pub mod Sound
use carteiro.Common.{
  Bytes, Option, [], codes, if◌then◌else◌, map, none, not, some, str_eq, ◌||◌, ◌∷◌,
}
use carteiro.Text.{normalize, trim_space}
use carteiro.Storage.Types.{DkimKey}
use carteiro.Storage.Dkim.{list_dkim, upsert_dkim, delete_dkim, get_dkim}
use carteiro.Storage.Accounts.{empty_summary}
use carteiro.Dnscheck.{check}
use carteiro.Api.Accounts.{was_created, created_code}
use carteiro.Api.Types.{
  Services, Server, CreateDkim, Request, Handler, write_json, write_error, write_failure, call,
  dkim_views, dkim_upserted, deleted, dns_report,
}

unfoldable pub handle_list_dkim : Handler
unfolding call list_dkim write_json write_failure
handle_list_dkim =
    call list_dkim (write_failure 500)
      λ keys. write_json 200 (dkim_views (map (λ (k : DkimKey). (k.domain, k.selector)) keys))

create_dkim : Services → CreateDkim → Handler
unfolding call upsert_dkim write_json write_error write_failure normalize trim_space str_eq
create_dkim services req =
    let domain = normalize req.domain in
    let selector = trim_space req.selector in
    if str_eq domain [] || str_eq selector []
    then write_error 400 (codes "domain and selector are required")
    else if not (services.is_signer req.key_data)
    then write_error 400 (codes "key_data is not a valid PEM private key")
    else call
        (upsert_dkim (record { domain = domain; selector = selector; key_data = req.key_data } ∷ [])
          empty_summary)
        (write_failure 500)
        (λ sum.
          write_json (created_code (was_created sum))
            (dkim_upserted domain selector (was_created sum)))

unfoldable pub handle_create_dkim : Services → Bytes → Handler
unfolding create_dkim write_error
handle_create_dkim services body = elim (services.decode_create_dkim body) [
  | none ↦ write_error 400 (codes "invalid JSON body")
  | some req ↦ create_dkim services req
]

unfoldable pub handle_delete_dkim : Bytes → Handler
unfolding call delete_dkim write_json write_failure normalize
handle_delete_dkim path_domain =
    call (delete_dkim (normalize path_domain)) (write_failure 500)
      λ _. write_json 200 (deleted (normalize path_domain))

-- The key and the selector that a stored key gives to the check.
abbrev stored_pem : Option DkimKey → Bytes
stored_pem none = []
stored_pem (some k) = k.key_data

abbrev stored_selector : Bytes → Option DkimKey → Bytes
stored_selector (c ∷ s) found = c ∷ s
stored_selector [] none = []
stored_selector [] (some k) = k.selector

unfoldable pub handle_dns_check : Services → Server → Request → Handler
unfolding call get_dkim write_json write_error write_failure normalize trim_space check str_eq
handle_dns_check services server r =
    let domain = normalize (r.query (codes "domain")) in
    if str_eq domain []
    then write_error 400 (codes "domain query parameter is required")
    else call (get_dkim domain) (write_failure 500) λ found. write_json 200 (
        dns_report (
          check services.derive server.dns (record {
            domain = domain;
            selector = stored_selector (trim_space (r.query (codes "selector"))) found;
            private_key_pem = stored_pem found;
            hostname = server.hostname;
          })))
