-- ===== src/Api/Dkim/Sound.antt =====
-- internal/api/api.go: the handlers of the DKIM keys keep the store coherent.
use carteiro.Common.{Bytes, List, [], codes, if_lem, not, option_lem, refl, str_eq, ◌||◌, ◌∷◌, ◌≡◌}
use carteiro.Text.{normalize, trim_space}
use carteiro.Storage.Types.{DkimKey}
use carteiro.Storage.Db.{after, order_by, delete_where}
use carteiro.Storage.Db.Rules.{query-cases, exec_-cases}
use carteiro.Storage.Dkim.{list_dkim, get_dkim, upsert_dkim, delete_dkim, has_domain}
use carteiro.Storage.Dkim.Frame.{upsert_dkim-SameRows}
use carteiro.Storage.Accounts.{empty_summary, text_le}
use carteiro.Smtpd.Effects.{get_dkim-Kept}
use carteiro.Api.Types.{Services, Server, Request, CreateDkim, write_json, write_error}
use carteiro.Api.Sound.{
  Handles, Preserves, call-Handles, failure-Handles, error-Handles, same-Preserves,
}
use carteiro.Api.Dkim.{
  handle_list_dkim, create_dkim, handle_create_dkim, handle_delete_dkim, handle_dns_check,
}

list_dkim-Preserves : Preserves list_dkim
unfolding list_dkim
list_dkim-Preserves = same-Preserves list_dkim λ s.
    query-cases (λ o. ((after o).accounts ≡ s.accounts) × ((after o).queue ≡ s.queue)) s
      (λ t. order_by (λ a b. text_le a.domain b.domain) t.dkim_keys) (refl, refl) (refl, refl)

pub handle_list_dkim-Handles : Handles handle_list_dkim
unfolding handle_list_dkim write_json
handle_list_dkim-Handles =
    call-Handles list_dkim _ _ list_dkim-Preserves (failure-Handles 500) (λ keys t k. k)

create_dkim-Handles : (services : Services) (req : CreateDkim) → Handles (create_dkim services req)
unfolding create_dkim write_json write_error
create_dkim-Handles services req =
    let domain = normalize req.domain in
    let selector = trim_space req.selector in
    let keys : List DkimKey =
      record { domain = domain; selector = selector; key_data = req.key_data } ∷ [] in
    if_lem Handles (str_eq domain [] || str_eq selector []) _ _ (λ _ s c. c)
      λ _.
        if_lem Handles (not (services.is_signer req.key_data)) _ _ (λ _ s c. c)
          λ _.
            call-Handles (upsert_dkim keys empty_summary) _ _
              (same-Preserves (upsert_dkim keys empty_summary)
                (upsert_dkim-SameRows keys empty_summary))
              (failure-Handles 500) (λ sum t k. k)

pub handle_create_dkim-Handles :
    (services : Services) (body : Bytes) → Handles (handle_create_dkim services body)
unfolding handle_create_dkim
handle_create_dkim-Handles services body =
    option_lem Handles (services.decode_create_dkim body) _ _
      (λ _. error-Handles 400 (codes "invalid JSON body"))
      (λ req _. create_dkim-Handles services req)

delete_dkim-Preserves : (domain : Bytes) → Preserves (delete_dkim domain)
unfolding delete_dkim
delete_dkim-Preserves domain = same-Preserves (delete_dkim domain) λ s.
    exec_-cases (λ o. ((after o).accounts ≡ s.accounts) × ((after o).queue ≡ s.queue)) s
      (λ t. record t { dkim_keys = delete_where (has_domain (normalize domain)) t.dkim_keys })
      (refl, refl) (refl, refl)

pub handle_delete_dkim-Handles : (domain : Bytes) → Handles (handle_delete_dkim domain)
unfolding handle_delete_dkim write_json
handle_delete_dkim-Handles domain =
    call-Handles (delete_dkim (normalize domain)) _ _ (delete_dkim-Preserves (normalize domain))
      (failure-Handles 500) (λ _ t k. k)

pub handle_dns_check-Handles :
    (services : Services) (server : Server) (r : Request)
    → Handles (handle_dns_check services server r)
unfolding handle_dns_check write_json write_error
handle_dns_check-Handles services server r =
    let domain = normalize (r.query (codes "domain")) in
    if_lem Handles (str_eq domain []) _ _ (λ _ s c. c)
      λ _.
        call-Handles (get_dkim domain) _ _ (same-Preserves (get_dkim domain) (get_dkim-Kept domain))
          (failure-Handles 500) (λ found t k. k)
