-- ===== src/Api/Routes/Sound.antt =====
-- internal/api/api.go: every request to the admin API keeps the store coherent.
use carteiro.Common.{
  All, Bool, Bytes, List, [], codes, drop, false, if_lem, not, option_lem, str_eq, true, ℕ, ◌&&◌,
  ◌∷◌,
}
use carteiro.Storage.Db.{after}
use carteiro.Storage.Queue
use carteiro.Storage.Counters.{get_counters}
use carteiro.Api.Types.{Server, Request, write_json, State, write_error, Handler}
use carteiro.Api.Sound.{
  Handles, Preserves, call-Handles, failure-Handles, same-Preserves, IsCoherent,
}
use carteiro.Api.System.{handle_metrics, handle_stats, handle_health, handle_openapi}
use carteiro.Api.Queue.{handle_queue_stats}
use carteiro.Api.Routes.{
  Route, dispatch, mounted, Services, serve, routes, require_auth, fit, method_fits, under_api,
  has_token, is_unclean,
}
use carteiro.Api.Routes.Auth.{stats-Keeps, get_counters-Keeps}
use carteiro.Api.Dkim.Sound.{
  handle_list_dkim-Handles, handle_create_dkim-Handles, handle_delete_dkim-Handles,
  handle_dns_check-Handles,
}
use carteiro.Api.Sends.Sound.{
  handle_list_sends-Handles, handle_get_send-Handles, handle_send-Handles,
}
use carteiro.Api.Accounts.Sound.{
  handle_list_accounts-Handles, handle_create_account-Handles, handle_update_account-Handles,
  handle_delete_account-Handles,
}
use carteiro.Api.Queue.Sound.{handle_list_messages-Handles, handle_requeue-Handles}

stats-Preserves : (now : ℕ) → Preserves (Queue.stats now)
stats-Preserves now =
    same-Preserves (Queue.stats now) (λ s. let k = stats-Keeps now s in (k.0, k.2))

get_counters-Preserves : Preserves get_counters
get_counters-Preserves =
    same-Preserves get_counters (λ s. let k = get_counters-Keeps s in (k.0, k.2))

handle_metrics-Handles : Handles handle_metrics
unfolding handle_metrics write_json
handle_metrics-Handles s c =
    get_counters-Preserves (after (Queue.stats s.store.clock s.store))
      (stats-Preserves s.store.clock s.store c)

handle_stats-Handles : (server : Server) → Handles (handle_stats server)
unfolding handle_stats write_json
handle_stats-Handles server s c =
    call-Handles (Queue.stats s.store.clock) _ _ (stats-Preserves s.store.clock)
      (failure-Handles 500)
      (λ st.
        call-Handles get_counters _ _ get_counters-Preserves (failure-Handles 500) (λ n t k. k))
      s c

handle_queue_stats-Handles : Handles handle_queue_stats
unfolding handle_queue_stats write_json
handle_queue_stats-Handles s c =
    call-Handles (Queue.stats s.store.clock) _ _ (stats-Preserves s.store.clock)
      (failure-Handles 500) (λ st t k. k) s c

abbrev IsCareful : Route → Type 0
IsCareful rt = (r : Request) (v : Bytes) → Handles (rt.h r v)

module _ (server : Server) (r : Request) where
  mounted-Handles : (rt : Route) (v : Bytes) → IsCareful rt → Handles (mounted server rt r v)
  unfolding mounted require_auth write_error write_json
  mounted-Handles rt v h =
      if_lem (λ (m : Request → Bytes → Handler). Handles (m r v)) rt.public _ _ (λ _. h r v)
        (λ _. if_lem Handles (not (has_token server r)) _ _ (λ _ s c. c) (λ _. h r v))

  dispatch-Handles :
      (rts : List Route) (legacy : Bool) (code : ℕ) (path : List Bytes)
      → All IsCareful rts
      → Handles (dispatch server rts legacy code r path)
  unfolding dispatch write_json
  dispatch-Handles [] legacy code path h s c = c
  dispatch-Handles (rt ∷ rts) legacy code path h s c =
      let rest = dispatch-Handles rts legacy code path h.1 in
      let other = dispatch-Handles rts legacy 405 path h.1 in
      option_lem Handles (fit rt.path path) _ _ (λ _. rest)
        (λ v _.
          if_lem Handles (legacy && not rt.legacy) _ _ (λ _. rest)
            λ _.
              if_lem Handles (method_fits rt.method r.method) _ _ (λ _. mounted-Handles rt v h.0)
                (λ _. other))
        s c

module _ (services : Services) (server : Server) where
  dashboard-IsCareful : All IsCareful (drop 13 (routes services server))
  unfolding routes
  dashboard-IsCareful = (
    λ r v. handle_stats-Handles server,
    (
      λ r v. handle_list_sends-Handles server r,
      (
        λ r v. handle_get_send-Handles server v,
        (
          λ r v. handle_send-Handles services server r.body,
          (λ r v. handle_dns_check-Handles services server r, tt),
        ),
      ),
    ),
  )

  keys-IsCareful : All IsCareful (drop 7 (routes services server))
  unfolding routes
  keys-IsCareful = (
    λ r v. handle_list_dkim-Handles,
    (
      λ r v. handle_create_dkim-Handles services r.body,
      (
        λ r v. handle_delete_dkim-Handles v,
        (
          λ r v. handle_queue_stats-Handles,
          (
            λ r v. handle_list_messages-Handles r,
            (λ r v. handle_requeue-Handles server v, dashboard-IsCareful),
          ),
        ),
      ),
    ),
  )

  routes-IsCareful : All IsCareful (routes services server)
  unfolding routes handle_health handle_openapi write_json
  routes-IsCareful = (
    λ r v s c. c,
    (
      λ r v. handle_metrics-Handles,
      (
        λ r v s c. c,
        (
          λ r v. handle_list_accounts-Handles,
          (
            λ r v. handle_create_account-Handles services r.body,
            (
              λ r v. handle_update_account-Handles services v r.body,
              (λ r v. handle_delete_account-Handles v, keys-IsCareful),
            ),
          ),
        ),
      ),
    ),
  )

-- Every request keeps the ids of the queue distinct and its rows sound, and the accounts under normal
-- addresses, one for each, and free to send from their own address, whatever statements fail.
pub serve-IsCoherent :
    (services : Services) (server : Server) (r : Request) (s : State)
    → IsCoherent s.store
    → IsCoherent (serve services server r s).1.store
unfolding serve write_json
serve-IsCoherent services server r =
    let all = routes-IsCareful services server in
    if_lem Handles (not (str_eq r.method (codes "CONNECT")) && is_unclean r.path) _ _ (λ _ s c. c)
      λ _.
        option_lem Handles (under_api r.path) _ _
          (λ _. dispatch-Handles server r (routes services server) true 404 r.path all)
          (λ path _. dispatch-Handles server r (routes services server) false 404 path all)
