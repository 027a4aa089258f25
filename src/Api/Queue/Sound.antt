-- ===== src/Api/Queue/Sound.antt =====
-- internal/api/api.go: the handlers of the queue keep the store coherent.
use carteiro.Common.{
  Bytes, Option, codes, filter, map, none, option_lem, refl, some, subst, sym, take, ℕ, ◌≡◌,
}
use carteiro.Text.{trim_space, to_lower}
use carteiro.Storage.Types.{Status}
use carteiro.Storage.Db.{after, order_by}
use carteiro.Storage.Db.Rules.{query-cases}
use carteiro.Storage.Counters.{add_counter}
use carteiro.Storage.Queue.{list_messages, requeue_dead, lite, list_limit, older, with_status}
use carteiro.Storage.Queue.Frame.{requeue_dead-accounts}
use carteiro.Storage.Queue.Invariant.{requeue_dead-IsQueue}
use carteiro.Storage.Accounts.Table.{IsAccounts}
use carteiro.Smtpd.Effects.{add_counter-Kept}
use carteiro.Sends.Recorder.{mark_queued}
use carteiro.Sends.Recorder.Frame.{mark_queued-SameRows}
use carteiro.Api.Types.{Server, Request, write_json, run, add_metric}
use carteiro.Api.Sound.{
  Handles, Preserves, call-Handles, failure-Handles, error-Handles, same-Preserves, same-IsCoherent,
}
use carteiro.Api.Queue.{handle_list_messages, list_queue, handle_requeue, status_param, limit_param}

list_messages-Preserves : (status : Status) (limit : ℕ) → Preserves (list_messages status limit)
unfolding list_messages
list_messages-Preserves status limit = same-Preserves (list_messages status limit) λ s.
    query-cases (λ o. ((after o).accounts ≡ s.accounts) × ((after o).queue ≡ s.queue)) s
      (λ t. map lite (
        take (list_limit limit)
          (order_by (λ r q. older q r) (filter (with_status status) t.queue))))
      (refl, refl) (refl, refl)

list_queue-Handles : (status : Status) (limit : Option ℕ) → Handles (list_queue status limit)
unfolding list_queue write_json
list_queue-Handles status none = error-Handles 400 (codes "invalid limit")
list_queue-Handles status (some limit) =
    call-Handles (list_messages status limit) _ _ (list_messages-Preserves status limit)
      (failure-Handles 500) (λ msgs t k. k)

pub handle_list_messages-Handles : (r : Request) → Handles (handle_list_messages r)
unfolding handle_list_messages
handle_list_messages-Handles r =
    option_lem Handles (status_param (to_lower (r.query (codes "status")))) _ _
      (λ _. error-Handles 400 (codes "status must be queued or dead"))
      (λ status _. list_queue-Handles status (limit_param 100 (r.query (codes "limit"))))

requeue_dead-Preserves : (id : Bytes) → Preserves (requeue_dead id)
requeue_dead-Preserves id s c =
    (requeue_dead-IsQueue id s c.0, subst IsAccounts (sym (requeue_dead-accounts id s)) c.1)

pub handle_requeue-Handles : (server : Server) (id : Bytes) → Handles (handle_requeue server id)
unfolding handle_requeue write_json run add_metric
handle_requeue-Handles server path_id =
    let id = trim_space path_id in
    call-Handles (requeue_dead id) _ _ (requeue_dead-Preserves id) (failure-Handles 404) λ _ t k.
      let counted = add_counter-Kept (codes "messages_requeued") 1 t.store in
      let t' = after (add_counter (codes "messages_requeued") 1 t.store) in
      same-IsCoherent t' (after (mark_queued server.rec_ id t'))
        (mark_queued-SameRows server.rec_ id t') (same-IsCoherent t.store t' counted k)
