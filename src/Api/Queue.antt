-- ===== src/Api/Queue.antt =====
-- internal/api/api.go: the handlers of the queue.
pub mod Sound
use carteiro.Common.{
  Bytes, Option, [], codes, if◌then◌else◌, none, some, str_eq, ℕ, ◌==◌, ◌||◌, ◌∷◌,
}
use carteiro.Text.{to_lower, trim_space, parse_int}
use carteiro.Storage.Types.{Status, queued, dead, messages_requeued}
use carteiro.Storage.Queue
use carteiro.Storage.Counters.{add_counter}
use carteiro.Sends.Recorder.{mark_queued}
use carteiro.Api.Types.{
  Server, Request, Handler, write_json, write_error, write_failure, call, run, add_metric,
  queue_stats, messages, requeued_id,
}

unfoldable pub handle_queue_stats : Handler
unfolding call Queue.stats write_json write_failure
handle_queue_stats s =
    call (Queue.stats s.store.clock) (write_failure 500) (λ st. write_json 200 (queue_stats st)) s

unfoldable pub status_param : Bytes → Option Status
unfolding str_eq
status_param status =
    if str_eq status [] || str_eq status (codes "queued")
    then some queued
    else if str_eq status (codes "dead")
    then some dead
    else none

-- The limit of a query, or the default where it has none; `none` where it is not a positive number.
unfoldable pub limit_param : ℕ → Bytes → Option ℕ
unfolding parse_int
limit_param default [] = some default
limit_param default (c ∷ v) = elim (parse_int (c ∷ v)) [
  | none ↦ none
  | some n ↦ if n == 0 then none else some n
]

list_queue : Status → Option ℕ → Handler
unfolding call Queue.list_messages write_json write_error write_failure
list_queue status none = write_error 400 (codes "invalid limit")
list_queue status (some limit) =
    call (Queue.list_messages status limit) (write_failure 500)
      λ msgs. write_json 200 (messages msgs)

unfoldable pub handle_list_messages : Request → Handler
unfolding status_param limit_param list_queue write_error to_lower
handle_list_messages r = elim (status_param (to_lower (r.query (codes "status")))) [
  | none ↦ write_error 400 (codes "status must be queued or dead")
  | some status ↦ list_queue status (limit_param 100 (r.query (codes "limit")))
]

unfoldable pub handle_requeue : Server → Bytes → Handler
unfolding call Queue.requeue_dead add_counter mark_queued run add_metric write_json write_failure
    trim_space
handle_requeue server path_id =
    let id = trim_space path_id in
    call (Queue.requeue_dead id) (write_failure 404) λ _ s. write_json 200 (requeued_id id) (
      run (mark_queued server.rec_ id)
        (run (add_counter (codes "messages_requeued") 1) (add_metric messages_requeued s)))
