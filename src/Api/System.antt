-- ===== src/Api/System.antt =====
-- internal/api/api.go: the system handlers: health, the metrics text and the statistics.
use carteiro.Common.{Bytes, [], codes, ℕ, ◌++◌, ◌-◌, ◌/◌}
use carteiro.Text.{itoa}
use carteiro.Api.Types.{
  Server, Handler, write_json, write_failure, call, status_ok, openapi, metrics_text, summary,
}
use carteiro.Storage.Types.{
  Counter, Stats, auth_success, auth_failure, messages_queued, delivery_attempts,
  messages_delivered, messages_dead, messages_requeued,
}
use carteiro.Storage.Db.{done, failed, after, Outcome}
use carteiro.Storage.Queue
use carteiro.Storage.Counters.{get_counters}
use Prim.Native.String.{String}

unfoldable pub handle_health : Handler
unfolding write_json
handle_health = write_json 200 status_ok

-- The document of openapi.json is a constant.
unfoldable pub handle_openapi : Handler
unfolding write_json
handle_openapi = write_json 200 openapi

abbrev gauge : String → String → ℕ → Bytes
gauge name help value =
    codes "# HELP "
    ++ (codes name
        ++ (codes " "
            ++ (codes help
                ++ (codes "\n# TYPE "
                    ++ (codes name
                        ++ (codes " gauge\n"
                            ++ (codes name ++ (codes " " ++ (itoa value ++ codes "\n")))))))))

queue_gauges : Outcome Stats → Bytes
unfolding itoa
queue_gauges (failed e s) = []
queue_gauges (done st s) =
    gauge "carteiro_queue_queued" "Messages currently queued." st.queued_count
    ++ (gauge "carteiro_queue_due" "Messages currently due for delivery." st.due_count
        ++ gauge "carteiro_queue_dead" "Messages in dead-letter." st.dead_count)

abbrev lifetime : String → ℕ → Bytes
lifetime name value =
    codes "# HELP carteiro_"
    ++ (codes name
        ++ (codes "_total Lifetime "
            ++ (codes name
                ++ (codes " events.\n# TYPE carteiro_"
                    ++ (codes name
                        ++ (codes "_total counter\ncarteiro_"
                            ++ (codes name ++ (codes "_total " ++ (itoa value ++ codes "\n")))))))))

lifetime_counters : Outcome (Counter → ℕ) → Bytes
unfolding itoa
lifetime_counters (failed e s) = []
lifetime_counters (done c s) =
    lifetime "auth_success" (c auth_success)
    ++ (lifetime "auth_failure" (c auth_failure)
        ++ (lifetime "messages_queued" (c messages_queued)
            ++ (lifetime "delivery_attempts" (c delivery_attempts)
                ++ (lifetime "messages_delivered" (c messages_delivered)
                    ++ (lifetime "messages_dead" (c messages_dead)
                        ++ lifetime "messages_requeued" (c messages_requeued))))))

-- What cannot be read is left out of the text.
unfoldable pub handle_metrics : Handler
unfolding queue_gauges lifetime_counters Queue.stats get_counters write_json
handle_metrics s =
    let st = Queue.stats s.store.clock s.store in
    let counters = get_counters (after st) in
    write_json 200 (metrics_text (queue_gauges st ++ lifetime_counters counters))
      (record s { store = after counters })

unfoldable pub handle_stats : Server → Handler
unfolding call Queue.stats get_counters write_json write_failure
handle_stats server s =
    call (Queue.stats s.store.clock) (write_failure 500)
      (λ st. call get_counters (write_failure 500) λ counters t.
        write_json 200
          (summary server.version ((t.store.clock - server.started) / 1000) counters st) t)
      s
