-- ===== src/Storage/Counters.antt =====
-- internal/storage/counters.go: the lifetime counters, and the pruning of the send history.
pub mod Effect
use mathlib.Core.Logic.{ite}
use mathlib.Core.Option
use carteiro.Common.{
  Bool, Bytes, Option, codes, count, if◌then◌else◌, ltb, none, some, str_eq, ℕ, ◌*◌, ◌+◌, ◌==◌,
}
use carteiro.Storage.Types.{
  Counter, Counter-discrete, SendLog, Store, auth_success, auth_failure, messages_queued,
  delivery_attempts, messages_delivered, messages_dead, messages_requeued,
}
use carteiro.Storage.Db.{
  M, ◌>>◌, return, fail, query, exec, exec_, exec_on_conflict, unknown_counter, delete_where,
}

-- The map `counterColumns`.
unfoldable pub counter_column : Bytes → Option Counter
counter_column name =
    if str_eq name (codes "auth_success")
    then some auth_success
    else if str_eq name (codes "auth_failure")
    then some auth_failure
    else if str_eq name (codes "messages_queued")
    then some messages_queued
    else if str_eq name (codes "delivery_attempts")
    then some delivery_attempts
    else if str_eq name (codes "messages_delivered")
    then some messages_delivered
    else if str_eq name (codes "messages_dead")
    then some messages_dead
    else if str_eq name (codes "messages_requeued")
    then some messages_requeued
    else none

abbrev pub row_or_zeros : Option (Counter → ℕ) → Counter → ℕ
row_or_zeros none c = 0
row_or_zeros (some row) c = row c

abbrev pub make_counters : Store → Store
make_counters s = record s { counters = some (row_or_zeros s.counters) }

unfoldable pub ensure_counters_row : M (Unit {0})
unfolding exec_on_conflict
ensure_counters_row = exec_on_conflict make_counters

abbrev pub add_to : Counter → ℕ → (Counter → ℕ) → Counter → ℕ
add_to c delta row d = ite (Counter-discrete d c) (row d + delta) (row d)

abbrev pub bump_counter : Counter → ℕ → Store → Store
bump_counter c delta s = record s { counters = Option.map (add_to c delta) s.counters }

unfoldable pub add_column : Counter → ℕ → M (Unit {0})
unfolding ensure_counters_row exec_
add_column c delta = do ensure_counters_row; exec_ (bump_counter c delta)

-- The callers add one at a time; `delta` is not negative.
unfoldable pub add_counter : Bytes → ℕ → M (Unit {0})
unfolding counter_column add_column
add_counter name delta = elim (counter_column name) [
  | none ↦ fail unknown_counter
  | some c ↦ if delta == 0 then return tt else add_column c delta
]

unfoldable pub get_counters : M (Counter → ℕ)
unfolding ensure_counters_row query
get_counters = do ensure_counters_row; query (λ s. row_or_zeros s.counters)

-- `retentionDays` times 24 hours before the clock's time; a log from before that is old.
abbrev pub is_old : ℕ → ℕ → SendLog → Bool
is_old days now l = ltb (l.queued_at + days * (24 * 60 * 60 * 1000)) now

unfoldable pub prune_send_logs : ℕ → M ℕ
unfolding exec
prune_send_logs days s =
    if days == 0
    then return 0 s
    else exec (λ t. count (is_old days t.clock) t.sends_log)
        (λ t. record t { sends_log = delete_where (is_old days t.clock) t.sends_log }) s
