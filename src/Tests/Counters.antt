-- ===== src/Tests/Counters.antt =====
-- The theorems on internal/storage/counters.go.
use carteiro.Common.{[], codes, false, none, refl, str_eq}
use carteiro.Storage.Types.{messages_dead, Store, Dialect, sqlite, messages_queued}
use carteiro.Storage.Db.{after}
use carteiro.Storage.Counters.{counter_column, row_or_zeros, add_counter}
use carteiro.Storage.Counters.Effect.{add_counter-counts, Added}

abbrev in_dialect : Dialect → Store
in_dialect dialect = record {
  accounts = [];
  dkim_keys = [];
  queue = [];
  sends_log = [];
  counters = none;
  dialect = dialect;
  instance_id = codes "w";
  dead_max = 0;
  notify = false;
  clock = 0;
  faults = [];
}

add_counter-counts_example :
    Added messages_dead 2 messages_queued
      (row_or_zeros (in_dialect sqlite).counters messages_queued)
      (row_or_zeros
        (after (add_counter (codes "messages_dead") 2 (in_dialect sqlite))).counters
        messages_queued)
unfolding counter_column str_eq
add_counter-counts_example =
    add_counter-counts (codes "messages_dead") messages_dead 2 (in_dialect sqlite) refl refl refl
      messages_queued
