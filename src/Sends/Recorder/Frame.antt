-- ===== src/Sends/Recorder/Frame.antt =====
-- The reads of the send history, and its note of a message that is queued again, leave the accounts
-- and the queue alone.
use carteiro.Common.{Bytes, List, Option, [], if_lem, map, none, refl, some, take, ℕ, ◌==◌, ◌≡◌}
use carteiro.Storage.Types.{Store, SendLog, SendStatus}
use carteiro.Storage.Db.{order_by, M, Outcome, after, bind, done, failed, ignore, spend}
use carteiro.Storage.Db.Rules.{query-cases, exec-cases}
use carteiro.Storage.Sends.{
  list_limit, without_bodies, newer, list_send_logs, get_send_log, update_send_log_status,
  known_send, log_count, change_log, with_state, find_log,
}
use carteiro.Sends.Recorder.{Recorder, list, get, mark_queued, or_empty, or_missing}

abbrev SameRows {ℓ} : {A : Type ℓ} → Store → Outcome A → Type 0
SameRows s o = ((after o).accounts ≡ s.accounts) × ((after o).queue ≡ s.queue)

or_empty-SameRows :
    (m : M (List SendLog)) (s : Store) → SameRows s (m s) → SameRows s (or_empty m s)
unfolding or_empty
or_empty-SameRows m s h = go (m s) h
  where
    go : (o : Outcome (List SendLog)) → SameRows s o → SameRows s (or_empty (λ _. o) s)
    go (done logs t) k = k
    go (failed e t) k = k

or_missing-SameRows :
    (m : M (Option SendLog)) (s : Store) → SameRows s (m s) → SameRows s (or_missing m s)
unfolding or_missing
or_missing-SameRows m s h = go (m s) h
  where
    go : (o : Outcome (Option SendLog)) → SameRows s o → SameRows s (or_missing (λ _. o) s)
    go (done found t) k = k
    go (failed e t) k = k

ignore-SameRows : {A : Type 0} (m : M A) (s : Store) → SameRows s (m s) → SameRows s (ignore m s)
ignore-SameRows {A = A} m s h = go (m s) h
  where
    go : (o : Outcome A) → SameRows s o → SameRows s (ignore (λ _. o) s)
    go (done a t) k = k
    go (failed e t) k = k

pub list-SameRows :
    (r : Option Recorder) (limit : ℕ) (s : Store)
    → ((after (list r limit s)).accounts ≡ s.accounts) × ((after (list r limit s)).queue ≡ s.queue)
unfolding list list_send_logs
list-SameRows none limit s = (refl, refl)
list-SameRows (some r) limit s = or_empty-SameRows (list_send_logs limit) s (
    query-cases (SameRows s) s
      (λ t. map without_bodies (take (list_limit limit) (order_by newer t.sends_log))) (refl, refl)
      (refl, refl))

pub get-SameRows :
    (r : Option Recorder) (id : Bytes) (s : Store)
    → ((after (get r id s)).accounts ≡ s.accounts) × ((after (get r id s)).queue ≡ s.queue)
unfolding get get_send_log
get-SameRows none id s = (refl, refl)
get-SameRows (some r) id s =
    or_missing-SameRows (get_send_log id) s
      (query-cases (SameRows s) s (λ t. find_log id t.sends_log) (refl, refl) (refl, refl))

known-SameRows : (n : ℕ) (s : Store) → SameRows s (known_send n s)
unfolding known_send
known-SameRows n s =
    if_lem (λ (m : M (Unit {0})). SameRows s (m s)) (n == 0) _ _ (λ _. (refl, refl))
      (λ _. (refl, refl))

pub mark_queued-SameRows :
    (r : Option Recorder) (id : Bytes) (s : Store)
    → ((after (mark_queued r id s)).accounts ≡ s.accounts)
      × ((after (mark_queued r id s)).queue ≡ s.queue)
unfolding mark_queued update_send_log_status
mark_queued-SameRows none id s = (refl, refl)
mark_queued-SameRows (some r) id s =
    let change = change_log id (with_state SendStatus.queued 0 []) in
    ignore-SameRows (update_send_log_status id SendStatus.queued 0 []) s (
      exec-cases (λ o. SameRows s (bind o known_send)) s (log_count id) change (refl, refl)
        (known-SameRows (log_count id s) (change (spend s))))
