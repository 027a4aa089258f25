-- ===== src/Storage/Queue/Invariant.antt =====
-- What holds of the queue after any operations, whatever statements fail.
use carteiro.Common.{
  Bool-cases, Bytes, List, [], count, inl, inr, refl, suc, zero, ℕ, ◌&&◌, ◌-◌, ◌==◌, ◌∷◌,
}
use carteiro.Storage.Types.{Row, Message, Store}
use carteiro.Storage.Db.{after, bind, spend}
use carteiro.Storage.Queue.{
  is_dead, has_id, delete_dead, enqueue_with_id, next_due, persist, succeed, release, requeue_dead,
  buried, prune_over, prune_dead, dead_letter, released, woken_or_refused, bury, finish, requeued,
  drop_dead, revives, give_up, is_queued, revive, dead_with_id, oldest_dead,
}
use carteiro.Storage.Db.Rules.{query-cases, exec-cases, exec_-cases}
use carteiro.Storage.Queue.Soundness.{
  IsQueue, IsSound, Keeps, delete-IsQueue, enqueue-IsQueue, next_due-IsQueue, persist-IsQueue,
  update-IsQueue,
}

delete_dead-IsQueue : (ids : List Bytes) (s : Store) → IsQueue s.queue → Keeps (delete_dead ids s)
unfolding delete_dead
delete_dead-IsQueue [] s q = q
delete_dead-IsQueue (id ∷ ids) s q =
    exec_-cases (λ o. Keeps (bind o (λ _. delete_dead ids))) s (drop_dead id) q
      (delete_dead-IsQueue ids (drop_dead id (spend s))
        (delete-IsQueue (dead_with_id id) s.queue q))

prune_over-IsQueue : (over : ℕ) (s : Store) → IsQueue s.queue → Keeps (prune_over over s)
unfolding prune_over
prune_over-IsQueue zero s q = q
prune_over-IsQueue (suc over) s q =
    query-cases (λ o. Keeps (bind o delete_dead)) s (λ t. oldest_dead (suc over) t.queue) q
      (delete_dead-IsQueue (oldest_dead (suc over) s.queue) (spend s) q)

prune_dead-IsQueue : (s : Store) → IsQueue s.queue → Keeps (prune_dead s)
unfolding prune_dead
prune_dead-IsQueue s q = elim (Bool-cases (s.dead_max == 0)) [
  | inl e ↦ rw e q
  | inr e ↦ rw e (
      query-cases (λ o. Keeps (bind o (λ total. prune_over (total - s.dead_max)))) s
        (λ t. count is_dead t.queue) q
        (prune_over-IsQueue (count is_dead s.queue - s.dead_max) (spend s) q))
]

pub buried-IsSound : (reason : Bytes) (r : Row) → IsSound r → IsSound (buried reason r)
buried-IsSound reason r v = record {
  addressed = v.addressed;
  unowned = λ _. refl;
  dead_free = λ _. refl;
}

dead_letter-IsQueue :
    (id reason : Bytes) (s : Store) → IsQueue s.queue → Keeps (dead_letter id reason s)
unfolding dead_letter
dead_letter-IsQueue id reason s q =
    exec_-cases (λ o. Keeps (bind o (λ _. prune_dead))) s (bury id reason) q
      (prune_dead-IsQueue (bury id reason (spend s))
        (update-IsQueue (has_id id) _ (λ r. refl) (λ r _. buried-IsSound reason r) s.queue q))

requeued-IsSound : (r : Row) → IsSound r → IsSound (requeued r)
requeued-IsSound r v = record {
  addressed = v.addressed;
  unowned = λ _. refl;
  dead_free = λ _. refl;
}

released-IsSound : (r : Row) → IsSound r → IsSound (released r)
released-IsSound r v = record {
  addressed = v.addressed;
  unowned = λ _. refl;
  dead_free = λ _. refl;
}

woken_or_refused-IsQueue : (n : ℕ) (s : Store) → IsQueue s.queue → Keeps (woken_or_refused n s)
unfolding woken_or_refused
woken_or_refused-IsQueue n s q = elim (Bool-cases (n == 0)) [ inl e ↦ rw e q | inr e ↦ rw e q ]

pub requeue_dead-IsQueue : (id : Bytes) (s : Store) → IsQueue s.queue → Keeps (requeue_dead id s)
unfolding requeue_dead
requeue_dead-IsQueue id s q =
    exec-cases (λ o. Keeps (bind o woken_or_refused)) s (revives id) (revive id) q
      (woken_or_refused-IsQueue _ (revive id (spend s)) (
        update-IsQueue (dead_with_id id) requeued (λ r. refl) (λ r _. requeued-IsSound r) s.queue
          q))

succeed-IsQueue : (id : Bytes) (s : Store) → IsQueue s.queue → Keeps (succeed id s)
unfolding succeed
succeed-IsQueue id s q =
    exec_-cases Keeps s (finish id) q (delete-IsQueue (λ r. has_id id r && is_queued r) s.queue q)

release-IsQueue : (id : Bytes) (s : Store) → IsQueue s.queue → Keeps (release id s)
unfolding release
release-IsQueue id s q =
    exec_-cases Keeps s (give_up id) q
      (update-IsQueue (has_id id) released (λ r. refl) (λ r _. released-IsSound r) s.queue q)

-- The calls that change the queue.
pub data Call : Type 0 where
  enqueues : Bytes → Bytes → List Bytes → Bytes → Call
  takes_due : ℕ → ℕ → Call
  persists : Message → Call
  succeeds releases requeues : Bytes → Call
  buries : Bytes → Bytes → Call

unfoldable pub call : Call → Store → Store
call (enqueues id sender to content) s = after (enqueue_with_id id sender to content s)
call (takes_due now limit) s = after (next_due now limit s)
call (persists m) s = after (persist m s)
call (succeeds id) s = after (succeed id s)
call (releases id) s = after (release id s)
call (requeues id) s = after (requeue_dead id s)
call (buries id reason) s = after (dead_letter id reason s)

-- Every call keeps the ids distinct and every row sound, whatever statements fail on the way.
pub call-IsQueue : (c : Call) (s : Store) → IsQueue s.queue → IsQueue (call c s).queue
unfolding call
call-IsQueue (enqueues id sender to content) s q = enqueue-IsQueue id sender to content s q
call-IsQueue (takes_due now limit) s q = next_due-IsQueue now limit s q
call-IsQueue (persists m) s q = persist-IsQueue m s q
call-IsQueue (succeeds id) s q = succeed-IsQueue id s q
call-IsQueue (releases id) s q = release-IsQueue id s q
call-IsQueue (requeues id) s q = requeue_dead-IsQueue id s q
call-IsQueue (buries id reason) s q = dead_letter-IsQueue id reason s q
