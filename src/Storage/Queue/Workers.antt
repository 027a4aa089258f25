-- ===== src/Storage/Queue/Workers.antt =====
-- Several workers on one queue: a run is a sequence of turns, in which the workers call the operations
-- of internal/storage/queue.go one after another, each in its own process and at its own time.
use carteiro.Common.{
  Bool, Bytes, In, In-All, List, [], arith, false, str_eq, subst, true, ℕ, ◌&&◌, ◌+◌, ◌<◌, ◌≡◌, ◌≢◌,
}
use carteiro.Storage.Types.{Row, Store, Message}
use carteiro.Storage.Db.{Outcome, done, failed, after}
use carteiro.Storage.Queue.{
  has_id, next_due, succeed, release, lease_timeout, finish, is_queued, give_up, released,
}
use carteiro.Storage.Queue.Claim.{held, next_due-Exclusive, Exclusive}
use carteiro.Storage.Queue.Soundness.{IsQueue, next_due-IsQueue}
use carteiro.Storage.Queue.Invariant.{
  Call, call, enqueues, takes_due, persists, succeeds, releases, requeues, buries, call-IsQueue,
}
use carteiro.Storage.Db.Rules.{exec_-cases}
use carteiro.Storage.Queue.Held.{
  and-Apart, dead_letter-held, enqueue-held, held-delete, held-update, next_due-held, other-Apart,
  persist-held, requeue_dead-held,
}

-- The calls after which the message `id` need not be under a lease any more: those that a worker makes
-- when it is done with it, or has got on with it.
abbrev pub gives_up : Bytes → Call → Bool
gives_up id (enqueues j sender to content) = false
gives_up id (takes_due now limit) = false
gives_up id (persists m) = str_eq m.id id
gives_up id (succeeds j) = str_eq j id
gives_up id (releases j) = str_eq j id
gives_up id (requeues j) = false
gives_up id (buries j reason) = str_eq j id

-- The store as the next worker finds it: the tables are shared; the name of the process, the time and
-- the statements that will fail are its own.
abbrev pub turn : Bytes → ℕ → List Bool → Store → Store
turn worker now faults s = record s { instance_id = worker; clock = now; faults = faults }

-- `Run id s t`: turns of any workers lead from `s` to `t`, and none of them gives up the message.
pub data Run (id : Bytes) : Store → Store → Type 0 where
  stay : {s : Store} → Run id s s
  calls :
      (worker : Bytes) (now : ℕ) (faults : List Bool) (c : Call) {s t : Store}
      → gives_up id c ≡ false
      → Run id (call c (turn worker now faults s)) t
      → Run id s t

-- What a call hands out.
abbrev pub handed : Outcome (List Message) → List Message
handed (done ms s) = ms
handed (failed e s) = []

-- A call that does not give up the message leaves its lease alone, whatever statements fail.
call-held :
    (t : ℕ) (id : Bytes) (c : Call) (s : Store)
    → IsQueue s.queue
    → gives_up id c ≡ false
    → held t id s.queue ≡ true
    → held t id (call c s).queue ≡ true
unfolding call succeed release
call-held t id (enqueues j sender to content) s v g h = enqueue-held t id j sender to content s h
call-held t id (takes_due now limit) s v g h = next_due-held t id now limit s h
call-held t id (persists m) s v g h = persist-held t id m s g v.sound h
call-held t id (succeeds j) s v g h =
    exec_-cases (λ o. held t id (after o).queue ≡ true) s (finish j) h
      (held-delete t id (λ r. has_id j r && is_queued r) s.queue
        (and-Apart t id (has_id j) is_queued (other-Apart t id j g)) v.sound h)
call-held t id (releases j) s v g h =
    exec_-cases (λ o. held t id (after o).queue ≡ true) s (give_up j) h
      (held-update t id (has_id j) released s.queue (other-Apart t id j g) v.sound h)
call-held t id (requeues j) s v g h = requeue_dead-held t id j s v.sound h
call-held t id (buries j reason) s v g h = dead_letter-held t id j reason s g v h

run-held :
    (t : ℕ) (id : Bytes) (s u : Store)
    → IsQueue s.queue
    → held t id s.queue ≡ true
    → Run id s u
    → (held t id u.queue ≡ true) × IsQueue u.queue
run-held t id s u v h stay = (h, v)
run-held t id s u v h (calls worker now faults c g rest) =
    let s' = turn worker now faults s in
    run-held t id (call c s') u (call-IsQueue c s' v) (call-held t id c s' v g h) rest

handed-Exclusive :
    (now t : ℕ) (before : List Row) (o : Outcome (List Message)) (m : Message)
    → Exclusive now t before o
    → In m (handed o)
    → (held t m.id (after o).queue ≡ true) × (held now m.id before ≡ false)
handed-Exclusive now t before (failed e s) m h i = absurd i.1
handed-Exclusive now t before (done ms s) m h i =
    In-All (λ (m : Message). (held t m.id s.queue ≡ true) × (held now m.id before ≡ false)) m ms h i

-- Where the queue is sound at first: between the moment at which `NextDue` hands out a message and the end of its lease, no worker's
-- `NextDue` hands it out again, whatever calls the workers make in between and whatever statements
-- fail, as long as no call in between persists, finishes, releases or buries that message.
pub next_due-once :
    (now limit : ℕ) (s : Store) (m : Message) (u : Store) (now' limit' : ℕ) (m' : Message)
    → IsQueue s.queue
    → In m (handed (next_due now limit s))
    → Run m.id (after (next_due now limit s)) u
    → now' < now + lease_timeout
    → In m' (handed (next_due now' limit' u))
    → m'.id ≢ m.id
next_due-once now limit s m u now' limit' m' v i run lt i' same =
    let first =
      handed-Exclusive now now' s.queue (next_due now limit s) m
        (next_due-Exclusive now limit now' s lt v.unique) i in
    let kept =
      run-held now' m.id (after (next_due now limit s)) u (next_due-IsQueue now limit s v) first.0
        run in
    let again =
      handed-Exclusive now' now' u.queue (next_due now' limit' u) m'
        (next_due-Exclusive now' limit' now' u (omega arith) kept.1.unique) i' in
    cc (kept.0, subst (λ j. held now' j u.queue ≡ false) same again.1)
