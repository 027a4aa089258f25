-- ===== src/Tests/Queue.antt =====
-- The theorems on internal/storage/queue.go at a queue with a dead, a queued and a leased row.
use carteiro.Common.{
  Bytes, In, List, [], ap, arith, codes, count, false, inl, inr, none, refl, str_eq, true, ℕ, ◌∷◌,
  ◌≡◌, ◌≢◌, ◌≤◌,
}
use carteiro.Storage.Types.{Row, Store, dead, sqlite}
use carteiro.Storage.Db.{after, done, failed, not_dead}
use carteiro.Storage.Queue.{
  new_row, next_due, dead_letter, persist, requeue_dead, revive, requeued, scan_message, is_due,
  is_dead, candidates, enqueue_with_id,
}
use carteiro.Storage.Queue.Rows.{Unique}
use carteiro.Storage.Queue.Claim.{Exclusive, next_due-Exclusive}
use carteiro.Storage.Queue.Invariant.{call, call-IsQueue, buries, Call, enqueues}
use carteiro.Storage.Queue.Prune.{dead_letter-capped, dead_letter-drops_oldest}
use carteiro.Storage.Queue.Lease.{
  IsFree, next_due-starved, persist-IsFree, requeue_dead-IsFree, requeue_dead-refuses,
}
use carteiro.Storage.Queue.Soundness.{IsQueue}
use carteiro.Storage.Queue.Workers.{turn, handed, next_due-once, Run, calls, stay}

abbrev rcpts : List Bytes
rcpts = codes "b@y" ∷ []

abbrev fresh : Bytes → ℕ → Row
fresh id now = new_row id (codes "a@x") rcpts (codes "Hi\n") now

abbrev old_dead : Row
old_dead = record (fresh (codes "0") 1) { status = dead }

abbrev waiting : Row
waiting = fresh (codes "1") 2

abbrev leased_row : Row
leased_row = record (fresh (codes "2") 0) { lease_until = 9999; worker_id = codes "v" }

abbrev with_queue : List Row → Store
with_queue rows = record {
  accounts = [];
  dkim_keys = [];
  queue = rows;
  sends_log = [];
  counters = none;
  dialect = sqlite;
  instance_id = codes "w";
  dead_max = 1;
  notify = false;
  clock = 1000;
  faults = [];
}

abbrev shop : Store
shop = with_queue (old_dead ∷ waiting ∷ leased_row ∷ [])

shop-Unique : Unique shop.queue
unfolding str_eq
shop-Unique = (refl, (refl, (refl, tt)))

shop-IsQueue : IsQueue shop.queue
shop-IsQueue = record {
  unique = shop-Unique;
  sound = (
    record { addressed = λ e. cc e; unowned = λ _. refl; dead_free = λ _. refl },
    (
      record { addressed = λ e. cc e; unowned = λ _. refl; dead_free = λ _. refl },
      (
        record {
          addressed = λ e. cc e;
          unowned = λ e. absurd (omega (arith, e));
          dead_free = λ e. absurd (cc e);
        },
        tt,
      ),
    ),
  );
}

next_due-Exclusive_example : Exclusive 1000 5000 shop.queue (next_due 1000 10 shop)
next_due-Exclusive_example = next_due-Exclusive 1000 10 5000 shop (omega arith) shop-Unique

call-IsQueue_example : IsQueue (call (buries (codes "1") (codes "no such host")) shop).queue
call-IsQueue_example = call-IsQueue (buries (codes "1") (codes "no such host")) shop shop-IsQueue

dead_letter-capped_example :
    count is_dead (after (dead_letter (codes "1") (codes "gone") shop)).queue ≤ shop.dead_max
dead_letter-capped_example =
    dead_letter-capped (codes "1") (codes "gone") shop refl (λ e. omega (arith, e))

dead_letter-drops_oldest_example :
    (is_dead old_dead ≡ true)
    × ((r : Row)
        → In r (after (dead_letter (codes "1") (codes "gone") shop)).queue
        → is_dead r ≡ true
        → old_dead.created_at ≤ r.created_at)
unfolding dead_letter str_eq
dead_letter-drops_oldest_example =
    dead_letter-drops_oldest (codes "1") (codes "gone") shop old_dead refl (λ e. omega (arith, e))
      shop-Unique (inl refl)
      (elim [
        | inl e ↦ cc (ap (λ (r : Row). r.created_at) e)
        | inr i ↦ elim i [ inl e ↦ cc (ap (λ (r : Row). r.created_at) e) | inr j ↦ j.1 ]
      ])

next_due-starved_example :
    next_due 1000 1 (with_queue (leased_row ∷ waiting ∷ []))
    ≡ done [] (record (with_queue (leased_row ∷ waiting ∷ [])) { faults = [] })
unfolding str_eq candidates
next_due-starved_example =
    next_due-starved 1000 1 (with_queue (leased_row ∷ waiting ∷ [])) refl (refl, (refl, tt))
      (refl, tt)

persist-IsFree_example : IsFree (codes "2") (after (persist (scan_message leased_row) shop)).queue
unfolding scan_message
persist-IsFree_example =
    persist-IsFree (scan_message leased_row) shop leased_row refl (λ e. cc e) shop-Unique
      (inr (inr (inl refl))) refl refl

requeue_dead-IsFree_example :
    (requeue_dead (codes "0") shop
      ≡ done tt (record (revive (codes "0") shop) { faults = []; notify = true }))
    × IsFree (codes "0") (revive (codes "0") shop).queue
    × ((now : ℕ) → is_due now (requeued old_dead) ≡ true)
requeue_dead-IsFree_example =
    requeue_dead-IsFree (codes "0") shop old_dead refl shop-Unique (inl refl) refl refl

requeue_dead-refuses_example :
    requeue_dead (codes "1") shop ≡ failed not_dead (record shop { faults = [] })
unfolding str_eq
requeue_dead-refuses_example = requeue_dead-refuses (codes "1") shop refl refl

-- One worker takes the waiting message; another queues a new one and takes that.
abbrev after_first : Store
after_first = after (next_due 1000 10 shop)

abbrev new_mail : Call
new_mail = enqueues (codes "9") (codes "a@x") rcpts (codes "Hi\n")

abbrev after_second : Store
after_second = call new_mail (turn (codes "v") 2000 [] after_first)

first_hands_out : In (scan_message waiting) (handed (next_due 1000 10 shop))
unfolding next_due scan_message str_eq
first_hands_out = inl refl

second_hands_out :
    In (scan_message (fresh (codes "9") 2000)) (handed (next_due 3000 10 after_second))
unfolding next_due call enqueue_with_id scan_message str_eq
second_hands_out = inl refl

goes_on : Run (codes "1") after_first after_second
goes_on = calls (codes "v") 2000 [] new_mail refl stay

next_due-once_example : (fresh (codes "9") 2000).id ≢ waiting.id
unfolding scan_message
next_due-once_example =
    next_due-once 1000 10 shop (scan_message waiting) after_second 3000 10
      (scan_message (fresh (codes "9") 2000)) shop-IsQueue first_hands_out goes_on (omega arith)
      second_hands_out
