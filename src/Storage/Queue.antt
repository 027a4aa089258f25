-- ===== src/Storage/Queue.antt =====
-- internal/storage/queue.go: the message queue. The proofs are in the modules below this one.
pub mod Rows
pub mod Claim
pub mod Soundness
pub mod Invariant
pub mod Deletions
pub mod Prune
pub mod Lease
pub mod Held
pub mod Workers
pub mod Frame
use carteiro.Common.{
  Bool, Bytes, List, [], any, count, false, filter, if◌then◌else◌, leb, ltb, map, str_eq, suc, take,
  true, zero, ℕ, ◌&&◌, ◌*◌, ◌++◌, ◌+◌, ◌-◌, ◌==◌, ◌||◌, ◌∷◌,
}
use carteiro.Storage.Types.{Message, queued, dead, Row, Stats, Status, Store}
use carteiro.Storage.Db.{
  M, ◌>>=◌, ◌>>◌, return, fail, no_recipients, not_dead, query, exec, exec_, insert_unless,
  update_where, delete_where, order_by,
}

abbrev pub is_queued : Row → Bool
is_queued r = elim r.status [ queued ↦ true | dead ↦ false ]

abbrev pub is_dead : Row → Bool
is_dead r = elim r.status [ queued ↦ false | dead ↦ true ]

-- `ORDER BY created_at ASC`.
abbrev pub older : Row → Row → Bool
older r q = leb r.created_at q.created_at

abbrev pub has_id : Bytes → Row → Bool
has_id id r = str_eq r.id id

-- `LeaseTimeout`, 30 minutes.
abbrev pub lease_timeout : ℕ
lease_timeout = 30 * 60 * 1000

-- The channel's one place is filled; a second token is dropped.
unfoldable pub wake : M (Unit {0})
wake s = return tt (record s { notify = true })

-- The row that `EnqueueWithID` inserts.
abbrev pub new_row : Bytes → Bytes → List Bytes → Bytes → ℕ → Row
new_row id sender to content now = record {
  id = id;
  sender = sender;
  to = to;
  content = content;
  attempts = 0;
  next_attempt = 0;
  status = queued;
  lease_until = 0;
  worker_id = [];
  created_at = now;
  last_error = [];
  permanent = [];
}

unfoldable pub insert_row : Row → M (Unit {0})
unfolding insert_unless
insert_row r =
    insert_unless (λ s. any (has_id r.id) s.queue) (λ s. record s { queue = s.queue ++ r ∷ [] })

unfoldable pub enqueue_with_id : Bytes → Bytes → List Bytes → Bytes → M Bytes
unfolding insert_row wake
enqueue_with_id id sender [] content s = fail no_recipients s
enqueue_with_id id sender (a ∷ to) content s =
    (do insert_row (new_row id sender (a ∷ to) content s.clock); wake; return id) s

-- `now` is the fresh id that `NewID` draws.
unfoldable pub enqueue : Bytes → Bytes → List Bytes → Bytes → M Bytes
unfolding enqueue_with_id
enqueue new_id sender to content = enqueue_with_id new_id sender to content

-- `status = 'queued' AND (next_attempt = 0 OR next_attempt <= now)`.
unfoldable pub is_due : ℕ → Row → Bool
is_due now r = is_queued r && (r.next_attempt == 0 || leb r.next_attempt now)

-- `id = ? AND status = 'queued' AND (lease_until = 0 OR lease_until <= now)`.
unfoldable pub is_claimable : ℕ → Bytes → Row → Bool
is_claimable now id r = has_id id r && is_queued r && (r.lease_until == 0 || leb r.lease_until now)

unfoldable pub scan_message : Row → Message
scan_message r = record {
  id = r.id;
  sender = r.sender;
  to = r.to;
  attempts = r.attempts;
  next_attempt = r.next_attempt;
  created_at = r.created_at;
  last_error = r.last_error;
  permanent = r.permanent;
  content = r.content;
}

abbrev pub leased : ℕ → Bytes → Row → Row
leased until worker r = record r { lease_until = until; worker_id = worker }

-- How many rows the `UPDATE` of a claim changes, and what it does: it takes the lease.
abbrev pub claims : ℕ → Bytes → Store → ℕ
claims now id s = count (is_claimable now id) s.queue

abbrev pub take_lease : ℕ → Bytes → Store → Store
take_lease now id s = record s {
  queue = update_where (is_claimable now id) (leased (now + lease_timeout) s.instance_id) s.queue;
}

unfoldable pub claim : ℕ → Bytes → M ℕ
unfolding exec is_claimable
claim now id = exec (claims now id) (take_lease now id)

-- The loop over the candidates; `ready` holds those that were claimed so far.
unfoldable pub claim_all : ℕ → List Message → List Message → M (List Message)
unfolding claim
claim_all now [] ready = return ready
claim_all now (m ∷ msgs) ready = do
  n ← claim now m.id
  claim_all now msgs (if n == 1 then ready ++ m ∷ [] else ready)

abbrev pub default_limit : ℕ → ℕ
default_limit limit = if limit == 0 then 100 else limit

-- The rows that the `SELECT` of `NextDue` gives.
unfoldable pub candidates : ℕ → ℕ → List Row → List Row
unfolding is_due order_by
candidates now limit rows = take limit (order_by older (filter (is_due now) rows))

unfoldable pub next_due : ℕ → ℕ → M (List Message)
unfolding claim_all query candidates scan_message
next_due now limit = do
  rows ← query (λ s. candidates now (default_limit limit) s.queue)
  claim_all now (map scan_message rows) []

-- What `Persist` writes; the lease is given up.
abbrev pub persisted : Message → Row → Row
persisted m r = record r {
  to = m.to;
  permanent = m.permanent;
  attempts = m.attempts;
  next_attempt = m.next_attempt;
  last_error = m.last_error;
  lease_until = 0;
  worker_id = [];
}

abbrev pub write_progress : Message → Store → Store
write_progress m s = record s { queue = update_where (has_id m.id) (persisted m) s.queue }

persist_to : List Bytes → Message → M (Unit {0})
persist_to [] m = return tt
persist_to (a ∷ to) m = exec_ (write_progress m)

unfoldable pub persist : Message → M (Unit {0})
unfolding persist_to exec_
persist m = persist_to m.to m

abbrev pub finish : Bytes → Store → Store
finish id s = record s { queue = delete_where (λ r. has_id id r && is_queued r) s.queue }

unfoldable pub succeed : Bytes → M (Unit {0})
unfolding exec_
succeed id = exec_ (finish id)

abbrev pub released : Row → Row
released r = record r { lease_until = 0; worker_id = [] }

abbrev pub give_up : Bytes → Store → Store
give_up id s = record s { queue = update_where (has_id id) released s.queue }

unfoldable pub release : Bytes → M (Unit {0})
unfolding exec_
release id = exec_ (give_up id)

abbrev pub drop_dead : Bytes → Store → Store
drop_dead id s = record s { queue = delete_where (λ r. has_id id r && is_dead r) s.queue }

-- `DELETE … WHERE id = ? AND status = 'dead'` for each victim.
unfoldable pub delete_dead : List Bytes → M (Unit {0})
unfolding exec_
delete_dead [] = return tt
delete_dead (id ∷ ids) = do exec_ (drop_dead id); delete_dead ids

-- The ids of the oldest dead rows.
unfoldable pub oldest_dead : ℕ → List Row → List Bytes
unfolding order_by
oldest_dead over rows = map (λ (r : Row). r.id) (take over (order_by older (filter is_dead rows)))

prune_over : ℕ → M (Unit {0})
unfolding query delete_dead oldest_dead
prune_over zero = return tt
prune_over (suc over) = do
  victims ← query (λ s. oldest_dead (suc over) s.queue)
  delete_dead victims

unfoldable pub prune_dead : M (Unit {0})
unfolding prune_over query
prune_dead s =
    if s.dead_max == 0
    then return tt s
    else (do total ← query (λ t. count is_dead t.queue); prune_over (total - s.dead_max)) s

abbrev pub buried : Bytes → Row → Row
buried reason r = record r {
  status = dead;
  last_error = reason;
  next_attempt = 0;
  lease_until = 0;
  worker_id = [];
}

abbrev pub bury : Bytes → Bytes → Store → Store
bury id reason s = record s { queue = update_where (has_id id) (buried reason) s.queue }

unfoldable pub dead_letter : Bytes → Bytes → M (Unit {0})
unfolding exec_ prune_dead
dead_letter id reason = do exec_ (bury id reason); prune_dead

abbrev pub requeued : Row → Row
requeued r = record r {
  status = queued;
  attempts = 0;
  next_attempt = 0;
  last_error = [];
  lease_until = 0;
  worker_id = [];
}

woken_or_refused : ℕ → M (Unit {0})
unfolding wake
woken_or_refused n = if n == 0 then fail not_dead else wake

abbrev pub dead_with_id : Bytes → Row → Bool
dead_with_id id r = has_id id r && is_dead r

abbrev pub revives : Bytes → Store → ℕ
revives id s = count (dead_with_id id) s.queue

abbrev pub revive : Bytes → Store → Store
revive id s = record s { queue = update_where (dead_with_id id) requeued s.queue }

unfoldable pub requeue_dead : Bytes → M (Unit {0})
unfolding exec woken_or_refused
requeue_dead id = do n ← exec (revives id) (revive id); woken_or_refused n

unfoldable pub stats : ℕ → M Stats
unfolding query is_due
stats now = do
  a ← query (λ s. count is_queued s.queue)
  b ← query (λ s. count (is_due now) s.queue)
  c ← query (λ s. count is_dead s.queue)
  return (record { queued_count = a; due_count = b; dead_count = c })

abbrev pub list_limit : ℕ → ℕ
list_limit limit = if limit == 0 then 100 else if ltb 1000 limit then 1000 else limit

-- `MessageLite` is a `Message` without its content.
abbrev pub lite : Row → Message
lite r = record (scan_message r) { content = [] }

abbrev pub with_status : Status → Row → Bool
with_status queued = is_queued
with_status dead = is_dead

unfoldable pub list_messages : Status → ℕ → M (List Message)
unfolding query order_by scan_message
list_messages status limit = query λ s.
    map lite
      (take (list_limit limit) (order_by (λ r q. older q r) (filter (with_status status) s.queue)))
