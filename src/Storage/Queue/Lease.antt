-- ===== src/Storage/Queue/Lease.antt =====
-- When a row can be claimed: rows under a lease that fill the `SELECT` of `NextDue`, and the calls
-- that give a lease up.
use carteiro.Common.{
  All, All-any, Bool, Bool-cases, Bytes, In, List, [], any, arith, count, count-In, count_none,
  false, inl, inr, map, refl, str_eq_complete, str_eq_sound, subst, true, ℕ, ◌==◌, ◌∷◌, ◌≡◌,
}
use carteiro.Storage.Types.{Row, Store, Message}
use carteiro.Storage.Db.{update_where, done, query, exec, after, failed, not_dead, exec_}
use carteiro.Storage.Queue.{
  is_claimable, has_id, next_due, is_queued, claim_all, claim, candidates, default_limit,
  scan_message, persist, requeue_dead, leased, is_due, dead_with_id, is_dead, revive, persist_to,
  requeued, persisted,
}
use carteiro.Storage.Queue.Rows.{KeepsId, Unique, any_id-update, absent_behind, any_id-In}
use carteiro.Storage.Queue.Claim.{held, claimable_absent, claimable_held}
use mathlib.Core.Logic.{◌≢◌}

update_none :
    (p : Row → Bool) (f : Row → Row) (rows : List Row)
    → count p rows ≡ 0
    → update_where p f rows ≡ rows
update_none p f [] h = refl
update_none p f (r ∷ rows) h = ground (arith, update_none p f rows)

claim_all-held :
    (now : ℕ) (rows : List Row) (s : Store)
    → Unique s.queue
    → All (λ r. held now r.id s.queue ≡ true) rows
    → claim_all now (map scan_message rows) [] (record s { faults = [] })
      ≡ done [] (record s { faults = [] })
unfolding claim_all claim exec scan_message
claim_all-held now [] s u h = refl
claim_all-held now (r ∷ rows) s u h =
    let none_free = claimable_held now r.id s.queue u h.0 in
    rw (none_free, update_none (is_claimable now r.id) (leased _ _) s.queue none_free)
      (claim_all-held now rows s u h.1)

-- Where the ids are distinct and no statement fails: if every row that the `SELECT` gives is under
-- a lease, `NextDue` hands out nothing, whatever other rows are due behind them, and changes
-- nothing.
pub next_due-starved :
    (now limit : ℕ) (s : Store)
    → s.faults ≡ []
    → Unique s.queue
    → All (λ r. held now r.id s.queue ≡ true) (candidates now (default_limit limit) s.queue)
    → next_due now limit s ≡ done [] (record s { faults = [] })
unfolding next_due query
next_due-starved now limit s ok u h =
    rw ok (claim_all-held now (candidates now (default_limit limit) s.queue) s u h)

-- In these states a row of the id can be claimed at any time.
abbrev pub IsFree : Bytes → List Row → Type 0
IsFree id rows = (t : ℕ) → count (is_claimable t id) rows ≡ 1

IsFree-update :
    (id : Bytes) (p : Row → Bool) (f : Row → Row) (rows : List Row) (r : Row)
    → KeepsId f
    → ((q : Row) → (f q).lease_until ≡ 0)
    → Unique rows
    → In r rows
    → r.id ≡ id
    → p r ≡ true
    → is_queued (f r) ≡ true
    → IsFree id (update_where p f rows)
unfolding is_claimable
IsFree-update id p f [] r keeps frees u i e h d t = absurd i.1
IsFree-update id p f (q ∷ rows) r keeps frees u (inl same) e h d t =
    let h' : p q ≡ true = subst (λ (x : Row). p x ≡ true) same h in
    let d' : is_queued (f q) ≡ true = subst (λ (x : Row). is_queued (f x) ≡ true) same d in
    let e' : q.id ≡ id = subst (λ (x : Row). x.id ≡ id) same e in
    ground (
      arith,
      keeps q,
      frees q,
      str_eq_complete q.id id,
      claimable_absent t id (update_where p f rows),
      any_id-update p f keeps id rows,
      absent_behind q rows id u.0,
    )
IsFree-update id p f (q ∷ rows) r keeps frees u (inr i) e h d t = ground (
  arith,
  keeps q,
  IsFree-update id p f rows r keeps frees u.1 i e h d t,
  str_eq_sound q.id id,
  any_id-In q.id rows r i,
)

-- `Persist` gives the lease up. Where the ids are distinct and no statement fails: once it has run
-- for a message with recipients left, whose row is queued, any worker can claim that message, at
-- whatever time.
pub persist-IsFree :
    (m : Message) (s : Store) (r : Row)
    → s.faults ≡ []
    → m.to ≢ []
    → Unique s.queue
    → In r s.queue
    → r.id ≡ m.id
    → is_queued r ≡ true
    → IsFree m.id (after (persist m s)).queue
unfolding persist
persist-IsFree m s r ok addressed u i e d = go m.to addressed
  where
    go : (to : List Bytes) → to ≢ [] → IsFree m.id (after (persist_to to m s)).queue
    go [] h = absurd (h refl)
    go (a ∷ to) h =
        unfold persist_to exec_ in
        rw ok (
          IsFree-update m.id (has_id m.id) (persisted m) s.queue r (λ q. refl) (λ q. refl) u i e
            (str_eq_complete r.id m.id e) d)

-- Where the ids are distinct and no statement fails: to requeue a dead message succeeds and wakes
-- the deliverer, and the message can be claimed at any time and is due at once.
pub requeue_dead-IsFree :
    (id : Bytes) (s : Store) (r : Row)
    → s.faults ≡ []
    → Unique s.queue
    → In r s.queue
    → r.id ≡ id
    → is_dead r ≡ true
    → (requeue_dead id s ≡ done tt (record (revive id s) { faults = []; notify = true }))
      × IsFree id (revive id s).queue
      × ((now : ℕ) → is_due now (requeued r) ≡ true)
unfolding requeue_dead exec is_due
requeue_dead-IsFree id s r ok u i e d = (
  rw ok (elim (Bool-cases (count (dead_with_id id) s.queue == 0)) [
    | inl none_dead ↦ absurd (
        count-In (dead_with_id id) r s.queue i (ground (arith, str_eq_complete r.id id))
          (ground arith))
    | inr some_dead ↦ rw some_dead
  ]),
  IsFree-update id (dead_with_id id) requeued s.queue r (λ q. refl) (λ q. refl) u i e
      (ground (arith, str_eq_complete r.id id)) refl,
  λ now. refl,
)

-- Where no statement fails: a message that is not dead is not requeued; the call fails and changes
-- nothing.
pub requeue_dead-refuses :
    (id : Bytes) (s : Store)
    → s.faults ≡ []
    → any (dead_with_id id) s.queue ≡ false
    → requeue_dead id s ≡ failed not_dead (record s { faults = [] })
unfolding requeue_dead exec
requeue_dead-refuses id s ok h =
    let absent = count_none (dead_with_id id) s.queue (All-any (dead_with_id id) s.queue h) in
    rw (ok, absent, update_none (dead_with_id id) requeued s.queue absent)
