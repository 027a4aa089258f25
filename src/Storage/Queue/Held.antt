-- ===== src/Storage/Queue/Held.antt =====
-- A lease outlasts the statements that are not about its message.
use carteiro.Common.{
  All, Bool, Bool-cases, Bytes, List, [], any, arith, count, false, if_lem, if◌then◌else◌, inl, inr,
  ltb, map, refl, str_eq, str_eq_complete, str_eq_sound, suc, sym, true, zero, ℕ, ◌&&◌, ◌++◌, ◌-◌,
  ◌==◌, ◌∙◌, ◌∷◌, ◌≡◌,
}
use carteiro.Storage.Types.{Row, Store, Message}
use carteiro.Storage.Db.{update_where, delete_where, Outcome, after, bind, return, spend, M}
use carteiro.Storage.Queue.{
  has_id, dead_with_id, prune_over, persist_to, delete_dead, next_due, requeue_dead, prune_dead,
  enqueue_with_id, dead_letter, claim_all, claim, woken_or_refused, wake, new_row, requeued,
  write_progress, drop_dead, is_dead, oldest_dead, persisted, revives, claims, scan_message, bury,
  take_lease, revive, candidates, default_limit, buried, persist,
}
use carteiro.Storage.Queue.Claim.{held, held-claimed}
use carteiro.Storage.Queue.Soundness.{IsSound, IsQueue, delete-IsQueue, update-IsQueue}
use carteiro.Storage.Queue.Invariant.{buried-IsSound}
use carteiro.Storage.Db.Rules.{exec_-cases, query-cases, exec-cases, insert_unless-cases}

-- The test holds of no row that keeps `id` under a lease at `t`.
abbrev pub Apart : ℕ → Bytes → (Row → Bool) → Type 0
Apart t id p = (r : Row) → IsSound r → (has_id id r && ltb t r.lease_until) ≡ true → p r ≡ false

pub held-update :
    (t : ℕ) (id : Bytes) (p : Row → Bool) (f : Row → Row) (rows : List Row)
    → Apart t id p
    → All IsSound rows
    → held t id rows ≡ true
    → held t id (update_where p f rows) ≡ true
held-update t id p f [] a v h = cc
held-update t id p f (r ∷ rows) a v h = ground (arith, a r v.0, held-update t id p f rows a v.1)

pub held-delete :
    (t : ℕ) (id : Bytes) (p : Row → Bool) (rows : List Row)
    → Apart t id p
    → All IsSound rows
    → held t id rows ≡ true
    → held t id (delete_where p rows) ≡ true
held-delete t id p [] a v h = cc
held-delete t id p (r ∷ rows) a v h = ground (arith, a r v.0, held-delete t id p rows a v.1)

held-append :
    (t : ℕ) (id : Bytes) (rows more : List Row)
    → held t id rows ≡ true
    → held t id (rows ++ more) ≡ true
held-append t id [] more h = cc
held-append t id (r ∷ rows) more h = ground (arith, held-append t id rows more)

other_id : (a j id : Bytes) → str_eq j id ≡ false → str_eq a id ≡ true → str_eq a j ≡ false
other_id a j id ne h = elim (Bool-cases (str_eq a j)) [
  | inl e ↦ cc (ne, str_eq_complete j id (sym (str_eq_sound a j e) ∙ str_eq_sound a id h))
  | inr e ↦ e
]

-- Another id is none of the message's rows.
pub other-Apart : (t : ℕ) (id j : Bytes) → str_eq j id ≡ false → Apart t id (has_id j)
other-Apart t id j ne r v h = ground (arith, other_id r.id j id ne)

pub and-Apart :
    (t : ℕ) (id : Bytes) (p q : Row → Bool) → Apart t id p → Apart t id (λ r. p r && q r)
and-Apart t id p q a r v h = ground (arith, a r v h)

-- A dead row is under no lease.
dead-Apart : (t : ℕ) (id j : Bytes) → Apart t id (dead_with_id j)
dead-Apart t id j r v h = ground (arith, v.dead_free)

persist_to-held :
    (t : ℕ) (id : Bytes) (to : List Bytes) (m : Message) (s : Store)
    → str_eq m.id id ≡ false
    → All IsSound s.queue
    → held t id s.queue ≡ true
    → held t id (after (persist_to to m s)).queue ≡ true
unfolding persist_to
persist_to-held t id [] m s ne v h = h
persist_to-held t id (a ∷ to) m s ne v h =
    exec_-cases (λ o. held t id (after o).queue ≡ true) s (write_progress m) h
      (held-update t id (has_id m.id) (persisted m) s.queue (other-Apart t id m.id ne) v h)

pub persist-held :
    (t : ℕ) (id : Bytes) (m : Message) (s : Store)
    → str_eq m.id id ≡ false
    → All IsSound s.queue
    → held t id s.queue ≡ true
    → held t id (after (persist m s)).queue ≡ true
unfolding persist
persist-held t id m s = persist_to-held t id m.to m s

delete_dead-held :
    (t : ℕ) (id : Bytes) (ids : List Bytes) (s : Store)
    → IsQueue s.queue
    → held t id s.queue ≡ true
    → held t id (after (delete_dead ids s)).queue ≡ true
unfolding delete_dead
delete_dead-held t id [] s v h = h
delete_dead-held t id (j ∷ ids) s v h =
    exec_-cases (λ o. held t id (after (bind o (λ _. delete_dead ids))).queue ≡ true) s
      (drop_dead j) h
      (delete_dead-held t id ids (drop_dead j (spend s)) (delete-IsQueue (dead_with_id j) s.queue v)
        (held-delete t id (dead_with_id j) s.queue (dead-Apart t id j) v.sound h))

prune_over-held :
    (t : ℕ) (id : Bytes) (over : ℕ) (s : Store)
    → IsQueue s.queue
    → held t id s.queue ≡ true
    → held t id (after (prune_over over s)).queue ≡ true
unfolding prune_over
prune_over-held t id zero s v h = h
prune_over-held t id (suc over) s v h =
    query-cases (λ o. held t id (after (bind o delete_dead)).queue ≡ true) s
      (λ t. oldest_dead (suc over) t.queue) h
      (delete_dead-held t id (oldest_dead (suc over) s.queue) (spend s) v h)

prune_dead-held :
    (t : ℕ) (id : Bytes) (s : Store)
    → IsQueue s.queue
    → held t id s.queue ≡ true
    → held t id (after (prune_dead s)).queue ≡ true
unfolding prune_dead
prune_dead-held t id s v h =
    let P = λ (o : Outcome (Unit {0})). held t id (after o).queue ≡ true in
    if_lem P (s.dead_max == 0) _ _ (λ _. h)
      λ _.
        query-cases (λ o. P (bind o (λ total. prune_over (total - s.dead_max)))) s
          (λ t. count is_dead t.queue) h
          (prune_over-held t id (count is_dead s.queue - s.dead_max) (spend s) v h)

pub dead_letter-held :
    (t : ℕ) (id j reason : Bytes) (s : Store)
    → str_eq j id ≡ false
    → IsQueue s.queue
    → held t id s.queue ≡ true
    → held t id (after (dead_letter j reason s)).queue ≡ true
unfolding dead_letter
dead_letter-held t id j reason s ne v h =
    exec_-cases (λ o. held t id (after (bind o (λ _. prune_dead))).queue ≡ true) s (bury j reason) h
      (prune_dead-held t id (bury j reason (spend s))
        (update-IsQueue (has_id j) (buried reason) (λ r. refl) (λ r _. buried-IsSound reason r)
          s.queue v)
        (held-update t id (has_id j) (buried reason) s.queue (other-Apart t id j ne) v.sound h))

pub requeue_dead-held :
    (t : ℕ) (id j : Bytes) (s : Store)
    → All IsSound s.queue
    → held t id s.queue ≡ true
    → held t id (after (requeue_dead j s)).queue ≡ true
unfolding requeue_dead woken_or_refused wake
requeue_dead-held t id j s v h =
    let P = λ (o : Outcome (Unit {0})). held t id (after o).queue ≡ true in
    let kept = held-update t id (dead_with_id j) requeued s.queue (dead-Apart t id j) v h in
    exec-cases (λ o. P (bind o woken_or_refused)) s (revives j) (revive j) h
      (if_lem (λ (m : M (Unit {0})). P (m (revive j (spend s)))) (revives j s == 0) _ _ (λ _. kept)
        (λ _. kept))

pub enqueue-held :
    (t : ℕ) (id j sender : Bytes) (to : List Bytes) (content : Bytes) (s : Store)
    → held t id s.queue ≡ true
    → held t id (after (enqueue_with_id j sender to content s)).queue ≡ true
unfolding enqueue_with_id
enqueue-held t id j sender [] content s h = h
enqueue-held t id j sender (a ∷ to) content s h =
    let row = new_row j sender (a ∷ to) content s.clock in
    insert_unless-cases
      (λ o. held t id (after (bind o (λ _ u. bind (wake u) (λ _. return j)))).queue ≡ true) s
      (λ u. any (has_id j) u.queue) (λ u. record u { queue = u.queue ++ row ∷ [] }) h
      (λ _. held-append t id s.queue (row ∷ []) h)

claim_all-held :
    (t : ℕ) (id : Bytes) (now : ℕ) (msgs ready : List Message) (s : Store)
    → held t id s.queue ≡ true
    → held t id (after (claim_all now msgs ready s)).queue ≡ true
unfolding claim_all claim
claim_all-held t id now [] ready s h = h
claim_all-held t id now (m ∷ msgs) ready s h =
    exec-cases
      (λ o.
        held t id
          (after
            (bind o (λ n. claim_all now msgs (if n == 1 then ready ++ m ∷ [] else ready)))).queue
        ≡ true)
      s (claims now m.id) (take_lease now m.id) h
      (claim_all-held t id now msgs _ (take_lease now m.id (spend s))
        (held-claimed now t m.id id s.instance_id s.queue h))

pub next_due-held :
    (t : ℕ) (id : Bytes) (now limit : ℕ) (s : Store)
    → held t id s.queue ≡ true
    → held t id (after (next_due now limit s)).queue ≡ true
unfolding next_due
next_due-held t id now limit s h =
    query-cases
      (λ o.
        held t id (after (bind o (λ rows. claim_all now (map scan_message rows) []))).queue ≡ true)
      s (λ u. candidates now (default_limit limit) u.queue) h
      (claim_all-held t id now (map scan_message (candidates now (default_limit limit) s.queue)) []
        (spend s) h)
