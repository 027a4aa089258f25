-- ===== src/Storage/Queue/Claim.antt =====
-- The claims of `NextDue`: what a lease keeps other workers from.
use carteiro.Common.{
  All, All-append, Bool, Bool-cases, Bytes, List, [], any, arith, count, false, if◌then◌else◌, inl,
  inr, ltb, refl, true, ℕ, ◌&&◌, ◌++◌, ◌+◌, ◌<◌, ◌==◌, ◌∷◌, ◌≡◌,
}
use carteiro.Storage.Types.{Row, Store, Message}
use carteiro.Storage.Db.{update_where, Outcome, failed, exec, done, next_fails, query, spend}
use carteiro.Storage.Queue.{has_id, is_claimable, lease_timeout, leased, claim_all, claim, next_due}
use carteiro.Storage.Queue.Rows.{Unique, absent_behind, update-Unique}
use mathlib.Core.Logic.{◌≢◌}

-- At time `t` a row of that id is under a lease.
abbrev pub held : ℕ → Bytes → List Row → Bool
held t id rows = any (λ r. has_id id r && ltb t r.lease_until) rows

held-absent :
    (t : ℕ) (id : Bytes) (rows : List Row) → any (has_id id) rows ≡ false → held t id rows ≡ false
held-absent t id [] h = refl
held-absent t id (r ∷ rows) h = ground (arith, held-absent t id rows)

pub claimable_absent :
    (now : ℕ) (id : Bytes) (rows : List Row)
    → any (has_id id) rows ≡ false
    → count (is_claimable now id) rows ≡ 0
unfolding is_claimable
claimable_absent now id [] h = refl
claimable_absent now id (r ∷ rows) h = ground (arith, claimable_absent now id rows)

-- The `UPDATE` of a claim finds no row that is under a lease.
pub claimable_held :
    (now : ℕ) (id : Bytes) (rows : List Row)
    → Unique rows
    → held now id rows ≡ true
    → count (is_claimable now id) rows ≡ 0
unfolding is_claimable
claimable_held now id [] u h = cc
claimable_held now id (r ∷ rows) u h = ground (
  arith,
  claimable_held now id rows u.1,
  claimable_absent now id rows,
  held-absent now id rows,
  absent_behind r rows id u.0,
)

abbrev pub claimed : ℕ → Bytes → Bytes → List Row → List Row
claimed now id worker = update_where (is_claimable now id) (leased (now + lease_timeout) worker)

-- A claim takes no lease away.
pub held-claimed :
    (now t : ℕ) (id j worker : Bytes) (rows : List Row)
    → held t j rows ≡ true
    → held t j (claimed now id worker rows) ≡ true
unfolding is_claimable
held-claimed now t id j worker [] h = cc
held-claimed now t id j worker (r ∷ rows) h = ground (arith, held-claimed now t id j worker rows)

-- A claim that changes a row puts it under a lease.
pub held-claimed_self :
    (now t : ℕ) (id worker : Bytes) (rows : List Row)
    → t < now + lease_timeout
    → count (is_claimable now id) rows ≢ 0
    → held t id (claimed now id worker rows) ≡ true
unfolding is_claimable
held-claimed_self now t id worker [] lt h = absurd (h refl)
held-claimed_self now t id worker (r ∷ rows) lt h =
    ground (arith, held-claimed_self now t id worker rows lt)

-- What the claims of one call establish, for a moment `t` before their leases end: every message
-- that is handed out is under a lease then, and was under none at the moment of the call.
abbrev pub Exclusive : ℕ → ℕ → List Row → Outcome (List Message) → Type 0
Exclusive now t before (failed e s) = Unit
Exclusive now t before (done ms s) =
    All (λ (m : Message). (held t m.id s.queue ≡ true) × (held now m.id before ≡ false)) ms

Ready : ℕ → ℕ → List Row → List Row → List Message → Type 0
Ready now t before rows =
    All (λ (m : Message). (held t m.id rows ≡ true) × (held now m.id before ≡ false))

-- Leases only grow while a call runs: what is held at its moment stays held.
abbrev Grows : ℕ → List Row → List Row → Type 0
Grows now before rows = (j : Bytes) → held now j before ≡ true → held now j rows ≡ true

Ready-claimed :
    (now t : ℕ) (id worker : Bytes) (before rows : List Row) (ms : List Message)
    → t < now + lease_timeout
    → Ready now t before rows ms
    → Ready now t before (claimed now id worker rows) ms
unfolding Ready
Ready-claimed now t id worker before rows [] lt h = tt
Ready-claimed now t id worker before rows (m ∷ ms) lt h = (
  (held-claimed now t id m.id worker rows h.0.0, h.0.1),
  Ready-claimed now t id worker before rows ms lt h.1,
)

-- One round of the loop: the message joins those that are handed out if its claim changed a row.
Ready-round :
    (now t : ℕ) (worker : Bytes) (before rows : List Row) (m : Message) (ready : List Message)
    → t < now + lease_timeout
    → Unique rows
    → Grows now before rows
    → Ready now t before rows ready
    → Ready now t before
        (claimed now m.id worker rows)
        (if count (is_claimable now m.id) rows == 1 then ready ++ m ∷ [] else ready)
Ready-round now t worker before rows m ready lt u g h =
    let kept = Ready-claimed now t m.id worker before rows ready lt h in
    elim (Bool-cases (count (is_claimable now m.id) rows == 1)) [
      | inl one ↦ rw one (
          unfold Ready in
          All-append _ ready (m ∷ []) kept
            ((held-claimed_self now t m.id worker rows lt (ground arith), fresh one), tt))
      | inr other ↦ rw other kept
    ]
  where
    fresh : (count (is_claimable now m.id) rows == 1) ≡ true → held now m.id before ≡ false
    fresh one = elim (Bool-cases (held now m.id before)) [
      | inl yes' ↦ ground (arith, claimable_held now m.id rows u (g m.id yes'))
      | inr free ↦ free
    ]

claim_all-Exclusive :
    (now t : ℕ) (before : List Row) (msgs ready : List Message) (s : Store)
    → t < now + lease_timeout
    → Unique s.queue
    → Grows now before s.queue
    → Ready now t before s.queue ready
    → Exclusive now t before (claim_all now msgs ready s)
unfolding claim_all claim exec
claim_all-Exclusive now t before [] ready s lt u g h = unfold Ready in h
claim_all-Exclusive now t before (m ∷ msgs) ready s lt u g h =
    elim (Bool-cases (next_fails s.faults)) [
      | inl broken ↦ rw broken tt
      | inr works ↦ rw works (
          claim_all-Exclusive now t before msgs _ _ lt
            (update-Unique (is_claimable now m.id) _ (λ r. refl) s.queue u)
            (λ j e. held-claimed now now m.id j s.instance_id s.queue (g j e))
            (Ready-round now t s.instance_id before s.queue m ready lt u g h))
    ]

-- Where the ids of the queue are distinct, and whatever statements fail: a message that `NextDue`
-- hands out was under no lease at the time of the call, and is under one at every moment before
-- that time plus `LeaseTimeout`.
pub next_due-Exclusive :
    (now limit t : ℕ) (s : Store)
    → t < now + lease_timeout
    → Unique s.queue
    → Exclusive now t s.queue (next_due now limit s)
unfolding next_due query Ready
next_due-Exclusive now limit t s lt u = elim (Bool-cases (next_fails s.faults)) [
  | inl broken ↦ rw broken tt
  | inr works ↦ rw works (claim_all-Exclusive now t s.queue _ [] (spend s) lt u (λ j e. e) tt)
]
