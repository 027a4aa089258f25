-- ===== src/Storage/Counters/Effect.antt =====
-- internal/storage/counters.go: what `AddCounter` does to the counters.
use carteiro.Common.{
  ==_iff, Bytes, Option, [], ap, arith, if_lem, if◌then◌else◌, inl, inr, none, refl, some, subst,
  sym, ℕ, ◌+◌, ◌==◌, ◌∙◌, ◌≡◌, ◌⊎◌,
}
use carteiro.Storage.Types.{Counter, Store, sqlite, Counter-discrete}
use carteiro.Storage.Db.{after, exec_on_conflict, exec_, M, return, fail, unknown_counter}
use carteiro.Storage.Counters.{
  counter_column, row_or_zeros, add_counter, add_column, ensure_counters_row, add_to, ite,
}

-- What `AddCounter` does with the column of a name.
abbrev added : ℕ → Option Counter → Store → Store
added n found s = after (
    (elim found as (λ _. M (Unit {0})) [
      | none ↦ fail unknown_counter
      | some c ↦ if n == 0 then return tt else add_column c n
    ])
      s)

add_to_zero : (c : Counter) (row : Counter → ℕ) (d : Counter) → add_to c 0 row d ≡ row d
add_to_zero c row d = go (Counter-discrete d c)
  where
    go : (same : Dec (d ≡ c)) → ite same (row d + 0) (row d) ≡ row d
    go (yes e) = omega arith
    go (no ne) = refl

add_column-counts :
    (c : Counter) (n : ℕ) (s : Store)
    → s.dialect ≡ sqlite
    → s.faults ≡ []
    → (d : Counter)
    → row_or_zeros (after (add_column c n s)).counters d ≡ add_to c n (row_or_zeros s.counters) d
unfolding add_column ensure_counters_row exec_on_conflict exec_
add_column-counts c n s lite ok d = rw (lite, ok, exec_) refl

added-counts :
    (c : Counter) (n : ℕ) (s : Store)
    → s.dialect ≡ sqlite
    → s.faults ≡ []
    → (d : Counter)
    → row_or_zeros (added n (some c) s).counters d ≡ add_to c n (row_or_zeros s.counters) d
added-counts c n s lite ok d =
    if_lem
      (λ (m : M (Unit {0})).
        row_or_zeros (after (m s)).counters d ≡ add_to c n (row_or_zeros s.counters) d)
      (n == 0) (return tt) (add_column c n)
      (λ e. sym (
        ap (λ k. add_to c k (row_or_zeros s.counters) d) ((==_iff n 0).0 e)
        ∙ add_to_zero c (row_or_zeros s.counters) d))
      (λ _. add_column-counts c n s lite ok d)

-- The number `after` that a counter `d` has, where `n` was added to `c` and `d` had `before`.
abbrev pub Added : Counter → ℕ → Counter → ℕ → ℕ → Type 0
Added c n d before after = ((d ≡ c) × (after ≡ before + n)) ⊎ (¬ (d ≡ c) × (after ≡ before))

add_to-Added :
    (c : Counter) (n : ℕ) (row : Counter → ℕ) (d : Counter) → Added c n d (row d) (add_to c n row d)
add_to-Added c n row d = go (Counter-discrete d c)
  where
    go : (same : Dec (d ≡ c)) → Added c n d (row d) (ite same (row d + n) (row d))
    go (yes e) = inl (e, refl)
    go (no ne) = inr (ne, refl)

-- On SQLite, where no statement fails, a known counter grows by what is added, and every other
-- counter stays as it was, a row of zeros standing for a missing one.
pub add_counter-counts :
    (name : Bytes) (c : Counter) (n : ℕ) (s : Store)
    → counter_column name ≡ some c
    → s.dialect ≡ sqlite
    → s.faults ≡ []
    → (d : Counter)
    → Added c n d
        (row_or_zeros s.counters d)
        (row_or_zeros (after (add_counter name n s)).counters d)
unfolding add_counter
add_counter-counts name c n s known lite ok d =
    let before = row_or_zeros s.counters in
    subst (λ found. Added c n d (before d) (row_or_zeros (added n found s).counters d)) (sym known)
      (subst (Added c n d (before d)) (sym (added-counts c n s lite ok d))
        (add_to-Added c n before d))
