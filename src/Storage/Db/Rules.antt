-- ===== src/Storage/Db/Rules.antt =====
-- One rule for each kind of statement: what holds if it fails and if it runs holds of it. The rules
-- with `_then` are for a statement that others follow.
use carteiro.Common.{Bool, Bool-cases, false, inl, inr, refl, ℕ, ◌≡◌}
use carteiro.Storage.Types.{Store, sqlite, Dialect, mysql}
use carteiro.Storage.Db.{
  Outcome, query, exec, exec_on_conflict, insert_unless, exec_, failed, db_failed, spend, done,
  next_fails,
}

module _ {ℓ} {A : Type 0} (P : Outcome A → Type ℓ) (s : Store) where
  pub query-cases :
      (f : Store → A) → P (failed db_failed (spend s)) → P (done (f s) (spend s)) → P (query f s)
  unfolding query
  query-cases f broken works = elim (Bool-cases (next_fails s.faults)) [
    | inl e ↦ rw (e, query) broken
    | inr e ↦ rw (e, query) works
  ]

module _ {ℓ} (P : Outcome (Unit {0}) → Type ℓ) (s : Store) where
  pub exec_-cases :
      (f : Store → Store)
      → P (failed db_failed (spend s))
      → P (done tt (f (spend s)))
      → P (exec_ f s)
  unfolding exec_
  exec_-cases f broken works = elim (Bool-cases (next_fails s.faults)) [
    | inl e ↦ rw (e, exec_) broken
    | inr e ↦ rw (e, exec_) works
  ]

  pub insert_unless-cases :
      (taken : Store → Bool) (f : Store → Store)
      → P (failed db_failed (spend s))
      → (taken s ≡ false → P (done tt (f (spend s))))
      → P (insert_unless taken f s)
  unfolding insert_unless
  insert_unless-cases taken f broken works = elim (Bool-cases (taken s)) [
    | inl e ↦ rw (e, insert_unless) broken
    | inr e ↦ rw (e, insert_unless) (exec_-cases f broken (works e))
  ]

  pub exec_on_conflict-cases :
      (f : Store → Store)
      → P (failed db_failed (spend s))
      → (s.dialect ≡ sqlite → P (done tt (f (spend s))))
      → P (exec_on_conflict f s)
  unfolding exec_on_conflict
  exec_on_conflict-cases f broken works = go s.dialect refl
    where
      go : (d : Dialect) → s.dialect ≡ d → P (exec_on_conflict f s)
      go sqlite e = rw (e, exec_on_conflict) (exec_-cases f broken (works e))
      go mysql e = rw (e, exec_on_conflict) broken

module _ {ℓ} (P : Outcome ℕ → Type ℓ) (s : Store) where
  pub exec-cases :
      (affected : Store → ℕ) (f : Store → Store)
      → P (failed db_failed (spend s))
      → P (done (affected s) (f (spend s)))
      → P (exec affected f s)
  unfolding exec
  exec-cases affected f broken works = elim (Bool-cases (next_fails s.faults)) [
    | inl e ↦ rw (e, exec) broken
    | inr e ↦ rw (e, exec) works
  ]
