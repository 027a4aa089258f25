-- ===== src/Storage/Db.antt =====
-- The calls of `database/sql`: a statement runs whole or fails, and which ones fail is up to the
-- database. An operation is a chain of statements that stops at the first error.
pub mod Rules
pub mod Order
use carteiro.Common.{Bool, List, [], false, filter, if◌then◌else◌, not, ℕ, ◌∷◌}
use carteiro.Storage.Types.{Store, sqlite, mysql}

-- The errors that the operations of the package return, without their texts.
pub data Error : Type 0 where
  db_failed no_recipients not_dead not_in_history unknown_counter : Error
  empty_email empty_password hash_failed not_found dkim_required : Error

pub data Outcome {ℓ} (A : Type ℓ) : Type ℓ where
  done : A → Store → Outcome A
  failed : Error → Store → Outcome A

abbrev pub M : Type 0 → Type 0
M A = Store → Outcome A

abbrev pub bind {ℓ κ} : {A : Type ℓ} {B : Type κ} → Outcome A → (A → Store → Outcome B) → Outcome B
bind (done a s) f = f a s
bind (failed e s) f = failed e s

infixl 5 ◌>>=◌ ◌>>◌
abbrev pub ◌>>=◌ : {A B : Type 0} → M A → (A → M B) → M B
◌>>=◌ m f s = bind (m s) f

abbrev pub ◌>>◌ : {A B : Type 0} → M A → M B → M B
◌>>◌ m k s = bind (m s) (λ _. k)

abbrev pub return : {A : Type 0} → A → M A
return a s = done a s

abbrev pub fail : {A : Type 0} → Error → M A
fail e s = failed e s

-- `_ = m`: the caller goes on after an error.
abbrev pub ignore : {A : Type 0} → M A → M (Unit {0})
ignore m s = elim (m s) [ done _ t ↦ done tt t | failed _ t ↦ done tt t ]

-- The store after an operation, whether it failed or not.
abbrev pub after {ℓ} : {A : Type ℓ} → Outcome A → Store
after (done _ s) = s
after (failed _ s) = s

-- Whether the next statement fails; that one is then used up.
abbrev pub next_fails : List Bool → Bool
next_fails [] = false
next_fails (b ∷ bs) = b

abbrev pub later : List Bool → List Bool
later [] = []
later (b ∷ bs) = bs

abbrev pub spend : Store → Store
spend s = record s { faults = later s.faults }

-- `QueryContext` and `QueryRowContext` with the scan of the rows.
unfoldable pub query : {A : Type 0} → (Store → A) → M A
query f s = if next_fails s.faults then failed db_failed (spend s) else done (f s) (spend s)

-- `ExecContext`. The first function says how many rows the statement affects.
unfoldable pub exec : (Store → ℕ) → (Store → Store) → M ℕ
exec affected f s =
    if next_fails s.faults then failed db_failed (spend s) else done (affected s) (f (spend s))

-- A statement whose result is not read.
unfoldable pub exec_ : (Store → Store) → M (Unit {0})
exec_ f s = if next_fails s.faults then failed db_failed (spend s) else done tt (f (spend s))

-- An `INSERT` that the primary key refuses if the test holds.
unfoldable pub insert_unless : (Store → Bool) → (Store → Store) → M (Unit {0})
unfolding exec_
insert_unless taken f s = if taken s then failed db_failed (spend s) else exec_ f s

-- A statement with `ON CONFLICT`: SQLite has that clause, and MySQL refuses the text.
unfoldable pub exec_on_conflict : (Store → Store) → M (Unit {0})
unfolding exec_
exec_on_conflict f s = elim s.dialect [ sqlite ↦ exec_ f s | mysql ↦ failed db_failed (spend s) ]

module _ {A : Type 0} where
  -- `UPDATE … WHERE`.
  abbrev pub update_where : (A → Bool) → (A → A) → List A → List A
  update_where p f [] = []
  update_where p f (x ∷ xs) = (if p x then f x else x) ∷ update_where p f xs

  -- `DELETE … WHERE`.
  abbrev pub delete_where : (A → Bool) → List A → List A
  delete_where p = filter (λ x. not (p x))

  -- `ORDER BY`: a stable insertion sort, where `le x y` lets `x` stand before `y`. Rows with equal
  -- keys keep the table's order, which SQL leaves open.
  unfoldable pub insert_by : (A → A → Bool) → A → List A → List A
  insert_by le x [] = x ∷ []
  insert_by le x (y ∷ ys) = if le x y then x ∷ y ∷ ys else y ∷ insert_by le x ys

  unfoldable pub order_by : (A → A → Bool) → List A → List A
  unfolding insert_by
  order_by le [] = []
  order_by le (x ∷ xs) = insert_by le x (order_by le xs)
