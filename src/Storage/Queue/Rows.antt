-- ===== src/Storage/Queue/Rows.antt =====
-- The rows of `queue_messages`: distinct ids, and what an `UPDATE` leaves as it was.
use carteiro.Common.{
  Bool, Bytes, In, List, [], any, ap, arith, count, false, inl, inr, refl, str_eq, str_eq_complete,
  str_eq_sound, sym, true, ◌&&◌, ◌++◌, ◌||◌, ◌∙◌, ◌∷◌, ◌≡◌, ◌≤◌,
}
use carteiro.Storage.Types.{Row}
use carteiro.Storage.Db.{update_where, delete_where}
use carteiro.Storage.Queue.{has_id}

-- The primary key: no two rows have the same id.
abbrev pub Unique : List Row → Type 0
Unique [] = Unit
Unique (r ∷ rows) = (any (has_id r.id) rows ≡ false) × Unique rows

-- The change keeps a row's id.
abbrev pub KeepsId : (Row → Row) → Type 0
KeepsId f = (r : Row) → (f r).id ≡ r.id

pub any_id-update :
    (p : Row → Bool) (f : Row → Row) (keeps : KeepsId f) (id : Bytes) (rows : List Row)
    → any (has_id id) (update_where p f rows) ≡ any (has_id id) rows
any_id-update p f keeps id [] = refl
any_id-update p f keeps id (r ∷ rows) = ground (arith, keeps r, any_id-update p f keeps id rows)

pub update-Unique :
    (p : Row → Bool) (f : Row → Row)
    → KeepsId f
    → (rows : List Row) → Unique rows
    → Unique (update_where p f rows)
update-Unique p f keeps [] u = tt
update-Unique p f keeps (r ∷ rows) u =
    ground (arith, keeps r, any_id-update p f keeps r.id rows, update-Unique p f keeps rows u.1)

pub any_id-delete :
    (p : Row → Bool) (id : Bytes) (rows : List Row)
    → any (has_id id) rows ≡ false
    → any (has_id id) (delete_where p rows) ≡ false
any_id-delete p id [] h = refl
any_id-delete p id (r ∷ rows) h = ground (arith, any_id-delete p id rows)

pub delete-Unique : (p : Row → Bool) (rows : List Row) → Unique rows → Unique (delete_where p rows)
delete-Unique p [] u = tt
delete-Unique p (r ∷ rows) u = ground (arith, any_id-delete p r.id rows, delete-Unique p rows u.1)

pub any_id-append :
    (id : Bytes) (rows : List Row) (r : Row)
    → any (has_id id) (rows ++ r ∷ []) ≡ (any (has_id id) rows || has_id id r)
any_id-append id [] r = ground arith
any_id-append id (q ∷ rows) r = ground (arith, any_id-append id rows r)

str_eq-swap : (a b : Bytes) → str_eq a b ≡ true → str_eq b a ≡ true
str_eq-swap a b h = str_eq_complete b a (sym (str_eq_sound a b h))

pub append-Unique :
    (rows : List Row) (r : Row)
    → Unique rows
    → any (has_id r.id) rows ≡ false
    → Unique (rows ++ r ∷ [])
append-Unique [] r u h = (refl, tt)
append-Unique (q ∷ rows) r u h =
    ground (arith, any_id-append q.id rows r, append-Unique rows r u.1, str_eq-swap r.id q.id)

-- With no row of that id no row passes a test that asks for the id.
pub count_absent :
    (id : Bytes) (q : Row → Bool) (rows : List Row)
    → any (has_id id) rows ≡ false
    → count (λ r. has_id id r && q r) rows ≡ 0
count_absent id q [] h = refl
count_absent id q (r ∷ rows) h = ground (arith, count_absent id q rows)

-- A row with the id of one that is ahead of it would break the key.
pub absent_behind :
    (r : Row) (rows : List Row) (id : Bytes)
    → any (has_id r.id) rows ≡ false
    → has_id id r ≡ true
    → any (has_id id) rows ≡ false
absent_behind r rows id h e = rw (sym (str_eq_sound r.id id e)) h

pub count-Unique :
    (id : Bytes) (q : Row → Bool) (rows : List Row)
    → Unique rows
    → count (λ r. has_id id r && q r) rows ≤ 1
count-Unique id q [] u = omega arith
count-Unique id q (r ∷ rows) u =
    ground (arith, absent_behind r rows id u.0, count_absent id q rows, count-Unique id q rows u.1)

pub any_id-In :
    (id : Bytes) (rows : List Row) (r : Row) → In r rows → r.id ≡ id → any (has_id id) rows ≡ true
any_id-In id [] r i e = absurd i.1
any_id-In id (q ∷ rows) r (inl p) e =
    ground (arith, str_eq_complete q.id id (ap (λ (x : Row). x.id) (sym p) ∙ e))
any_id-In id (q ∷ rows) r (inr i) e = ground (arith, any_id-In id rows r i e)

-- Rows with one id are one row.
pub In-id-Unique :
    (rows : List Row) (a b : Row) → Unique rows → In a rows → In b rows → a.id ≡ b.id → a ≡ b
In-id-Unique [] a b u i j e = absurd i.1
In-id-Unique (r ∷ rows) a b u (inl p) (inl q) e = p ∙ sym q
In-id-Unique (r ∷ rows) a b u (inl p) (inr j) e =
    cc (any_id-In r.id rows b j (sym e ∙ ap (λ (x : Row). x.id) p), u.0)
In-id-Unique (r ∷ rows) a b u (inr i) (inl q) e =
    cc (any_id-In r.id rows a i (e ∙ ap (λ (x : Row). x.id) q), u.0)
In-id-Unique (r ∷ rows) a b u (inr i) (inr j) e = In-id-Unique rows a b u.1 i j e
