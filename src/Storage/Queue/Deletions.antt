-- ===== src/Storage/Queue/Deletions.antt =====
-- internal/storage/queue.go: which rows the deletions of pruneDead hit, and how many dead rows they leave.
use carteiro.Common.{
  All, Bool, Bool-cases, Bytes, In, List, [], ap, arith, count, count-filter, count-le-length,
  count-take-drop, count_congr, count_none, drop, false, filter, filter-filter, filter_congr, inl,
  inr, length, length-drop, length-filter, map, not, refl, str_eq_complete, str_eq_sound, suc, sym,
  take, true, zero, ℕ, ◌&&◌, ◌-◌, ◌==◌, ◌||◌, ◌∙◌, ◌∷◌, ◌≡◌, ◌≢◌, ◌≤◌,
}
use carteiro.Storage.Types.{Row, Store}
use carteiro.Storage.Db.{exec_, after, order_by, query}
use carteiro.Storage.Queue.{
  delete_dead, dead_with_id, is_dead, drop_dead, oldest_dead, prune_dead, prune_over, older,
}
use carteiro.Storage.Db.Order.{All-order_by, count-order_by, length-order_by}

-- The row is the victim of one of the deletions.
pub hit : List Bytes → Row → Bool
hit [] r = false
hit (id ∷ ids) r = dead_with_id id r || hit ids r

abbrev pub kept : List Bytes → Row → Bool
kept ids r = not (hit ids r)

keep_all : (rows : List Row) → filter (kept []) rows ≡ rows
unfolding hit
keep_all [] = refl
keep_all (r ∷ rows) = ap (◌∷◌ r) (keep_all rows)

delete_dead-queue :
    (ids : List Bytes) (s : Store)
    → s.faults ≡ []
    → (after (delete_dead ids s)).queue ≡ filter (kept ids) s.queue
unfolding delete_dead exec_ hit
delete_dead-queue [] s ok = sym (keep_all s.queue)
delete_dead-queue (id ∷ ids) s ok = rw ok (
    delete_dead-queue ids (record (drop_dead id s) { faults = [] }) refl
    ∙ filter-filter (kept ids) (λ r. not (dead_with_id id r)) s.queue
    ∙ filter_congr _ (kept (id ∷ ids)) (λ r. ground arith) s.queue)

-- A row whose id is on the list and that is dead is hit.
pub hit-victim : (ids : List Bytes) (r : Row) → In r.id ids → is_dead r ≡ true → hit ids r ≡ true
unfolding hit
hit-victim [] r i d = absurd i.1
hit-victim (id ∷ ids) r (inl e) d = ground (arith, str_eq_complete r.id id e)
hit-victim (id ∷ ids) r (inr i) d = ground (arith, hit-victim ids r i d)

pub hit-dead : (ids : List Bytes) (r : Row) → hit ids r ≡ true → is_dead r ≡ true
unfolding hit
hit-dead [] r h = cc
hit-dead (id ∷ ids) r h = ground (arith, hit-dead ids r)

All-victims :
    (rows : List Row) (ids : List Bytes)
    → ((r : Row) → In r rows → In r.id ids)
    → All (λ r. is_dead r ≡ true) rows
    → All (λ r. (is_dead r && kept ids r) ≡ false) rows
All-victims [] ids h d = tt
All-victims (r ∷ rows) ids h d = (
  ground (arith, hit-victim ids r (h r (inl refl))),
  All-victims rows ids (λ q i. h q (inr i)) d.1,
)

pub In-ids : (rows : List Row) (r : Row) → In r rows → In r.id (map (λ (q : Row). q.id) rows)
In-ids [] r i = absurd i.1
In-ids (q ∷ rows) r (inl e) = inl (ap (λ (x : Row). x.id) e)
In-ids (q ∷ rows) r (inr i) = inr (In-ids rows r i)

abbrev pub dead_rows : List Row → List Row
dead_rows rows = order_by older (filter is_dead rows)

abbrev pub victims : ℕ → List Row → List Row
victims over rows = take over (dead_rows rows)

prune_over-queue :
    (over : ℕ) (s : Store)
    → s.faults ≡ []
    → (after (prune_over over s)).queue ≡ filter (kept (oldest_dead over s.queue)) s.queue
unfolding prune_over query oldest_dead
prune_over-queue zero s ok = sym (keep_all s.queue)
prune_over-queue (suc over) s ok =
    rw ok (delete_dead-queue (oldest_dead (suc over) s.queue) (record s { faults = [] }) refl)

abbrev pub over_cap : Store → ℕ
over_cap s = count is_dead s.queue - s.dead_max

pub prune_dead-queue :
    (s : Store)
    → s.faults ≡ []
    → s.dead_max ≢ 0
    → (after (prune_dead s)).queue ≡ filter (kept (oldest_dead (over_cap s) s.queue)) s.queue
unfolding prune_dead query
prune_dead-queue s ok capped = elim (Bool-cases (s.dead_max == 0)) [
  | inl e ↦ absurd (capped (ground arith))
  | inr e ↦ rw (e, ok) (prune_over-queue (over_cap s) (record s { faults = [] }) refl)
]

All-dead : (rows : List Row) → All (λ r. is_dead r ≡ true) (filter is_dead rows)
All-dead [] = tt
All-dead (r ∷ rows) = ground (arith, All-dead rows)

All-take :
    (n : ℕ) (rows : List Row)
    → All (λ r. is_dead r ≡ true) rows
    → All (λ r. is_dead r ≡ true) (take n rows)
All-take zero rows h = tt
All-take (suc n) [] h = tt
All-take (suc n) (r ∷ rows) h = (h.0, All-take n rows h.1)

-- At most the rest of the dead rows survive the deletion of the first `over`.
pub count-survivors :
    (over : ℕ) (rows : List Row)
    → count is_dead (filter (kept (oldest_dead over rows)) rows) ≤ count is_dead rows - over
unfolding oldest_dead
count-survivors over rows =
    let ids = oldest_dead over rows in
    let survives = λ (r : Row). is_dead r && kept ids r in
    let sorted = dead_rows rows in
    let gone : count survives (victims over rows) ≡ 0 = count_none survives (victims over rows) (
      All-victims (victims over rows) ids (In-ids (victims over rows))
        (All-take over sorted (All-order_by older _ (filter is_dead rows) (All-dead rows)))) in
    let same : count is_dead (filter (kept ids) rows) ≡ count survives sorted =
      count-filter is_dead (kept ids) rows
      ∙ count_congr _ (λ r. is_dead r && survives r) (λ r. ground arith) rows
      ∙ sym (count-filter survives is_dead rows)
      ∙ sym (count-order_by older survives (filter is_dead rows)) in
    let all : length sorted ≡ count is_dead rows =
      length-order_by older (filter is_dead rows) ∙ length-filter is_dead rows in
    omega (
      arith,
      same,
      gone,
      all,
      count-take-drop survives over sorted,
      count-le-length survives (drop over sorted),
      length-drop over sorted,
    )

pub hit-In : (ids : List Bytes) (r : Row) → hit ids r ≡ true → In r.id ids
unfolding hit
hit-In [] r h = cc
hit-In (id ∷ ids) r h = elim (Bool-cases (dead_with_id id r)) [
  | inl e ↦ inl (str_eq_sound r.id id (ground arith))
  | inr e ↦ inr (hit-In ids r (ground arith))
]
