-- ===== src/Storage/Queue/Prune.antt =====
-- The cap on dead letters.
use carteiro.Common.{
  All, All-map, Bool-cases, Bytes, In, In-All, In-filter, In-take, In-take-drop, In-unfilter, List,
  [], arith, count, drop, filter, inl, inr, map, refl, subst, sym, true, ℕ, ◌∷◌, ◌≡◌, ◌≢◌, ◌≤◌,
}
use carteiro.Storage.Types.{Row, Store}
use carteiro.Storage.Db.{exec_, after, order_by}
use carteiro.Storage.Queue.{is_dead, oldest_dead, older, dead_letter, bury, has_id, buried}
use carteiro.Storage.Db.Order.{All-order_by, In-order_by, IsSorted, order_by-IsSorted, take-le-drop}
use carteiro.Storage.Queue.Rows.{Unique, In-id-Unique, update-Unique}
use carteiro.Storage.Queue.Deletions.{
  In-ids, count-survivors, dead_rows, hit, hit-dead, hit-victim, kept, over_cap, prune_dead-queue,
  victims, hit-In,
}

In-of-ids :
    (rows : List Row) (id : Bytes)
    → In id (map (λ (q : Row). q.id) rows)
    → (r : Row) × In r rows × (r.id ≡ id)
In-of-ids [] id i = absurd i.1
In-of-ids (q ∷ rows) id (inl e) = (q, inl refl, sym e)
In-of-ids (q ∷ rows) id (inr i) = let (r, j, e) = In-of-ids rows id i in (r, inr j, e)

In-unorder : (r : Row) (rows : List Row) → In r (order_by older rows) → In r rows
In-unorder r rows i = In-All (λ q. In q rows) r _ (All-order_by older _ rows (self rows)) i
  where
    widen : (q : Row) (qs : List Row) → All (λ x. In x qs) qs → All (λ x. In x (q ∷ qs)) qs
    widen q qs = All-map (λ x. In x qs) (λ x. In x (q ∷ qs)) (λ x j. inr j) qs

    self : (qs : List Row) → All (λ x. In x qs) qs
    self [] = tt
    self (q ∷ qs) = (inl refl, widen q qs (self qs))

victim_of :
    (over : ℕ) (rows : List Row) (v : Row)
    → Unique rows
    → In v rows
    → hit (oldest_dead over rows) v ≡ true
    → In v (victims over rows)
unfolding oldest_dead
victim_of over rows v u i h =
    let (w, j, e) = In-of-ids (victims over rows) v.id (hit-In (oldest_dead over rows) v h) in
    let k = In-unfilter is_dead w rows (In-unorder w _ (In-take over w (dead_rows rows) j)) in
    subst (λ x. In x (victims over rows)) (In-id-Unique rows w v u k.1 i e) j

survivor_behind :
    (over : ℕ) (rows : List Row) (r : Row)
    → In r rows
    → is_dead r ≡ true
    → kept (oldest_dead over rows) r ≡ true
    → In r (drop over (dead_rows rows))
unfolding oldest_dead
survivor_behind over rows r i d k =
    let j = In-order_by older r (filter is_dead rows) (In-filter is_dead r rows d i) in
    elim (In-take-drop over r (dead_rows rows) j) [
      | inl early ↦
          let caught =
            hit-victim (oldest_dead over rows) r (In-ids (victims over rows) r early) d in
          absurd (ground arith)
      | inr late ↦ late
    ]

pub older-IsSorted : (rows : List Row) → IsSorted older (order_by older rows)
older-IsSorted = order_by-IsSorted older (λ x y h. ground arith) (λ x y z h k. ground arith)

survivors_newer :
    (over : ℕ) (rows : List Row) (v : Row)
    → Unique rows
    → In v rows
    → ¬ In v (filter (kept (oldest_dead over rows)) rows)
    → (is_dead v ≡ true)
      × ((r : Row)
          → In r (filter (kept (oldest_dead over rows)) rows)
          → is_dead r ≡ true
          → v.created_at ≤ r.created_at)
survivors_newer over rows v u i gone = elim (Bool-cases (hit ids v)) [
  | inl caught ↦ (hit-dead ids v caught, λ r j d. behind caught r j d)
  | inr free ↦ absurd (gone (In-filter (kept ids) v rows (ground arith) i))
]
  where
    ids : List Bytes
    ids = oldest_dead over rows

    behind :
        hit ids v ≡ true
        → (r : Row) → In r (filter (kept ids) rows)
        → is_dead r ≡ true
        → v.created_at ≤ r.created_at
    behind caught r j d =
        let (k, m) = In-unfilter (kept ids) r rows j in
        let ahead =
          In-All (λ x. All (λ y. older x y ≡ true) (drop over (dead_rows rows))) v _
            (take-le-drop older over (dead_rows rows) (older-IsSorted (filter is_dead rows)))
            (victim_of over rows v u i caught) in
        let e = In-All (λ y. older v y ≡ true) r _ ahead (survivor_behind over rows r m d k) in
        ground arith

dead_letter-queue :
    (id reason : Bytes) (s : Store)
    → s.faults ≡ []
    → s.dead_max ≢ 0
    → let t = bury id reason s in
      (after (dead_letter id reason s)).queue
      ≡ filter (kept (oldest_dead (over_cap t) t.queue)) t.queue
unfolding dead_letter exec_
dead_letter-queue id reason s ok capped =
    rw ok (prune_dead-queue (record (bury id reason s) { faults = [] }) refl capped)

-- Where the dead letters are capped and no statement fails, the dead rows keep to the cap after a
-- dead letter.
pub dead_letter-capped :
    (id reason : Bytes) (s : Store)
    → s.faults ≡ []
    → s.dead_max ≢ 0
    → count is_dead (after (dead_letter id reason s)).queue ≤ s.dead_max
dead_letter-capped id reason s ok capped =
    let t = bury id reason s in
    rw (dead_letter-queue id reason s ok capped)
      (omega (arith, count-survivors (over_cap t) t.queue))

-- Where the ids are distinct, the dead letters are capped and no statement fails, a dead letter
-- deletes dead rows alone, and of these the oldest: each row that goes is dead and was created no
-- later than any dead row that stays.
pub dead_letter-drops_oldest :
    (id reason : Bytes) (s : Store) (v : Row)
    → s.faults ≡ []
    → s.dead_max ≢ 0
    → Unique s.queue
    → In v (bury id reason s).queue
    → ¬ In v (after (dead_letter id reason s)).queue
    → (is_dead v ≡ true)
      × ((r : Row)
          → In r (after (dead_letter id reason s)).queue
          → is_dead r ≡ true
          → v.created_at ≤ r.created_at)
dead_letter-drops_oldest id reason s v ok capped u i gone =
    let rows = (bury id reason s).queue in
    let left = dead_letter-queue id reason s ok capped in
    let (d, older_first) =
      survivors_newer (over_cap (bury id reason s)) rows v
        (update-Unique (has_id id) (buried reason) (λ r. refl) s.queue u) i (rw left at gone) in
    (d, λ r j. older_first r (rw left at j))
