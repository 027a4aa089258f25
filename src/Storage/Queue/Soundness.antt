-- ===== src/Storage/Queue/Soundness.antt =====
-- What holds of the queue after it grew, was claimed from or was persisted, whatever statements fail.
use mathlib.Core.List.{cons-ne-nil}
use carteiro.Common.{
  All, All-append, Bool, Bool-cases, Bytes, List, [], any, arith, false, if◌then◌else◌, inl, inr,
  map, refl, true, ℕ, ◌++◌, ◌+◌, ◌==◌, ◌∷◌, ◌≡◌, ◌≢◌,
}
use carteiro.Storage.Types.{Row, Message, Store}
use carteiro.Storage.Db.{after, update_where, delete_where, Outcome, bind, spend, return}
use carteiro.Storage.Queue.{
  is_dead, has_id, claim_all, enqueue_with_id, next_due, new_row, claim, persist, persisted,
  persist_to, is_claimable, leased, lease_timeout, scan_message, wake, write_progress, claims,
  take_lease, candidates, default_limit,
}
use carteiro.Storage.Queue.Rows.{Unique, KeepsId, update-Unique, delete-Unique, append-Unique}
use carteiro.Storage.Db.Rules.{insert_unless-cases, query-cases, exec-cases, exec_-cases}

-- A row has recipients left, names a worker only under a lease, and is under none once it is dead.
pub record IsSound (r : Row) : Type 0 where
  pub addressed : r.to ≢ []
  pub unowned : r.lease_until ≡ 0 → r.worker_id ≡ []
  pub dead_free : is_dead r ≡ true → r.lease_until ≡ 0

pub record IsQueue (rows : List Row) : Type 0 where
  pub unique : Unique rows
  pub sound : All IsSound rows

update-IsSound :
    (p : Row → Bool) (f : Row → Row)
    → ((r : Row) → p r ≡ true → IsSound r → IsSound (f r))
    → (rows : List Row) → All IsSound rows
    → All IsSound (update_where p f rows)
update-IsSound p f keeps [] h = tt
update-IsSound p f keeps (r ∷ rows) h = (
  elim (Bool-cases (p r)) [ inl hit ↦ rw hit (keeps r hit h.0) | inr miss ↦ rw miss h.0 ],
  update-IsSound p f keeps rows h.1,
)

pub update-IsQueue :
    (p : Row → Bool) (f : Row → Row)
    → KeepsId f
    → ((r : Row) → p r ≡ true → IsSound r → IsSound (f r))
    → (rows : List Row) → IsQueue rows
    → IsQueue (update_where p f rows)
update-IsQueue p f keeps sound rows q = record {
  unique = update-Unique p f keeps rows q.unique;
  sound = update-IsSound p f sound rows q.sound;
}

All-filter :
    (p : Row → Bool) (rows : List Row) → All IsSound rows → All IsSound (delete_where p rows)
All-filter p [] h = tt
All-filter p (r ∷ rows) h = ground (arith, All-filter p rows)

pub delete-IsQueue :
    (p : Row → Bool) (rows : List Row) → IsQueue rows → IsQueue (delete_where p rows)
delete-IsQueue p rows q = record {
  unique = delete-Unique p rows q.unique;
  sound = All-filter p rows q.sound;
}

-- The invariant holds after the call, whether it failed or not.
abbrev pub Keeps : {A : Type 0} → Outcome A → Type 0
Keeps o = IsQueue (after o).queue

insert-IsQueue :
    (r : Row) (rows : List Row)
    → IsSound r
    → any (has_id r.id) rows ≡ false
    → IsQueue rows
    → IsQueue (rows ++ r ∷ [])
insert-IsQueue r rows sound fresh q = record {
  unique = append-Unique rows r q.unique fresh;
  sound = All-append IsSound rows (r ∷ []) q.sound (sound, tt);
}

new_row-IsSound :
    (id sender : Bytes) (to : List Bytes) (content : Bytes) (now : ℕ)
    → to ≢ []
    → IsSound (new_row id sender to content now)
new_row-IsSound id sender to content now h = record {
  addressed = h;
  unowned = λ _. refl;
  dead_free = λ _. refl;
}

pub enqueue-IsQueue :
    (id sender : Bytes) (to : List Bytes) (content : Bytes) (s : Store)
    → IsQueue s.queue
    → Keeps (enqueue_with_id id sender to content s)
unfolding enqueue_with_id
enqueue-IsQueue id sender [] content s q = q
enqueue-IsQueue id sender (a ∷ to) content s q =
    let row = new_row id sender (a ∷ to) content s.clock in
    insert_unless-cases (λ o. Keeps (bind o (λ _ t. bind (wake t) (λ _. return id)))) s
      (λ t. any (has_id id) t.queue) (λ t. record t { queue = t.queue ++ row ∷ [] }) q
      (λ fresh.
        insert-IsQueue row s.queue
          (new_row-IsSound id sender (a ∷ to) content s.clock (cons-ne-nil a to)) fresh q)

leased-IsSound :
    (now : ℕ) (id worker : Bytes) (r : Row)
    → is_claimable now id r ≡ true
    → IsSound r
    → IsSound (leased (now + lease_timeout) worker r)
unfolding is_claimable
leased-IsSound now id worker r h v = record {
  addressed = v.addressed;
  unowned = λ e. absurd (omega arith);
  dead_free = λ e. ground arith;
}

claim_all-IsQueue :
    (now : ℕ) (msgs ready : List Message) (s : Store)
    → IsQueue s.queue
    → Keeps (claim_all now msgs ready s)
unfolding claim_all claim
claim_all-IsQueue now [] ready s q = q
claim_all-IsQueue now (m ∷ msgs) ready s q =
    exec-cases
      (λ o. Keeps (bind o (λ n. claim_all now msgs (if n == 1 then ready ++ m ∷ [] else ready)))) s
      (claims now m.id) (take_lease now m.id) q
      (claim_all-IsQueue now msgs _ (take_lease now m.id (spend s)) (
        update-IsQueue (is_claimable now m.id) _ (λ r. refl) (leased-IsSound now m.id s.instance_id)
          s.queue q))

pub next_due-IsQueue : (now limit : ℕ) (s : Store) → IsQueue s.queue → Keeps (next_due now limit s)
unfolding next_due
next_due-IsQueue now limit s q =
    query-cases (λ o. Keeps (bind o (λ rows. claim_all now (map scan_message rows) []))) s
      (λ t. candidates now (default_limit limit) t.queue) q
      (claim_all-IsQueue now (map scan_message (candidates now (default_limit limit) s.queue)) []
        (spend s) q)

persisted-IsSound : (m : Message) (r : Row) → m.to ≢ [] → IsSound r → IsSound (persisted m r)
persisted-IsSound m r h v = record { addressed = h; unowned = λ _. refl; dead_free = λ _. refl }

persist_to-IsQueue :
    (to : List Bytes) (m : Message) (s : Store)
    → (to ≢ [] → m.to ≢ [])
    → IsQueue s.queue
    → Keeps (persist_to to m s)
unfolding persist_to
persist_to-IsQueue [] m s h q = q
persist_to-IsQueue (a ∷ to) m s h q = exec_-cases Keeps s (write_progress m) q (
    update-IsQueue (has_id m.id) (persisted m) (λ r. refl)
      (λ r _. persisted-IsSound m r (h (cons-ne-nil a to))) s.queue q)

pub persist-IsQueue : (m : Message) (s : Store) → IsQueue s.queue → Keeps (persist m s)
unfolding persist
persist-IsQueue m s q = persist_to-IsQueue m.to m s (λ h. h) q
