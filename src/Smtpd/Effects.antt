-- ===== src/Smtpd/Effects.antt =====
-- What the statements of a session leave alone in the store: the accounts, and the queue but for
-- the row of a message that is accepted.
use carteiro.Text.Ascii.{normalize}
use carteiro.Storage.Types.{SendStatus, Account, Store, Counter}
use carteiro.Storage.Dkim.{get_dkim, find_key}
use carteiro.Storage.Sends.{
  set_send_status, known_send, log_count, change_log, with_status, bump_send_attempt, bumped,
  insert_send_log, delete_send_log, save_log, remove_log,
}
use carteiro.Sends.Recorder.{
  mark_delivered, mark_dead, bump_attempt, Recorder, Parsed, add, drop_send, new_log,
}
use carteiro.Storage.Db.{
  not_in_history, Outcome, M, ignore, after, bind, done, failed, exec_, return, fail,
  unknown_counter, spend, ◌>>◌,
}
use carteiro.Storage.Db.Rules.{
  exec-cases, exec_-cases, exec_on_conflict-cases, insert_unless-cases, query-cases,
}
use carteiro.Common.{
  Bool-cases, Bytes, In, List, Option, [], any, arith, if_lem, if◌then◌else◌, inl, inr, none, refl,
  some, ℕ, ◌++◌, ◌==◌, ◌∙◌, ◌∷◌, ◌≡◌,
}
use carteiro.Storage.Accounts.{get_account, find_account, has_email}
use carteiro.Storage.Counters.{
  add_counter, ensure_counters_row, add_column, bump_counter, make_counters, counter_column,
}
use carteiro.Storage.Queue.{enqueue_with_id, new_row, insert_row, wake, has_id}

-- The second store has the queue and the accounts of the first.
abbrev pub Kept : Store → Store → Type 0
Kept s t = (t.accounts ≡ s.accounts) × (t.queue ≡ s.queue)

pub Kept-trans : (s t u : Store) → Kept s t → Kept t u → Kept s u
Kept-trans s t u h k = (k.0 ∙ h.0, k.1 ∙ h.1)

abbrev KeptBy {ℓ} : {A : Type ℓ} → Store → Outcome A → Type 0
KeptBy s o = Kept s (after o)

ensure-Kept : (s : Store) → KeptBy s (ensure_counters_row s)
unfolding ensure_counters_row
ensure-Kept s = exec_on_conflict-cases (KeptBy s) s make_counters (refl, refl) (λ _. (refl, refl))

bump-Kept : (c : Counter) (n : ℕ) (s : Store) → KeptBy s (exec_ (bump_counter c n) s)
bump-Kept c n s = exec_-cases (KeptBy s) s (bump_counter c n) (refl, refl) (refl, refl)

bind-Kept :
    {A B : Type 0} (s : Store) (o : Outcome A) (f : A → M B)
    → KeptBy s o
    → ((a : A) (t : Store) → KeptBy t (f a t))
    → KeptBy s (bind o f)
bind-Kept s (done a t) f h k = Kept-trans s t (after (f a t)) h (k a t)
bind-Kept s (failed e t) f h k = h

add_column-Kept : (c : Counter) (n : ℕ) (s : Store) → KeptBy s (add_column c n s)
unfolding add_column
add_column-Kept c n s =
    bind-Kept s (ensure_counters_row s) (λ _. exec_ (bump_counter c n)) (ensure-Kept s)
      (λ _ t. bump-Kept c n t)

pub add_counter-Kept : (name : Bytes) (n : ℕ) (s : Store) → Kept s (after (add_counter name n s))
unfolding add_counter
add_counter-Kept name n s = go (counter_column name)
  where
    go :
        (found : Option Counter)
        → KeptBy s (
            elim found as (λ _. M (Unit {0})) [
              | none ↦ fail unknown_counter
              | some c ↦ if n == 0 then return tt else add_column c n
            ]
              s)
    go none = (refl, refl)
    go (some c) =
        if_lem (λ (m : M (Unit {0})). KeptBy s (m s)) (n == 0) (return tt) (add_column c n)
          (λ _. (refl, refl)) (λ _. add_column-Kept c n s)

ignore-Kept : {A : Type 0} (m : M A) (s : Store) → KeptBy s (m s) → KeptBy s (ignore m s)
ignore-Kept {A = A} m s h = go (m s) h
  where
    go : (o : Outcome A) → KeptBy s o → KeptBy s (ignore (λ _. o) s)
    go (done a t) h = h
    go (failed e t) h = h

pub add-Kept :
    (parse : Bytes → Parsed) (r : Option Recorder) (id sender : Bytes) (to : List Bytes)
    (raw : Bytes) (s : Store)
    → Kept s (after (add parse r id sender to raw s))
unfolding add insert_send_log
add-Kept parse none id sender to raw s = (refl, refl)
add-Kept parse (some r) id sender to raw s =
    ignore-Kept (insert_send_log (new_log parse r id sender to raw s.clock)) s (
      exec_on_conflict-cases (KeptBy s) s (save_log (new_log parse r id sender to raw s.clock))
        (refl, refl) (λ _. (refl, refl)))

pub drop_send-Kept :
    (r : Option Recorder) (id : Bytes) (s : Store) → Kept s (after (drop_send r id s))
unfolding drop_send delete_send_log
drop_send-Kept none id s = (refl, refl)
drop_send-Kept (some r) id s =
    ignore-Kept (exec_ (remove_log id)) s
      (exec_-cases (KeptBy s) s (remove_log id) (refl, refl) (refl, refl))

find_account-In :
    (email : Bytes) (accounts : List Account) (a : Account)
    → find_account email accounts ≡ some a
    → In a accounts
find_account-In email [] a h = absurd (cc h)
find_account-In email (x ∷ accounts) a h = elim (Bool-cases (has_email email x)) [
  | inl e ↦ inl (ground arith)
  | inr e ↦ inr (find_account-In email accounts a (ground arith))
]

-- What a look-up gives: an account of the table, and the store with the same tables.
abbrev pub Looked : Store → Outcome (Option Account) → Type 0
Looked s (failed e t) = Kept s t
Looked s (done none t) = Kept s t
Looked s (done (some a) t) = Kept s t × In a s.accounts

found-Looked :
    (s : Store) (o : Option Account)
    → ((a : Account) → o ≡ some a → In a s.accounts)
    → Looked s (done o (spend s))
found-Looked s none known = (refl, refl)
found-Looked s (some a) known = ((refl, refl), known a refl)

pub get_account-Looked : (email : Bytes) (s : Store) → Looked s (get_account email s)
unfolding get_account
get_account-Looked email s =
    let key = normalize email in
    query-cases (Looked s) s (λ t. find_account key t.accounts) (refl, refl)
      (found-Looked s (find_account key s.accounts) (find_account-In key s.accounts))

-- What `EnqueueWithID` does: on success the table has one more row, and on failure the same rows.
abbrev pub Queued : Bytes → Bytes → List Bytes → Bytes → Store → Outcome Bytes → Type 0
Queued id sender to raw s (failed e t) = Kept s t
Queued id sender to raw s (done qid t) =
    (qid ≡ id)
    × (t.accounts ≡ s.accounts)
    × (t.queue ≡ s.queue ++ new_row id sender to raw s.clock ∷ [])

pub enqueue-Queued :
    (id sender : Bytes) (to : List Bytes) (raw : Bytes) (s : Store)
    → Queued id sender to raw s (enqueue_with_id id sender to raw s)
unfolding enqueue_with_id insert_row wake
enqueue-Queued id sender [] raw s = (refl, refl)
enqueue-Queued id sender (a ∷ to) raw s =
    let r = new_row id sender (a ∷ to) raw s.clock in
    insert_unless-cases (λ o. Queued id sender (a ∷ to) raw s (bind o (λ _. wake >> return id))) s
      (λ t. any (has_id r.id) t.queue) (λ t. record t { queue = t.queue ++ r ∷ [] }) (refl, refl)
      (λ _. (refl, refl, refl))

-- The calls of the recorder by the relay.
set_status-Kept :
    (id : Bytes) (status : SendStatus) (text : Bytes) (s : Store)
    → KeptBy s (set_send_status id status text s)
unfolding set_send_status known_send
set_status-Kept id status text s =
    exec-cases (λ o. KeptBy s (bind o known_send)) s (log_count id)
      (change_log id (with_status status text)) (refl, refl)
      (known-Kept (log_count id s) (change_log id (with_status status text) (spend s)))
  where
    known-Kept : (n : ℕ) (t : Store) → KeptBy t (known_send n t)
    known-Kept n t =
        if_lem (λ (m : M (Unit {0})). KeptBy t (m t)) (n == 0) (fail not_in_history) (return tt)
          (λ _. (refl, refl)) (λ _. (refl, refl))

pub mark_delivered-Kept :
    (r : Option Recorder) (id : Bytes) (s : Store) → Kept s (after (mark_delivered r id s))
unfolding mark_delivered
mark_delivered-Kept none id s = (refl, refl)
mark_delivered-Kept (some r) id s =
    ignore-Kept (set_send_status id SendStatus.delivered []) s
      (set_status-Kept id SendStatus.delivered [] s)

pub mark_dead-Kept :
    (r : Option Recorder) (id reason : Bytes) (s : Store) → Kept s (after (mark_dead r id reason s))
unfolding mark_dead
mark_dead-Kept none id reason s = (refl, refl)
mark_dead-Kept (some r) id reason s =
    ignore-Kept (set_send_status id SendStatus.dead reason) s
      (set_status-Kept id SendStatus.dead reason s)

pub bump_attempt-Kept :
    (r : Option Recorder) (id : Bytes) (s : Store) → Kept s (after (bump_attempt r id s))
unfolding bump_attempt bump_send_attempt
bump_attempt-Kept none id s = (refl, refl)
bump_attempt-Kept (some r) id s =
    ignore-Kept (exec_ (change_log id bumped)) s
      (exec_-cases (KeptBy s) s (change_log id bumped) (refl, refl) (refl, refl))

pub get_dkim-Kept : (domain : Bytes) (s : Store) → Kept s (after (get_dkim domain s))
unfolding get_dkim
get_dkim-Kept domain s =
    query-cases (KeptBy s) s (λ t. find_key (normalize domain) t.dkim_keys) (refl, refl)
      (refl, refl)
