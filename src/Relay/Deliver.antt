-- ===== src/Relay/Deliver.antt =====
-- internal/relay/deliver.go: `deliver`, `deadLetter`, `prepareBody` and `processBatch`. The messages
-- of a batch are delivered one after another here, where the code starts a goroutine for each.
pub mod Ends
pub mod RunKeepsQueue
pub mod KeepsQueue
pub mod Signed
use carteiro.Common.{
  Bool, Bytes, List, Option, [], codes, false, if◌then◌else◌, leb, length, ltb, none, not, some,
  suc, true, zero, ℕ, ◌&&◌, ◌*◌, ◌++◌, ◌+◌, ◌/◌, ◌==◌, ◌||◌, ◌∷◌,
}
use carteiro.Text.{itoa}
use carteiro.Storage.Types.{
  DkimKey, Message, Reasons, Store, Counter, delivery_attempts, messages_delivered, messages_dead,
}
use carteiro.Storage.Db.{after, done, failed}
use carteiro.Storage.Counters.{add_counter, add_to}
use carteiro.Storage.Dkim.{get_dkim}
use carteiro.Storage.Queue.{next_due, persist, succeed, release, dead_letter}
use carteiro.Sends.Recorder.{Recorder, bump_attempt, mark_delivered, mark_dead}
use carteiro.Relay.Body.{normalize_crlf}
use carteiro.Relay.Domains.{domain_of, split_by_domain, perm_summary}
use carteiro.Relay.Backoff.{backoff}
use carteiro.Relay.Group.{
  Failure, Network, settled, retry, group_result, set_reason, elem, has_reason, GroupResult,
}

-- `Deliverer` with the settings it reads. `sign` is `dkim.ParseSigner` and `dkim.Sign`: the signed
-- text, or `none` where one fails. `network` is what the MX servers answer to a sender and a body.
pub record Deliverer : Type 0 where
  pub max_attempts : ℕ
  pub retry_base : ℕ
  pub retry_max : ℕ
  pub concurrency : ℕ
  pub rec_ : Option Recorder
  pub sign : Bytes → Bytes → DkimKey → Option Bytes
  pub network : Bytes → Bytes → Network

-- The store and the metrics.
pub record World : Type 0 where
  pub store : Store
  pub metrics : Counter → ℕ

unfoldable pub count_event : Counter → Bytes → World → World
unfolding add_counter
count_event c name w = record w {
  store = after (add_counter name 1 w.store);
  metrics = add_to c 1 w.metrics;
}

abbrev pub or_unsigned : Bytes → Option Bytes → Bytes
or_unsigned body none = body
or_unsigned body (some signed) = signed

-- The body to send; a failure to sign leaves it unsigned.
unfoldable pub prepare_body : Deliverer → Message → World → Bytes × World
unfolding normalize_crlf domain_of get_dkim
prepare_body d m w =
    let body = normalize_crlf m.content in
    elim (get_dkim (domain_of m.sender) w.store) [
      | failed e t ↦ (body, record w { store = t })
      | done found t ↦ elim found [
        | none ↦ (body, record w { store = t })
        | some key ↦
            (or_unsigned body (d.sign body (domain_of m.sender) key), record w { store = t })
      ]
    ]

unfoldable pub bury_message : Deliverer → Bytes → Bytes → World → World
unfolding dead_letter mark_dead count_event
bury_message d id reason w = elim (dead_letter id reason w.store) [
  | failed e t ↦ record w { store = t }
  | done u t ↦
      count_event messages_dead (codes "messages_dead")
        (record w { store = after (mark_dead d.rec_ id reason t) })
]

-- The variables of the loop; `permanent` is `m.Permanent`.
pub record Progress : Type 0 where
  pub remaining : List Bytes
  pub delivered_any : Bool
  pub perm_count : ℕ
  pub permanent : Reasons
  pub world : World

-- The members of the group that were neither delivered to nor refused, each once.
unfoldable pub left_over : List Bytes → List Bytes → Reasons → List Bytes
left_over [] delivered perm = []
left_over (a ∷ group) delivered perm =
    let rest = left_over group delivered perm in
    if elem a delivered || has_reason a perm || elem a rest then rest else a ∷ rest

unfoldable pub merge_reasons : Reasons → Reasons → Reasons
unfolding set_reason
merge_reasons [] permanent = permanent
merge_reasons ((a, r) ∷ perm) permanent = merge_reasons perm (set_reason a r permanent)

abbrev pub is_some_list : List Bytes → Bool
is_some_list [] = false
is_some_list (a ∷ addrs) = true

-- What the loop does once a group is settled. An error of `Persist` is only logged.
unfoldable pub settle :
    Message → List Bytes → List Bytes → List Bytes → Reasons → Progress → Progress
unfolding left_over merge_reasons persist
settle m group keep delivered perm p =
    let remaining = keep ++ left_over group delivered perm in
    let permanent = merge_reasons perm p.permanent in
    let stored = persist (record m { to = remaining; permanent = permanent }) p.world.store in
    record {
      remaining = remaining;
      delivered_any = p.delivered_any || is_some_list delivered;
      perm_count = p.perm_count + length perm;
      permanent = permanent;
      world = record p.world { store = after stored };
    }

-- How the loop ends: with no recipient left, or at a group to try again.
pub data Run : Type 0 where
  finished : Progress → Run
  postponed : Failure → Progress → Run

-- What the loop does with the result of a group; `next` is the rounds to come.
unfoldable pub after_group :
    (Progress → Run) → Message → List Bytes → List Bytes → Progress → GroupResult → Run
unfolding settle
after_group next m group keep p (settled delivered perm) =
    next (settle m group keep delivered perm p)
after_group next m group keep p (retry e) = postponed e (record p { remaining = keep ++ group })

unfoldable pub count_attempt : Progress → Progress
unfolding count_event
count_attempt p = record p {
  world = count_event delivery_attempts (codes "delivery_attempts") p.world;
}

-- One round with the group of a domain.
unfoldable pub run_group :
    (Progress → Run) → Network → Message → Bytes → List Bytes → List Bytes → Progress → Run
unfolding group_result after_group count_attempt
run_group next net m domain group keep p =
    after_group next m group keep (count_attempt p) (group_result net domain group)

-- One round, for the recipients that remain.
unfoldable pub run_remaining : (Progress → Run) → Network → Message → Progress → List Bytes → Run
unfolding run_group split_by_domain domain_of
run_remaining next net m p [] = finished p
run_remaining next net m p (a ∷ addrs) =
    let (group, keep) = split_by_domain (a ∷ addrs) (domain_of a) in
    run_group next net m (domain_of a) group keep p

-- The loop, on fuel.
unfoldable pub run_groups : ℕ → Network → Message → Progress → Run
unfolding run_remaining
run_groups zero net m p = finished p
run_groups (suc fuel) net m p = run_remaining (run_groups fuel net m) net m p p.remaining

abbrev pub exhausted : ℕ → Bytes → Bytes
unfolding itoa
exhausted n text = codes "exhausted " ++ itoa n ++ codes " attempts: " ++ text

-- The time of the next attempt, in milliseconds; the delay is in nanoseconds.
unfoldable pub retry_at : Deliverer → ℕ → ℕ → ℕ
unfolding backoff
retry_at d attempts now = now + backoff d.retry_base d.retry_max attempts / 1000000

unfoldable pub postpone : Deliverer → Message → World → World
unfolding persist release retry_at
postpone d m w =
    let next = record m { next_attempt = retry_at d m.attempts w.store.clock } in
    record w { store = after (release m.id (after (persist next w.store))) }

unfoldable pub retry_later : Deliverer → Message → Failure → Progress → World
unfolding bury_message postpone exhausted
retry_later d m e p =
    let m' = record m {
      to = p.remaining;
      permanent = p.permanent;
      last_error = e.text;
      attempts = m.attempts + 1;
    } in
    if leb d.max_attempts m'.attempts
    then bury_message d m.id (exhausted m'.attempts e.text) p.world
    else postpone d m' p.world

abbrev pub all_rejected : Reasons → Bytes
unfolding perm_summary
all_rejected perm = codes "all recipients rejected the message permanently: " ++ perm_summary perm

unfoldable pub complete : Deliverer → Message → Progress → World
unfolding succeed mark_delivered count_event
complete d m p = elim (succeed m.id p.world.store) [
  | failed e t ↦ record p.world { store = t }
  | done u t ↦
      let w = record p.world { store = after (mark_delivered d.rec_ m.id t) } in
      if p.perm_count == 0 then count_event messages_delivered (codes "messages_delivered") w else w
]

unfoldable pub close_message : Deliverer → Message → Progress → World
unfolding bury_message complete all_rejected
close_message d m p =
    if not p.delivered_any && length p.remaining == 0 && ltb 0 p.perm_count
    then bury_message d m.id (all_rejected p.permanent) p.world
    else complete d m p

unfoldable pub after_run : Deliverer → Message → Run → World
unfolding retry_later close_message
after_run d m (postponed e p) = retry_later d m e p
after_run d m (finished p) = close_message d m p

-- Each round settles the recipients of a domain: as many rounds as there are recipients, and one, are
-- enough.
unfoldable pub deliver : Deliverer → Message → World → World
unfolding prepare_body run_groups after_run bump_attempt
deliver d m w =
    let (body, w') =
      prepare_body d m (record w { store = after (bump_attempt d.rec_ m.id w.store) }) in
    let start : Progress = record {
      remaining = m.to;
      delivered_any = false;
      perm_count = 0;
      permanent = m.permanent;
      world = w';
    } in
    after_run d m (run_groups (suc (length m.to)) (d.network m.sender body) m start)

unfoldable pub deliver_all : Deliverer → List Message → World → World
unfolding deliver
deliver_all d [] w = w
deliver_all d (m ∷ msgs) w = deliver_all d msgs (deliver d m w)

abbrev pub batch_size : ℕ → ℕ
batch_size concurrency = if ltb (concurrency * 2) 2 then 2 else concurrency * 2

unfoldable pub process_batch : Deliverer → World → World
unfolding next_due deliver_all
process_batch d w = elim (next_due w.store.clock (batch_size d.concurrency) w.store) [
  | failed e t ↦ record w { store = t }
  | done msgs t ↦ deliver_all d msgs (record w { store = t })
]
