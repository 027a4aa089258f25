-- ===== src/Relay/Deliver/KeepsQueue.antt =====
-- internal/relay/deliver.go: a batch keeps the queue sound.
use carteiro.Common.{
  Bytes, List, Option, [], codes, false, if_lem, if◌then◌else◌, leb, length, ltb, none, not, some,
  suc, ◌&&◌, ◌+◌, ◌==◌, ◌∷◌,
}
use carteiro.Storage.Types.{Message, messages_delivered, DkimKey}
use carteiro.Storage.Db.{after, Outcome, done, failed}
use carteiro.Storage.Queue.{persist, succeed, next_due}
use carteiro.Storage.Queue.Soundness.{IsQueue}
use carteiro.Storage.Queue.Invariant.{call, call-IsQueue, persists, succeeds, releases, takes_due}
use carteiro.Sends.Recorder.{mark_delivered, bump_attempt}
use carteiro.Smtpd.Effects.{mark_delivered-Kept, bump_attempt-Kept, get_dkim-Kept}
use carteiro.Relay.Body.{normalize_crlf}
use carteiro.Relay.Domains.{domain_of}
use carteiro.Relay.Group.{Failure}
use carteiro.Relay.Deliver.{
  Deliverer, World, count_event, bury_message, Progress, Run, finished, postponed, run_groups,
  exhausted, postpone, retry_at, retry_later, all_rejected, complete, close_message, after_run,
  process_batch, prepare_body, deliver, deliver_all, batch_size, or_unsigned,
}
use carteiro.Storage.Dkim.{get_dkim}
use carteiro.Relay.Deliver.RunKeepsQueue.{
  HasQueue, RunHasQueue, bury_message-HasQueue, count_event-HasQueue, kept, run_groups-HasQueue,
}

postpone-HasQueue :
    (d : Deliverer) (m : Message) (w : World) → HasQueue w → HasQueue (postpone d m w)
unfolding postpone
postpone-HasQueue d m w h =
    let next = record m { next_attempt = retry_at d m.attempts w.store.clock } in
    unfold call in
    call-IsQueue (releases m.id) (after (persist next w.store))
      (call-IsQueue (persists next) w.store h)

retry_later-HasQueue :
    (d : Deliverer) (m : Message) (e : Failure) (p : Progress)
    → HasQueue p.world
    → HasQueue (retry_later d m e p)
unfolding retry_later
retry_later-HasQueue d m e p h =
    let m' = record m {
      to = p.remaining;
      permanent = p.permanent;
      last_error = e.text;
      attempts = m.attempts + 1;
    } in
    if_lem HasQueue (leb d.max_attempts m'.attempts)
      (bury_message d m.id (exhausted m'.attempts e.text) p.world) (postpone d m' p.world)
      (λ _. bury_message-HasQueue d m.id (exhausted m'.attempts e.text) p.world h)
      (λ _. postpone-HasQueue d m' p.world h)

complete-HasQueue :
    (d : Deliverer) (m : Message) (p : Progress) → HasQueue p.world → HasQueue (complete d m p)
unfolding complete
complete-HasQueue d m p h =
    go (succeed m.id p.world.store) (unfold call in call-IsQueue (succeeds m.id) p.world.store h)
  where
    go :
        (o : Outcome (Unit {0}))
        → IsQueue (after o).queue
        → HasQueue (elim o [
          | failed e t ↦ record p.world { store = t }
          | done u t ↦
              let w = record p.world { store = after (mark_delivered d.rec_ m.id t) } in
              if p.perm_count == 0
              then count_event messages_delivered (codes "messages_delivered") w
              else w
        ])
    go (failed e t) q = q
    go (done u t) q =
        let w = record p.world { store = after (mark_delivered d.rec_ m.id t) } in
        let k =
          kept t (after (mark_delivered d.rec_ m.id t)) (mark_delivered-Kept d.rec_ m.id t) q in
        if_lem HasQueue (p.perm_count == 0)
          (count_event messages_delivered (codes "messages_delivered") w) w
          (λ _. count_event-HasQueue messages_delivered (codes "messages_delivered") w k) (λ _. k)

after_run-HasQueue :
    (d : Deliverer) (m : Message) (r : Run) → RunHasQueue r → HasQueue (after_run d m r)
unfolding after_run close_message
after_run-HasQueue d m (postponed e p) h = retry_later-HasQueue d m e p h
after_run-HasQueue d m (finished p) h =
    if_lem HasQueue (not p.delivered_any && length p.remaining == 0 && ltb 0 p.perm_count)
      (bury_message d m.id (all_rejected p.permanent) p.world) (complete d m p)
      (λ _. bury_message-HasQueue d m.id (all_rejected p.permanent) p.world h)
      (λ _. complete-HasQueue d m p h)

prepare_body-HasQueue :
    (d : Deliverer) (m : Message) (w : World) → HasQueue w → HasQueue (prepare_body d m w).1
unfolding prepare_body
prepare_body-HasQueue d m w h = go (get_dkim (domain_of m.sender) w.store) (
    kept w.store (after (get_dkim (domain_of m.sender) w.store))
      (get_dkim-Kept (domain_of m.sender) w.store) h)
  where
    go :
        (o : Outcome (Option DkimKey))
        → IsQueue (after o).queue
        → HasQueue
            (elim o as (λ _. Bytes × World) [
              | failed e t ↦ (normalize_crlf m.content, record w { store = t })
              | done found t ↦ elim found as (λ _. Bytes × World) [
                | none ↦ (normalize_crlf m.content, record w { store = t })
                | some key ↦ (
                  or_unsigned
                      (normalize_crlf m.content)
                      (d.sign (normalize_crlf m.content) (domain_of m.sender) key),
                  record w { store = t },
                )
              ]
            ]).1
    go (failed e t) q = q
    go (done none t) q = q
    go (done (some key) t) q = q

deliver-HasQueue : (d : Deliverer) (m : Message) (w : World) → HasQueue w → HasQueue (deliver d m w)
unfolding deliver
deliver-HasQueue d m w h =
    let w' = record w { store = after (bump_attempt d.rec_ m.id w.store) } in
    let (body, w'') = prepare_body d m w' in
    let h'' : HasQueue w'' =
      prepare_body-HasQueue d m w'
        (kept w.store w'.store (bump_attempt-Kept d.rec_ m.id w.store) h) in
    let start : Progress = record {
      remaining = m.to;
      delivered_any = false;
      perm_count = 0;
      permanent = m.permanent;
      world = w'';
    } in
    let net = d.network m.sender body in
    after_run-HasQueue d m (run_groups (suc (length m.to)) net m start)
      (run_groups-HasQueue (suc (length m.to)) net m start h'')

deliver_all-HasQueue :
    (d : Deliverer) (msgs : List Message) (w : World) → HasQueue w → HasQueue (deliver_all d msgs w)
unfolding deliver_all
deliver_all-HasQueue d [] w h = h
deliver_all-HasQueue d (m ∷ msgs) w h =
    deliver_all-HasQueue d msgs (deliver d m w) (deliver-HasQueue d m w h)

-- A batch keeps the ids of the queue distinct and its rows sound, whatever the servers answer and
-- whatever statements fail.
pub process_batch-HasQueue : (d : Deliverer) (w : World) → HasQueue w → HasQueue (process_batch d w)
unfolding process_batch
process_batch-HasQueue d w h =
    let limit = batch_size d.concurrency in
    go (next_due w.store.clock limit w.store)
      (unfold call in call-IsQueue (takes_due w.store.clock limit) w.store h)
  where
    go :
        (o : Outcome (List Message))
        → IsQueue (after o).queue
        → HasQueue (elim o [
          | failed e t ↦ record w { store = t }
          | done msgs t ↦ deliver_all d msgs (record w { store = t })
        ])
    go (failed e t) q = q
    go (done msgs t) q = deliver_all-HasQueue d msgs (record w { store = t }) q
