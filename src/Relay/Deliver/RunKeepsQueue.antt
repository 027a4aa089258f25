-- ===== src/Relay/Deliver/RunKeepsQueue.antt =====
-- internal/relay/deliver.go: the loop over the domains keeps the queue sound.
use carteiro.Common.{Bytes, List, [], codes, subst, suc, sym, zero, ℕ, ◌++◌, ◌∷◌}
use carteiro.Storage.Types.{Message, Reasons, Store, Counter, delivery_attempts, messages_dead}
use carteiro.Storage.Db.{after, Outcome, done, failed}
use carteiro.Storage.Counters.{add_counter}
use carteiro.Storage.Queue.{dead_letter}
use carteiro.Storage.Queue.Soundness.{IsQueue}
use carteiro.Storage.Queue.Invariant.{call, call-IsQueue, persists, buries}
use carteiro.Sends.Recorder.{mark_dead}
use carteiro.Smtpd.Effects.{Kept, add_counter-Kept, mark_dead-Kept}
use carteiro.Relay.Domains.{domain_of, split_by_domain}
use carteiro.Relay.Group.{Network, GroupResult, settled, retry, group_result}
use carteiro.Relay.Deliver.{
  Deliverer, World, count_event, bury_message, Progress, settle, Run, finished, postponed,
  after_group, count_attempt, run_group, run_remaining, run_groups, merge_reasons, left_over,
}

abbrev pub HasQueue : World → Type 0
HasQueue w = IsQueue w.store.queue

pub kept : (s t : Store) → Kept s t → IsQueue s.queue → IsQueue t.queue
kept s t k h = subst IsQueue (sym k.1) h

pub count_event-HasQueue :
    (c : Counter) (name : Bytes) (w : World) → HasQueue w → HasQueue (count_event c name w)
unfolding count_event
count_event-HasQueue c name w h =
    kept w.store (after (add_counter name 1 w.store)) (add_counter-Kept name 1 w.store) h

pub bury_message-HasQueue :
    (d : Deliverer) (id reason : Bytes) (w : World)
    → HasQueue w
    → HasQueue (bury_message d id reason w)
unfolding bury_message
bury_message-HasQueue d id reason w h =
    go (dead_letter id reason w.store) (unfold call in call-IsQueue (buries id reason) w.store h)
  where
    go :
        (o : Outcome (Unit {0}))
        → IsQueue (after o).queue
        → HasQueue (elim o [
          | failed e t ↦ record w { store = t }
          | done u t ↦
              count_event messages_dead
                (codes "messages_dead")
                (record w { store = after (mark_dead d.rec_ id reason t) })
        ])
    go (failed e t) q = q
    go (done u t) q =
        count_event-HasQueue messages_dead (codes "messages_dead")
          (record w { store = after (mark_dead d.rec_ id reason t) })
          (kept t (after (mark_dead d.rec_ id reason t)) (mark_dead-Kept d.rec_ id reason t) q)

abbrev pub RunHasQueue : Run → Type 0
RunHasQueue (finished p) = HasQueue p.world
RunHasQueue (postponed e p) = HasQueue p.world

settle-HasQueue :
    (m : Message) (group keep delivered : List Bytes) (perm : Reasons) (p : Progress)
    → HasQueue p.world
    → HasQueue (settle m group keep delivered perm p).world
unfolding settle
settle-HasQueue m group keep delivered perm p h =
    unfold call in
    call-IsQueue
      (persists (record m {
        to = keep ++ left_over group delivered perm;
        permanent = merge_reasons perm p.permanent;
      }))
      p.world.store h

after_group-HasQueue :
    (next : Progress → Run) (m : Message) (group keep : List Bytes) (p : Progress) (r : GroupResult)
    → HasQueue p.world
    → ((q : Progress) → HasQueue q.world → RunHasQueue (next q))
    → RunHasQueue (after_group next m group keep p r)
unfolding after_group
after_group-HasQueue next m group keep p (settled delivered perm) h runs =
    runs (settle m group keep delivered perm p) (settle-HasQueue m group keep delivered perm p h)
after_group-HasQueue next m group keep p (retry e) h runs = h

run_remaining-HasQueue :
    (next : Progress → Run) (net : Network) (m : Message) (p : Progress) (remaining : List Bytes)
    → HasQueue p.world
    → ((q : Progress) → HasQueue q.world → RunHasQueue (next q))
    → RunHasQueue (run_remaining next net m p remaining)
unfolding run_remaining run_group count_attempt
run_remaining-HasQueue next net m p [] h runs = h
run_remaining-HasQueue next net m p (a ∷ addrs) h runs =
    let (group, keep) = split_by_domain (a ∷ addrs) (domain_of a) in
    after_group-HasQueue next m group keep (count_attempt p) (group_result net (domain_of a) group)
      (count_event-HasQueue delivery_attempts (codes "delivery_attempts") p.world h) runs

pub run_groups-HasQueue :
    (fuel : ℕ) (net : Network) (m : Message) (p : Progress)
    → HasQueue p.world
    → RunHasQueue (run_groups fuel net m p)
unfolding run_groups
run_groups-HasQueue zero net m p h = h
run_groups-HasQueue (suc fuel) net m p h =
    run_remaining-HasQueue (run_groups fuel net m) net m p p.remaining h
      (run_groups-HasQueue fuel net m)
