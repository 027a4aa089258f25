-- ===== src/Storage/Queue/Frame.antt =====
-- RequeueDead leaves the accounts alone.
use carteiro.Common.{Bytes, if_lem, refl, ◌==◌, ◌≡◌}
use carteiro.Storage.Types.{Store}
use carteiro.Storage.Db.{M, Outcome, after, bind, spend}
use carteiro.Storage.Db.Rules.{exec-cases}
use carteiro.Storage.Queue.{requeue_dead, revive, revives, woken_or_refused, wake}

pub requeue_dead-accounts :
    (id : Bytes) (s : Store) → (after (requeue_dead id s)).accounts ≡ s.accounts
unfolding requeue_dead woken_or_refused wake
requeue_dead-accounts id s =
    let P = λ (o : Outcome (Unit {0})). (after o).accounts ≡ s.accounts in
    exec-cases (λ o. P (bind o woken_or_refused)) s (revives id) (revive id) refl
      (if_lem (λ (m : M (Unit {0})). P (m (revive id (spend s)))) (revives id s == 0) _ _
        (λ _. refl) (λ _. refl))
