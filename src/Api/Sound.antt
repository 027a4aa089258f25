-- ===== src/Api/Sound.antt =====
-- What every handler of the admin API keeps: a sound queue and accounts in normal form.
use carteiro.Common.{Bytes, subst, sym, ℕ, ◌≡◌}
use carteiro.Storage.Types.{Store}
use carteiro.Storage.Db.{M, Outcome, Error, after, done, failed}
use carteiro.Storage.Queue.Soundness.{IsQueue}
use carteiro.Storage.Accounts.Table.{IsAccounts}
use carteiro.Api.Types.{
  State, Handler, Payload, call, write_json, write_error, write_failure, then_,
}

abbrev pub IsCoherent : Store → Type 0
IsCoherent s = IsQueue s.queue × IsAccounts s.accounts

abbrev pub Preserves : {A : Type 0} → M A → Type 0
Preserves m = (s : Store) → IsCoherent s → IsCoherent (after (m s))

abbrev pub Handles : Handler → Type 0
Handles h = (s : State) → IsCoherent s.store → IsCoherent (h s).1.store

pub same-IsCoherent :
    (s t : Store) → (t.accounts ≡ s.accounts) × (t.queue ≡ s.queue) → IsCoherent s → IsCoherent t
same-IsCoherent s t e c = (subst IsQueue (sym e.1) c.0, subst IsAccounts (sym e.0) c.1)

pub same-Preserves :
    {A : Type 0} (m : M A)
    → ((s : Store) → ((after (m s)).accounts ≡ s.accounts) × ((after (m s)).queue ≡ s.queue))
    → Preserves m
same-Preserves m e s c = same-IsCoherent s (after (m s)) (e s) c

pub call-Handles :
    {A : Type 0} (m : M A) (bad : Error → Handler) (good : A → Handler)
    → Preserves m
    → ((e : Error) → Handles (bad e))
    → ((a : A) → Handles (good a))
    → Handles (call m bad good)
unfolding call
call-Handles m bad good p b g s c = go (m s.store) (p s.store c)
  where
    go : (o : Outcome _) → IsCoherent (after o) → IsCoherent (then_ o bad good s).1.store
    go (done a t) k = g a (record s { store = t }) k
    go (failed e t) k = b e (record s { store = t }) k

pub json-Handles : (code : ℕ) (p : Payload) → Handles (write_json code p)
unfolding write_json
json-Handles code p s c = c

pub error-Handles : (code : ℕ) (text : Bytes) → Handles (write_error code text)
unfolding write_error write_json
error-Handles code text s c = c

pub failure-Handles : (code : ℕ) (e : Error) → Handles (write_failure code e)
unfolding write_failure write_json
failure-Handles code e s c = c
