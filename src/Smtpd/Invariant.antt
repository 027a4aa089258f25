-- ===== src/Smtpd/Invariant.antt =====
-- internal/smtpd/session.go: what holds of a session between two commands, and what a command may
-- add to the queue.
pub mod Auth
pub mod Mail
pub mod Data
pub mod Hello
pub mod Loop
use mathlib.Core.List.{append-nil, append_assoc}
use carteiro.Common.{
  All, All-append, Bool, Bytes, In, List, Option, [], ap, arith, length, none, refl, some, subst,
  sym, true, ℕ, ◌++◌, ◌∙◌, ◌∷◌, ◌≡◌, ◌≤◌,
}
use carteiro.Storage.Types.{Account, Row}
use carteiro.Storage.Accounts.{allows_from}
use carteiro.Smtpd.Parse.{valid_envelope_addr}
use carteiro.Smtpd.Server.{Server, Session, Next, go_on, close, may_auth, reply}
use carteiro.Smtpd.Effects.{Kept}

-- The user is an account of the table, who could authenticate here.
abbrev pub Trusted : Server → List Account → Option Account → Bool → Bool → Type 0
Trusted server accounts none tls loopback = Unit
Trusted server accounts (some a) tls loopback =
    In a accounts × (may_auth server tls loopback ≡ true)

-- A sender is there only for a user who may use it.
abbrev pub Authorised : Option Account → Bytes → Type 0
Authorised user [] = Unit
Authorised none (c ∷ sender) = ⊥
Authorised (some a) (c ∷ sender) = allows_from a (c ∷ sender) ≡ true

abbrev pub IsValid : Bytes → Type 0
IsValid addr = valid_envelope_addr addr ≡ true

pub record Safe (server : Server) (accounts : List Account) (sender : Bytes) (rcpts : List Bytes)
    (user : Option Account) (tls loopback : Bool) : Type 0 where
  pub trusted : Trusted server accounts user tls loopback
  pub authorised : Authorised user sender
  pub valid : All IsValid rcpts
  pub few : length rcpts ≤ server.max_recipients

abbrev pub IsSafe : Server → Session → Type 0
IsSafe server s = Safe server s.store.accounts s.sender s.rcpts s.user s.tls_on s.loopback

-- An envelope that may enter the queue: an account of the table allows the sender, and the
-- recipients are valid, not more than the limit, and at least one.
abbrev pub IsEnvelope : Server → List Account → Bytes → List Bytes → Type 0
IsEnvelope server accounts sender to =
    ((a : Account) × In a accounts × (allows_from a sender ≡ true))
    × All IsValid to
    × (length to ≤ server.max_recipients)
    × (1 ≤ length to)

abbrev pub IsAccepted : Server → List Account → Row → Type 0
IsAccepted server accounts r = IsEnvelope server accounts r.sender r.to

-- The second queue is the first with accepted rows behind it.
abbrev pub Admits : Server → List Account → List Row → List Row → Type 0
Admits server accounts q q' =
    (rows : List Row) × (q' ≡ q ++ rows) × All (IsAccepted server accounts) rows

pub record Step (server : Server) (s t : Session) : Type 0 where
  pub safe : IsSafe server t
  pub accounts_same : t.store.accounts ≡ s.store.accounts
  pub admits : Admits server s.store.accounts s.store.queue t.store.queue

-- The session in an answer.
abbrev pub session : Next → Session
session (go_on t) = t
session (close t) = t

abbrev pub StepTo : Server → Session → Next → Type 0
StepTo server s n = Step server s (session n)

module _ (server : Server) where
  Admits-refl : (accounts : List Account) (q q' : List Row) → q' ≡ q → Admits server accounts q q'
  Admits-refl accounts q q' e = ([], e ∙ sym (append-nil q), tt)

  pub Step-to :
      (s t : Session)
      → Safe server s.store.accounts t.sender t.rcpts t.user t.tls_on t.loopback
      → Kept s.store t.store
      → Step server s t
  Step-to s t safe kept = record {
    safe =
        subst (λ accounts. Safe server accounts t.sender t.rcpts t.user t.tls_on t.loopback)
          (sym kept.0) safe;
    accounts_same = kept.0;
    admits = Admits-refl s.store.accounts s.store.queue t.store.queue kept.1;
  }

  -- Nothing but the input, the output, the metrics and the like differs.
  pub stay : (s : Session) → IsSafe server s → Step server s s
  stay s h = Step-to s s h (refl, refl)

  pub Step-trans : (s t u : Session) → Step server s t → Step server t u → Step server s u
  Step-trans s t u h k = record {
    safe = k.safe;
    accounts_same = k.accounts_same ∙ h.accounts_same;
    admits = both (
        subst (λ accounts. Admits server accounts t.store.queue u.store.queue) h.accounts_same
          k.admits);
  }
    where
      both :
          Admits server s.store.accounts t.store.queue u.store.queue
          → Admits server s.store.accounts s.store.queue u.store.queue
      both (rows, e, ok) =
          let (first, e', ok') = h.admits in
          (
            first ++ rows,
            (e ∙ ap (λ q. q ++ rows) e') ∙ append_assoc s.store.queue first rows,
            All-append (IsAccepted server s.store.accounts) first rows ok' ok,
          )

  -- A step after a change that touches neither the store's tables nor the envelope's safety.
  pub then_ :
      (s s' t : Session)
      → Safe server s.store.accounts s'.sender s'.rcpts s'.user s'.tls_on s'.loopback
      → Kept s.store s'.store
      → Step server s' t
      → Step server s t
  then_ s s' t safe kept step = Step-trans s s' t (Step-to s s' safe kept) step

  -- Without a sender and recipients any trusted user is safe.
  pub blank :
      (accounts : List Account) (user : Option Account) (tls loopback : Bool)
      → Trusted server accounts user tls loopback
      → Safe server accounts [] [] user tls loopback
  blank accounts user tls loopback h = record {
    trusted = h;
    authorised = tt;
    valid = tt;
    few = omega arith;
  }

  pub replied :
      (code : ℕ) (text : Bytes) (s : Session) → IsSafe server s → Step server s (reply code text s)
  unfolding reply
  replied code text s h = Step-to s (reply code text s) h (refl, refl)
