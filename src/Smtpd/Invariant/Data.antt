-- ===== src/Smtpd/Invariant/Data.antt =====
-- internal/smtpd/session.go: `DATA` keeps a session safe, and adds at most one row to the queue, for
-- the envelope of the session.
use carteiro.Common.{
  Bool, Bytes, In, List, Option, [], ap, arith, codes, false, if_lem, if◌then◌else◌, length, none,
  refl, some, str_eq, true, ◌++◌, ◌+◌, ◌==◌, ◌||◌, ◌∙◌, ◌∷◌, ◌≡◌,
}
use carteiro.Storage.Types.{Account, Store}
use carteiro.Storage.Accounts.{allows_from}
use carteiro.Smtpd.Server.{Server, Session, reply, Services, reset, bump_metric}
use carteiro.Smtpd.Mail.{
  queue_message, enqueued, receive_data, handle_data, data_read, queue_failed, queued_as,
  received_header,
}
use carteiro.Smtpd.Invariant.{
  IsSafe, Step, Step-to, replied, Authorised, Trusted, IsEnvelope, then_, blank,
}
use carteiro.Smtpd.Lines.{DataRead, data_error, message, read_data}
use carteiro.Storage.Db.{after, Outcome, done, failed}
use carteiro.Sends.Recorder.{add, drop_send}
use carteiro.Storage.Queue.{enqueue_with_id, new_row}
use carteiro.Smtpd.Effects.{
  add-Kept, enqueue-Queued, Kept, Queued, Kept-trans, drop_send-Kept, add_counter-Kept,
}
use carteiro.Storage.Counters.{add_counter}

-- The account that allows a sender which is there.
authority :
    (server : Server) (accounts : List Account) (user : Option Account) (sender : Bytes)
    (tls loopback : Bool)
    → str_eq sender [] ≡ false
    → Trusted server accounts user tls loopback
    → Authorised user sender
    → (a : Account) × In a accounts × (allows_from a sender ≡ true)
unfolding str_eq
authority server accounts user [] tls loopback e trusted h = absurd (cc e)
authority server accounts none (c ∷ sender) tls loopback e trusted h = absurd h
authority server accounts (some a) (c ∷ sender) tls loopback e trusted h = (a, trusted.0, h)

-- The session's envelope may enter the queue.
abbrev pub IsReady : Server → Session → Type 0
IsReady server s = IsEnvelope server s.store.accounts s.sender s.rcpts

module _ (services : Services) (server : Server) where
  enqueued-Step :
      (id raw : Bytes) (s : Session) (t : Store) (o : Outcome Bytes)
      → IsReady server s
      → Kept s.store t
      → Queued id s.sender s.rcpts raw t o
      → Step server s (enqueued services server id o (record s { drawn = s.drawn + 1 }))
  unfolding enqueued queue_failed queued_as reply reset bump_metric
  enqueued-Step id raw s t (failed e u) ready kept same =
      Step-to server s (queue_failed services server id u (record s { drawn = s.drawn + 1 }))
        (blank server s.store.accounts none s.tls_on s.loopback tt)
        (Kept-trans s.store t (after (drop_send server.rec_ id u)) kept (
          Kept-trans t u (after (drop_send server.rec_ id u)) same
            (drop_send-Kept server.rec_ id u)))
  enqueued-Step id raw s t (done qid u) ready kept (is_id, accounts_same, grown) =
      let counted = add_counter-Kept (codes "messages_queued") 1 u in
      let row = new_row id s.sender s.rcpts raw t.clock in
      record {
        safe =
            blank server (after (add_counter (codes "messages_queued") 1 u)).accounts none s.tls_on
              s.loopback tt;
        accounts_same = (counted.0 ∙ accounts_same) ∙ kept.0;
        admits = (row ∷ [], (counted.1 ∙ grown) ∙ ap (λ q. q ++ row ∷ []) kept.1, (ready, tt));
      }

  queue_message-Step :
      (id raw : Bytes) (s : Session)
      → IsReady server s
      → Step server s (queue_message services server id raw s)
  unfolding queue_message
  queue_message-Step id raw s ready =
      let t = after (add services.parse server.rec_ id s.sender s.rcpts raw s.store) in
      enqueued-Step id raw s t (enqueue_with_id id s.sender s.rcpts raw t) ready
        (add-Kept services.parse server.rec_ id s.sender s.rcpts raw s.store)
        (enqueue-Queued id s.sender s.rcpts raw t)

  data_read-Step :
      (text : Bytes) (over : Bool) (s : Session)
      → IsReady server s
      → Step server s (data_read services server text over s)
  unfolding data_read reset reply
  data_read-Step text true s ready =
      Step-to server s (data_read services server text true s)
        (blank server s.store.accounts none s.tls_on s.loopback tt) (refl, refl)
  data_read-Step text false s ready =
      let id = services.new_id s.store.clock s.drawn in
      queue_message-Step id (received_header services server id s ++ text) s ready

  receive_data-Step :
      (s : Session)
      → IsSafe server s
      → IsReady server s
      → Step server s (receive_data services server s)
  unfolding receive_data
  receive_data-Step s h ready = go (read_data server.max_message_size s.input)
    where
      go :
          (d : DataRead)
          → Step server s (elim d [
            | data_error e rest ↦ record s { input = rest }
            | message text over rest ↦
                data_read services server text over (record s { input = rest })
          ])
      go (data_error e rest) = Step-to server s (record s { input = rest }) h (refl, refl)
      go (message text over rest) =
          let s' = record s { input = rest } in
          then_ server s s' (data_read services server text over s') h (refl, refl)
            (data_read-Step text over s' ready)

  ready_lem :
      (s : Session)
      → IsSafe server s
      → str_eq s.sender [] || length s.rcpts == 0 ≡ false
      → IsReady server s
  ready_lem s h e = (
    authority server s.store.accounts s.user s.sender s.tls_on s.loopback (ground arith) h.trusted
        h.authorised,
    h.valid,
    h.few,
    ground arith,
  )

  -- `handle_data` keeps a session safe, and what it adds to the queue is accepted.
  pub handle_data-Step :
      (s : Session) → IsSafe server s → Step server s (handle_data services server s)
  unfolding handle_data reply
  handle_data-Step s h = go s.user
    where
      s' : Session
      s' = reply 354 (codes "End data with <CR><LF>.<CR><LF>") s

      go :
          (u : Option Account)
          → Step server s (elim u [
            | none ↦ reply 530 (codes "5.7.0 Authentication required") s
            | some a ↦
                if str_eq s.sender [] || length s.rcpts == 0
                then reply 503 (codes "5.5.1 Need MAIL and RCPT before DATA") s
                else receive_data services server s'
          ])
      go none = replied server 530 (codes "5.7.0 Authentication required") s h
      go (some a) =
          if_lem (Step server s) (str_eq s.sender [] || length s.rcpts == 0)
            (reply 503 (codes "5.5.1 Need MAIL and RCPT before DATA") s)
            (receive_data services server s')
            (λ _. replied server 503 (codes "5.5.1 Need MAIL and RCPT before DATA") s h)
            (λ e.
              then_ server s s' (receive_data services server s') h (refl, refl)
                (receive_data-Step s' h (ready_lem s h e)))
