-- ===== src/Smtpd/Progress/Mail.antt =====
-- internal/smtpd/session.go: `MAIL`, `RCPT` and `DATA` give no input back.
use carteiro.Common.{
  Bool, Bytes, Option, [], ap, arith, codes, false, if_lem, if◌then◌else◌, leb, length, none, not,
  refl, some, str_eq, true, ◌++◌, ◌+◌, ◌==◌, ◌||◌, ◌∷◌,
}
use carteiro.Text.{to_upper, has_prefix}
use carteiro.Storage.Types.{Account}
use carteiro.Storage.Db.{Outcome, done, failed, after}
use carteiro.Storage.Accounts.{allows_from}
use carteiro.Storage.Queue.{enqueue_with_id}
use carteiro.Sends.Recorder.{add}
use carteiro.Smtpd.Parse.{valid_envelope_addr, param_size}
use carteiro.Smtpd.Lines.{read_data, DataRead, message, data_error, Slice}
use carteiro.Smtpd.Lines.Data.{Leaves, read_data-Leaves}
use carteiro.Smtpd.Server.{Server, Services, Session, reply, reset, bump_metric}
use carteiro.Smtpd.Mail.{
  envelope, exceeds, too_large, mail_from, handle_mail, rcpt_to, limit_reached, handle_rcpt,
  received_header, queue_failed, queued_as, enqueued, queue_message, data_read, receive_data,
  handle_data,
}
use carteiro.Smtpd.Progress.{SameInput, NotLonger}

mail_from-same :
    (server : Server) (a : Account) (envelope : Bytes × Bytes) (s : Session)
    → SameInput s (mail_from server a envelope s)
unfolding mail_from reply
mail_from-same server a (addr, params) s =
    let invalid = reply 501 (codes "5.1.7 Invalid sender address: " ++ addr) s in
    let foreign =
      reply 553 (codes "5.7.1 Sender " ++ addr ++ codes " not allowed for account " ++ a.email) s in
    let large = reply 552 (too_large server.max_message_size) s in
    let fits = reply 250 (codes "2.1.0 Ok") (record s { sender = addr; rcpts = [] }) in
    let is_large = exceeds (param_size params) server.max_message_size in
    if_lem (SameInput s) (not (valid_envelope_addr addr)) invalid
      (if not (allows_from a addr) then foreign else if is_large then large else fits)
      (λ _. (refl, refl))
      (λ _.
        if_lem (SameInput s) (not (allows_from a addr)) foreign (if is_large then large else fits)
          (λ _. (refl, refl))
          (λ _. if_lem (SameInput s) is_large large fits (λ _. (refl, refl)) (λ _. (refl, refl))))

pub handle_mail-same :
    (server : Server) (arg : Bytes) (s : Session) → SameInput s (handle_mail server arg s)
unfolding handle_mail reply
handle_mail-same server arg s = go s.user
  where
    syntax : Session
    syntax = reply 501 (codes "5.5.4 Syntax: MAIL FROM:<address> [parameters]") s

    go :
        (u : Option Account)
        → SameInput s (elim u [
          | none ↦ reply 530 (codes "5.7.0 Authentication required") s
          | some a ↦
              if has_prefix (to_upper arg) (codes "FROM:")
              then mail_from server a (envelope 5 arg) s
              else reply 501 (codes "5.5.4 Syntax: MAIL FROM:<address> [parameters]") s
        ])
    go none = (refl, refl)
    go (some a) =
        if_lem (SameInput s) (has_prefix (to_upper arg) (codes "FROM:"))
          (mail_from server a (envelope 5 arg) s)
          (reply 501 (codes "5.5.4 Syntax: MAIL FROM:<address> [parameters]") s)
          (λ _. mail_from-same server a (envelope 5 arg) s) (λ _. (refl, refl))

rcpt_to-same : (addr : Bytes) (s : Session) → SameInput s (rcpt_to addr s)
unfolding rcpt_to reply
rcpt_to-same addr s =
    if_lem (SameInput s) (valid_envelope_addr addr)
      (reply 250 (codes "2.1.5 Ok") (record s { rcpts = s.rcpts ++ addr ∷ [] }))
      (reply 501 (codes "5.1.3 Invalid recipient address: " ++ addr) s) (λ _. (refl, refl))
      (λ _. (refl, refl))

pub handle_rcpt-same :
    (server : Server) (arg : Bytes) (s : Session) → SameInput s (handle_rcpt server arg s)
unfolding handle_rcpt reply
handle_rcpt-same server arg s =
    let is_full = leb server.max_recipients (length s.rcpts) in
    let is_to = has_prefix (to_upper arg) (codes "TO:") in
    let full = reply 452 (limit_reached server.max_recipients) s in
    let syntax = reply 501 (codes "5.5.4 Syntax: RCPT TO:<address> [parameters]") s in
    let early = reply 503 (codes "5.5.1 Need MAIL before RCPT") s in
    let to = rcpt_to (envelope 3 arg).0 s in
    if_lem (SameInput s) (str_eq s.sender []) early
      (if is_full then full else if is_to then to else syntax) (λ _. (refl, refl))
      (λ _.
        if_lem (SameInput s) is_full full (if is_to then to else syntax) (λ _. (refl, refl))
          (λ _.
            if_lem (SameInput s) is_to to syntax (λ _. rcpt_to-same (envelope 3 arg).0 s)
              (λ _. (refl, refl))))

module _ (services : Services) (server : Server) where
  enqueued-same :
      (id : Bytes) (o : Outcome Bytes) (s : Session) → SameInput s (enqueued services server id o s)
  unfolding enqueued queue_failed queued_as reply reset bump_metric
  enqueued-same id (failed e t) s = (refl, refl)
  enqueued-same id (done qid t) s = (refl, refl)

  data_read-same :
      (text : Bytes) (over : Bool) (s : Session)
      → SameInput s (data_read services server text over s)
  unfolding data_read queue_message reset reply
  data_read-same text true s = (refl, refl)
  data_read-same text false s =
      let id = services.new_id s.store.clock s.drawn in
      let raw = received_header services server id s ++ text in
      enqueued-same id
        (enqueue_with_id id s.sender s.rcpts raw
          (after (add services.parse server.rec_ id s.sender s.rcpts raw s.store)))
        (record s { drawn = s.drawn + 1 })

  receive_data-NotLonger : (s : Session) → NotLonger s (receive_data services server s)
  unfolding receive_data
  receive_data-NotLonger s =
      go (read_data server.max_message_size s.input)
        (read_data-Leaves server.max_message_size s.input)
    where
      go :
          (d : DataRead)
          → Leaves (length s.input) d
          → NotLonger s (elim d [
            | data_error e rest ↦ record s { input = rest }
            | message text over rest ↦
                data_read services server text over (record s { input = rest })
          ])
      go (data_error e rest) h = (h, refl)
      go (message text over rest) h =
          let s' = record s { input = rest } in
          let same = data_read-same text over s' in
          (omega (arith, h, ap (length {A = Slice}) same.0), same.1)

  pub handle_data-NotLonger : (s : Session) → NotLonger s (handle_data services server s)
  unfolding handle_data reply
  handle_data-NotLonger s = go s.user
    where
      go :
          (u : Option Account)
          → NotLonger s (elim u [
            | none ↦ reply 530 (codes "5.7.0 Authentication required") s
            | some a ↦
                if str_eq s.sender [] || length s.rcpts == 0
                then reply 503 (codes "5.5.1 Need MAIL and RCPT before DATA") s
                else receive_data services server
                    (reply 354 (codes "End data with <CR><LF>.<CR><LF>") s)
          ])
      go none = (omega arith, refl)
      go (some a) =
          let s' = reply 354 (codes "End data with <CR><LF>.<CR><LF>") s in
          if_lem (NotLonger s) (str_eq s.sender [] || length s.rcpts == 0)
            (reply 503 (codes "5.5.1 Need MAIL and RCPT before DATA") s)
            (receive_data services server s') (λ _. (omega arith, refl))
            (λ _. receive_data-NotLonger s')
