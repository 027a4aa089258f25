-- ===== src/Smtpd/Mail.antt =====
-- internal/smtpd/session.go: the commands `MAIL`, `RCPT` and `DATA`.
use carteiro.Common.{
  Bool, Bytes, List, [], codes, drop, if◌then◌else◌, leb, length, ltb, none, not, some, str_eq,
  true, ℕ, ◌&&◌, ◌++◌, ◌+◌, ◌==◌, ◌||◌, ◌∷◌,
}
use carteiro.Text.{to_upper, to_lower, trim_space, has_prefix, itoa}
use carteiro.Storage.Types.{Account, Store, messages_queued}
use carteiro.Storage.Db.{after, done, failed, Outcome}
use carteiro.Storage.Accounts.{allows_from}
use carteiro.Storage.Queue.{enqueue_with_id}
use carteiro.Storage.Counters.{add_counter}
use carteiro.Sends.Recorder.{add, drop_send}
use carteiro.Smtpd.Parse.{split_envelope, param_size, valid_envelope_addr}
use carteiro.Smtpd.Lines.{read_data, message, data_error}
use carteiro.Smtpd.Server.{Server, Services, Session, reply, reset, bump_metric}

-- The address and the parameters behind `FROM:` or `TO:`.
unfoldable pub envelope : ℕ → Bytes → Bytes × Bytes
unfolding split_envelope to_lower trim_space
envelope n arg =
    let (addr, params) = split_envelope (trim_space (drop n arg)) in
    (to_lower (trim_space addr), params)

-- `size > 0 && size > max`.
abbrev pub exceeds : ℕ → ℕ → Bool
exceeds size limit = ltb 0 size && ltb limit size

abbrev pub too_large : ℕ → Bytes
unfolding itoa
too_large limit = codes "5.3.4 Message size exceeds the limit of " ++ itoa limit ++ codes " bytes"

unfoldable pub mail_from : Server → Account → Bytes × Bytes → Session → Session
unfolding valid_envelope_addr allows_from param_size reply too_large
mail_from server a (addr, params) s =
    if not (valid_envelope_addr addr)
    then reply 501 (codes "5.1.7 Invalid sender address: " ++ addr) s
    else if not (allows_from a addr)
    then reply 553 (codes "5.7.1 Sender " ++ addr ++ codes " not allowed for account " ++ a.email) s
    else if exceeds (param_size params) server.max_message_size
    then reply 552 (too_large server.max_message_size) s
    else reply 250 (codes "2.1.0 Ok") (record s { sender = addr; rcpts = [] })

unfoldable pub handle_mail : Server → Bytes → Session → Session
unfolding mail_from envelope has_prefix to_upper reply
handle_mail server arg s = elim s.user [
  | none ↦ reply 530 (codes "5.7.0 Authentication required") s
  | some a ↦
      if has_prefix (to_upper arg) (codes "FROM:")
      then mail_from server a (envelope 5 arg) s
      else reply 501 (codes "5.5.4 Syntax: MAIL FROM:<address> [parameters]") s
]

unfoldable pub rcpt_to : Bytes → Session → Session
unfolding valid_envelope_addr reply
rcpt_to addr s =
    if valid_envelope_addr addr
    then reply 250 (codes "2.1.5 Ok") (record s { rcpts = s.rcpts ++ addr ∷ [] })
    else reply 501 (codes "5.1.3 Invalid recipient address: " ++ addr) s

abbrev pub limit_reached : ℕ → Bytes
unfolding itoa
limit_reached n = codes "4.5.3 Limit of " ++ itoa n ++ codes " recipients per message reached"

unfoldable pub handle_rcpt : Server → Bytes → Session → Session
unfolding rcpt_to envelope has_prefix to_upper reply limit_reached str_eq
handle_rcpt server arg s =
    if str_eq s.sender []
    then reply 503 (codes "5.5.1 Need MAIL before RCPT") s
    else if leb server.max_recipients (length s.rcpts)
    then reply 452 (limit_reached server.max_recipients) s
    else if has_prefix (to_upper arg) (codes "TO:")
    then rcpt_to (envelope 3 arg).0 s
    else reply 501 (codes "5.5.4 Syntax: RCPT TO:<address> [parameters]") s

-- The lines `for <rcpt>`.
for_lines : List Bytes → Bytes
for_lines [] = []
for_lines (to ∷ rcpts) = codes "\r\n\tfor <" ++ to ++ codes ">" ++ for_lines rcpts

module _ (services : Services) (server : Server) where
  unfoldable pub received_header : Bytes → Session → Bytes
  unfolding for_lines str_eq
  received_header id s =
      codes "Received: from "
      ++ (if str_eq s.helo [] then s.remote_ip else s.helo)
      ++ codes " by "
      ++ server.hostname
      ++ codes " with ESMTPSA id "
      ++ id
      ++ for_lines s.rcpts
      ++ codes "\r\n\t; "
      ++ services.date s.store.clock
      ++ codes "\r\n"

  unfoldable pub queue_failed : Bytes → Store → Session → Session
  unfolding drop_send reply reset
  queue_failed id t s = reset true (
      reply 451 (codes "4.3.0 Internal error while queueing; please retry")
        (record s { store = after (drop_send server.rec_ id t) }))

  unfoldable pub queued_as : Bytes → Store → Session → Session
  unfolding add_counter bump_metric reply reset
  queued_as id t s = reset true (
      reply 250 (codes "2.0.0 Ok: queued as " ++ id) (
        bump_metric messages_queued
          (record s { store = after (add_counter (codes "messages_queued") 1 t) })))

  -- What follows the call of `EnqueueWithID`.
  unfoldable pub enqueued : Bytes → Outcome Bytes → Session → Session
  unfolding queue_failed queued_as
  enqueued id (failed e t) s = queue_failed id t s
  enqueued id (done qid t) s = queued_as qid t s

  -- The message is recorded before it is queued.
  unfoldable pub queue_message : Bytes → Bytes → Session → Session
  unfolding enqueued enqueue_with_id add
  queue_message id raw s =
      let recorded = after (add services.parse server.rec_ id s.sender s.rcpts raw s.store) in
      enqueued id (enqueue_with_id id s.sender s.rcpts raw recorded)
        (record s { drawn = s.drawn + 1 })

  unfoldable pub data_read : Bytes → Bool → Session → Session
  unfolding queue_message received_header reply reset
  data_read text over s =
      let id = services.new_id s.store.clock s.drawn in
      if over
      then reset true (
          reply 552
            (codes "5.3.4 Message size exceeds fixed limit of "
              ++ itoa server.max_message_size
              ++ codes " bytes")
            s)
      else queue_message id (received_header id s ++ text) s

  unfoldable pub receive_data : Session → Session
  unfolding read_data data_read
  receive_data s = elim (read_data server.max_message_size s.input) [
    | data_error e rest ↦ record s { input = rest }
    | message text over rest ↦ data_read text over (record s { input = rest })
  ]

  unfoldable pub handle_data : Session → Session
  unfolding receive_data reply str_eq
  handle_data s = elim s.user [
    | none ↦ reply 530 (codes "5.7.0 Authentication required") s
    | some a ↦
        if str_eq s.sender [] || length s.rcpts == 0
        then reply 503 (codes "5.5.1 Need MAIL and RCPT before DATA") s
        else receive_data (reply 354 (codes "End data with <CR><LF>.<CR><LF>") s)
  ]
