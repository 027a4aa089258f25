-- ===== src/Smtpd/Commit.antt =====
-- internal/smtpd/session.go: what the answer to `DATA` promises.
use mathlib.Core.List.{append_assoc}
use carteiro.Text.Number.{itoa}
use carteiro.Common.{
  All, Bool, Bytes, List, Option, [], ap, codes, false, if_lem, if◌then◌else◌, inl, inr, length,
  none, refl, some, str_eq, true, ℕ, ◌++◌, ◌+◌, ◌==◌, ◌||◌, ◌∙◌, ◌∷◌, ◌≡◌, ◌⊎◌,
}
use carteiro.Storage.Types.{Store, Account}
use carteiro.Storage.Db.{Outcome, done, failed, after}
use carteiro.Storage.Queue.{new_row, enqueue_with_id}
use carteiro.Smtpd.Server.{Server, Services, Session, Reply, reply, reset, bump_metric, write_lines}
use carteiro.Smtpd.Mail.{
  received_header, queue_failed, queued_as, enqueued, queue_message, data_read, handle_data,
  receive_data,
}
use carteiro.Smtpd.Effects.{
  Kept, add_counter-Kept, drop_send-Kept, Queued, add-Kept, enqueue-Queued,
}
use carteiro.Smtpd.Lines.{Slice, DataRead, data_error, message, read_data}
use carteiro.Sends.Recorder.{add}

abbrev pub code : Reply → ℕ
code (Reply.part c text) = c
code (Reply.final c text) = c

abbrev pub go_ahead : Reply
go_ahead = Reply.final 354 (codes "End data with <CR><LF>.<CR><LF>")

abbrev pub queued_reply : Bytes → Reply
queued_reply id = Reply.final 250 (codes "2.0.0 Ok: queued as " ++ id)

-- The queue is as before, and no reply says 250.
abbrev pub Refused : Session → Session → Type 0
Refused s t =
    (t.store.queue ≡ s.store.queue)
    × ((replies : List Reply) × (t.output ≡ s.output ++ replies)
        × All (λ r. (code r == 250) ≡ false) replies)

module _ (services : Services) (server : Server) where
  -- The text that `readData` read from the input, within the limit, is in the queue behind a trace
  -- header, under the id that the reply names and for the envelope of the session; what follows the
  -- message is still to be read.
  abbrev pub Accepted : Session → Session → Type 0
  Accepted s t =
      (id : Bytes) × (text : Bytes) × (now : ℕ) × (read_data server.max_message_size s.input
        ≡ message text false t.input)
      × (t.store.queue
          ≡ s.store.queue
            ++ new_row id s.sender s.rcpts (received_header services server id s ++ text) now ∷ [])
      × (t.output ≡ s.output ++ go_ahead ∷ queued_reply id ∷ [])

  abbrev pub Honest : Session → Session → Type 0
  Honest s t = Refused s t ⊎ Accepted s t

  two_lines : (out : List Reply) (a b : Reply) → out ++ a ∷ [] ++ b ∷ [] ≡ out ++ a ∷ b ∷ []
  two_lines out a b = append_assoc out (a ∷ []) (b ∷ [])

  -- `u` is the session that has said to go ahead and has read the message.
  enqueued-Honest :
      (s u : Session) (id text : Bytes) (t : Store) (o : Outcome Bytes)
      → u.output ≡ s.output ++ go_ahead ∷ []
      → read_data server.max_message_size s.input ≡ message text false u.input
      → Kept s.store t
      → Queued id s.sender s.rcpts (received_header services server id s ++ text) t o
      → Honest s (enqueued services server id o u)
  unfolding enqueued queue_failed queued_as reply write_lines reset bump_metric
  enqueued-Honest s u id text t (failed e v) out was kept same =
      let sorry' = Reply.final 451 (codes "4.3.0 Internal error while queueing; please retry") in
      inl (
        (drop_send-Kept server.rec_ id v).1 ∙ same.1 ∙ kept.1,
        (
          go_ahead ∷ sorry' ∷ [],
          ap (λ o. o ++ sorry' ∷ []) out ∙ two_lines s.output go_ahead sorry',
          (refl, (refl, tt)),
        ),
      )
  enqueued-Honest s u id text t (done qid v) out was kept (is_id, accounts_same, grown) =
      let row =
        new_row id s.sender s.rcpts (received_header services server id s ++ text) t.clock in
      inr (
        id,
        text,
        t.clock,
        was,
        (add_counter-Kept (codes "messages_queued") 1 v).1 ∙ grown ∙ ap (λ q. q ++ row ∷ []) kept.1,
        ap (λ o. o ++ queued_reply qid ∷ []) out
            ∙ two_lines s.output go_ahead (queued_reply qid)
            ∙ ap (λ i. s.output ++ go_ahead ∷ queued_reply i ∷ []) is_id,
      )

  -- The session between the reply to go ahead and the answer.
  reading : Session → List Slice → Session
  unfolding reply
  reading s rest = record (reply 354 (codes "End data with <CR><LF>.<CR><LF>") s) { input = rest }

  queue_message-Honest :
      (s : Session) (rest : List Slice) (id text : Bytes)
      → read_data server.max_message_size s.input ≡ message text false rest
      → Honest s (
          queue_message services server id
            (received_header services server id s ++ text)
            (reading s rest))
  unfolding queue_message reading reply write_lines
  queue_message-Honest s rest id text was =
      let raw = received_header services server id s ++ text in
      let t = after (add services.parse server.rec_ id s.sender s.rcpts raw s.store) in
      enqueued-Honest s (record (reading s rest) { drawn = s.drawn + 1 }) id text t
        (enqueue_with_id id s.sender s.rcpts raw t) refl was
        (add-Kept services.parse server.rec_ id s.sender s.rcpts raw s.store)
        (enqueue-Queued id s.sender s.rcpts raw t)

  data_read-Honest :
      (s : Session) (text : Bytes) (over : Bool) (rest : List Slice)
      → read_data server.max_message_size s.input ≡ message text over rest
      → Honest s (data_read services server text over (reading s rest))
  unfolding data_read reading reply write_lines reset received_header
  data_read-Honest s text true rest was =
      let large = Reply.final 552 (
        codes "5.3.4 Message size exceeds fixed limit of "
        ++ itoa server.max_message_size
        ++ codes " bytes") in
      inl (refl, (go_ahead ∷ large ∷ [], two_lines s.output go_ahead large, (refl, (refl, tt))))
  data_read-Honest s text false rest was =
      queue_message-Honest s rest (services.new_id s.store.clock s.drawn) text was

  receive_data-Honest :
      (s : Session)
      → Honest s
          (receive_data services server (reply 354 (codes "End data with <CR><LF>.<CR><LF>") s))
  unfolding receive_data reading reply write_lines
  receive_data-Honest s = go (read_data server.max_message_size s.input) refl
    where
      go :
          (d : DataRead)
          → read_data server.max_message_size s.input ≡ d
          → Honest s (elim d [
            | data_error e rest ↦ reading s rest
            | message text over rest ↦ data_read services server text over (reading s rest)
          ])
      go (data_error e rest) was = inl (refl, (go_ahead ∷ [], refl, (refl, tt)))
      go (message text over rest) was = data_read-Honest s text over rest was

  one_line : (c : ℕ) (text : Bytes) (s : Session) → (c == 250) ≡ false → Honest s (reply c text s)
  unfolding reply write_lines
  one_line c text s e = inl (refl, (Reply.final c text ∷ [], refl, (e, tt)))

  -- The answer to `DATA` is honest, whatever statements fail and whatever the client sends: either
  -- the queue is as before and no reply says 250, or the queue has one more row, for the session's
  -- envelope, with the text that `readData` read from the input, within the limit, behind a trace
  -- header, and the replies are the go-ahead and a 250 that names the row's id.
  pub handle_data-Honest : (s : Session) → Honest s (handle_data services server s)
  unfolding handle_data
  handle_data-Honest s = go s.user
    where
      go :
          (u : Option Account)
          → Honest s (elim u [
            | none ↦ reply 530 (codes "5.7.0 Authentication required") s
            | some a ↦
                if str_eq s.sender [] || length s.rcpts == 0
                then reply 503 (codes "5.5.1 Need MAIL and RCPT before DATA") s
                else receive_data services server
                    (reply 354 (codes "End data with <CR><LF>.<CR><LF>") s)
          ])
      go none = one_line 530 (codes "5.7.0 Authentication required") s refl
      go (some a) =
          if_lem (Honest s) (str_eq s.sender [] || length s.rcpts == 0)
            (reply 503 (codes "5.5.1 Need MAIL and RCPT before DATA") s)
            (receive_data services server (reply 354 (codes "End data with <CR><LF>.<CR><LF>") s))
            (λ _. one_line 503 (codes "5.5.1 Need MAIL and RCPT before DATA") s refl)
            (λ _. receive_data-Honest s)
