-- ===== src/Sends/Recorder.antt =====
-- internal/sends/sends.go: the recorder. A nil recorder is `none`, and then every method does
-- nothing. `parse` is the message parser of internal/sends/msg.go, and may be any function here.
pub mod Frame
use carteiro.Common.{
  Bytes, List, Option, [], if◌then◌else◌, length, ltb, none, some, take, ℕ, ◌*◌, ◌==◌,
}
use carteiro.Storage.Types.{SendLog, SendStatus}
use carteiro.Storage.Db.{M, return, ignore, done, failed}
use carteiro.Storage.Sends.{
  insert_send_log, update_send_log_status, set_send_status, bump_send_attempt, delete_send_log,
  list_send_logs, get_send_log,
}

pub record Parsed : Type 0 where
  pub subject : Bytes
  pub text : Bytes
  pub html : Bytes

-- The store is at hand in every call; what is left of the struct is the cap on bodies.
pub record Recorder : Type 0 where
  pub max_body : ℕ

unfoldable pub new_recorder : ℕ → Recorder
new_recorder max_body_bytes = record {
  max_body = if max_body_bytes == 0 then 512 * 1024 else max_body_bytes;
}

-- The row that `Add` writes at the time `now`.
unfoldable pub new_log :
    (Bytes → Parsed) → Recorder → Bytes → Bytes → List Bytes → Bytes → ℕ → SendLog
new_log parse r id sender to content now =
    let truncated = ltb r.max_body (length content) in
    let raw = if truncated then take r.max_body content else content in
    let p = parse raw in
    record {
      id = id;
      sender = sender;
      to = to;
      subject = p.subject;
      status = SendStatus.queued;
      attempts = 0;
      size = length content;
      truncated = truncated;
      last_error = [];
      html = p.html;
      text = p.text;
      raw = raw;
      queued_at = now;
      updated_at = now;
    }

unfoldable pub add :
    (Bytes → Parsed) → Option Recorder → Bytes → Bytes → List Bytes → Bytes → M (Unit {0})
unfolding insert_send_log new_log
add parse none id sender to content s = return tt s
add parse (some r) id sender to content s =
    ignore (insert_send_log (new_log parse r id sender to content s.clock)) s

unfoldable pub mark_delivered : Option Recorder → Bytes → M (Unit {0})
unfolding set_send_status
mark_delivered none id = return tt
mark_delivered (some r) id = ignore (set_send_status id SendStatus.delivered [])

unfoldable pub mark_dead : Option Recorder → Bytes → Bytes → M (Unit {0})
unfolding set_send_status
mark_dead none id reason = return tt
mark_dead (some r) id reason = ignore (set_send_status id SendStatus.dead reason)

unfoldable pub mark_queued : Option Recorder → Bytes → M (Unit {0})
unfolding update_send_log_status
mark_queued none id = return tt
mark_queued (some r) id = ignore (update_send_log_status id SendStatus.queued 0 [])

unfoldable pub bump_attempt : Option Recorder → Bytes → M (Unit {0})
unfolding bump_send_attempt
bump_attempt none id = return tt
bump_attempt (some r) id = bump_send_attempt id

unfoldable pub drop_send : Option Recorder → Bytes → M (Unit {0})
unfolding delete_send_log
drop_send none id = return tt
drop_send (some r) id = delete_send_log id

-- An error gives the empty list.
or_empty : M (List SendLog) → M (List SendLog)
or_empty m s = elim (m s) [ done logs t ↦ done logs t | failed e t ↦ done [] t ]

-- A `Summary` is a log without its bodies.
unfoldable pub list : Option Recorder → ℕ → M (List SendLog)
unfolding list_send_logs or_empty
list none limit = return []
list (some r) limit = or_empty (list_send_logs limit)

or_missing : M (Option SendLog) → M (Option SendLog)
or_missing m s = elim (m s) [ done found t ↦ done found t | failed e t ↦ done none t ]

unfoldable pub get : Option Recorder → Bytes → M (Option SendLog)
unfolding get_send_log or_missing
get none id = return none
get (some r) id = or_missing (get_send_log id)
