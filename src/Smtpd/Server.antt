-- ===== src/Smtpd/Server.antt =====
-- internal/smtpd/server.go and session.go: what a connection works with, and its replies.
use carteiro.Common.{
  Bool, Bytes, List, Option, [], codes, if◌then◌else◌, none, not, true, ℕ, ◌++◌, ◌∷◌,
}
use carteiro.Text.{itoa}
use carteiro.Storage.Types.{Account, Store, Counter}
use carteiro.Storage.Bcrypt.{Bcrypt}
use carteiro.Storage.Counters.{add_to}
use carteiro.Sends.Recorder.{Recorder, Parsed}
use carteiro.Smtpd.Lines.{Slice}

pub data TlsMode : Type 0 where
  starttls implicit : TlsMode

-- `Server`, with the fields of the configuration that a session reads. `tls` is `none` for a nil
-- `tlsCfg`, and else `cfg.TLS.Mode`.
pub record Server : Type 0 where
  pub hostname : Bytes
  pub max_message_size : ℕ
  pub max_recipients : ℕ
  pub require_tls : Bool
  pub tls : Option TlsMode
  pub rec_ : Option Recorder

-- What the session calls elsewhere: bcrypt, the parser of internal/sends/msg.go, `storage.NewID` for
-- the time and the number of ids drawn before, and the format of a date.
pub record Services : Type 0 where
  pub bcrypt : Bcrypt
  pub parse : Bytes → Parsed
  pub new_id : ℕ → ℕ → Bytes
  pub date : ℕ → Bytes

-- A line of a reply: `250-text`, or `250 text` for a last line.
pub data Reply : Type 0 where
  part final : ℕ → Bytes → Reply

-- A TLS handshake to come: whether it succeeds, and what the reads after it give.
pub record Handshake : Type 0 where
  pub succeeds : Bool
  pub input : List Slice

-- `smtpConn`. `loopback` and `remote_ip` are `isLoopback` and `remoteIP` of the client's address.
-- `input` is what the reads to come give, and `output` what was written. The server's store and its
-- metrics are at hand here, and `drawn` counts the ids.
pub record Session : Type 0 where
  pub helo : Bytes
  pub sender : Bytes
  pub rcpts : List Bytes
  pub user : Option Account
  pub tls_on : Bool
  pub loopback : Bool
  pub remote_ip : Bytes
  pub input : List Slice
  pub handshakes : List Handshake
  pub output : List Reply
  pub store : Store
  pub metrics : Counter → ℕ
  pub drawn : ℕ

-- What a handler says to the loop.
pub data Next : Type 0 where
  go_on close : Session → Next

-- The text on the wire, as `writeLines` sends it.
unfoldable pub wire : Reply → Bytes
unfolding itoa
wire (part code text) = itoa code ++ codes "-" ++ text ++ codes "\r\n"
wire (final code text) = itoa code ++ codes " " ++ text ++ codes "\r\n"

unfoldable pub write_lines : List Reply → Session → Session
write_lines lines s = record s { output = s.output ++ lines }

unfoldable pub reply : ℕ → Bytes → Session → Session
unfolding write_lines
reply code text = write_lines (final code text ∷ [])

unfoldable pub reset : Bool → Session → Session
reset clear_auth s = record s {
  sender = [];
  rcpts = [];
  user = if clear_auth then none else s.user;
}

-- `Add(1)` on a counter of the metrics.
unfoldable pub bump_metric : Counter → Session → Session
bump_metric c s = record s { metrics = add_to c 1 s.metrics }

abbrev pub may_auth : Server → Bool → Bool → Bool
may_auth server tls loopback =
    if not server.require_tls then true else if tls then true else loopback

unfoldable pub auth_allowed : Server → Session → Bool
auth_allowed server s = may_auth server s.tls_on s.loopback
