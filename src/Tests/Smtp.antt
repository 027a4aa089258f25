-- ===== src/Tests/Smtp.antt =====
-- A connection from the greeting to `QUIT`, and the theorems on internal/smtpd at concrete inputs.
use carteiro.Common.{List, [], arith, codes, false, length, none, refl, some, true, ℕ, ◌∷◌, ◌≡◌}
use carteiro.Storage.Types.{Account, Store, Counter, sqlite}
use carteiro.Storage.Bcrypt.{toy_bcrypt}
use carteiro.Smtpd.Lines.{
  Slice, found, full, read_line, bad, too_long, read_data_on, read_data, message, trim_line,
}
use carteiro.Smtpd.Lines.Limits.{read_line-never_long}
use carteiro.Smtpd.Lines.Data.{read_data_on-fuel, Fits, read_data-Fits}
use carteiro.Smtpd.Lines.Stuffing.{sent, joined, counted, read_data-sent}
use carteiro.Smtpd.Server.{Server, Services, starttls, Session, reply}
use carteiro.Smtpd.Session.{new_session, serve_conn, serve}
use carteiro.Smtpd.Invariant.{Admits}
use carteiro.Smtpd.Invariant.Loop.{serve_conn-no_open_relay}
use carteiro.Smtpd.Commit.{Honest, handle_data-Honest}
use carteiro.Smtpd.Login.{Proven, try_authenticate-Proven}
use carteiro.Smtpd.Progress.Loop.{Closes, serve-Closes}
use carteiro.Smtpd.Mail.{handle_data}
use carteiro.Smtpd.Auth.{try_authenticate}
use carteiro.Storage.Accounts.{find_account}
use carteiro.Text.{normalize, to_lower, trim_space}

abbrev ann : Account
ann = record {
  email = codes "ann@x";
  password_hash = 7 ∷ codes "pw";
  allowed_from = codes "ann@x" ∷ [];
}

abbrev store : Store
store = record {
  accounts = ann ∷ [];
  dkim_keys = [];
  queue = [];
  sends_log = [];
  counters = none;
  dialect = sqlite;
  instance_id = codes "w";
  dead_max = 0;
  notify = false;
  clock = 5;
  faults = [];
}

abbrev services : Services
services = record {
  bcrypt = toy_bcrypt;
  parse = λ _. record { subject = []; text = []; html = [] };
  new_id = λ now n. codes "id";
  date = λ now. codes "today";
}

abbrev server : Server
server = record {
  hostname = codes "mx";
  max_message_size = 100;
  max_recipients = 2;
  require_tls = true;
  tls = some starttls;
  rec_ = none;
}

-- The credentials are those of `ann`, in base64.
abbrev input : List Slice
input =
    found (codes "EHLO me\r\n")
    ∷ found (codes "AUTH PLAIN AGFubkB4AHB3\r\n")
    ∷ found (codes "MAIL FROM:<Ann@x>\r\n")
    ∷ found (codes "RCPT TO:<b@y>\r\n")
    ∷ found (codes "DATA\r\n")
    ∷ found (codes "Hi\r\n")
    ∷ found (codes ".\r\n")
    ∷ found (codes "QUIT\r\n")
    ∷ []

abbrev zeros : Counter → ℕ
zeros c = 0

abbrev connection : Session
connection = serve_conn services server (new_session true (codes "127.0.0.1") input [] store zeros)

queues_one : length connection.store.queue ≡ 1
unfolding serve_conn new_session trim_line toy_bcrypt
queues_one = refl

serve_conn-no_open_relay_example :
    (connection.store.accounts ≡ store.accounts)
    × Admits server store.accounts store.queue connection.store.queue
serve_conn-no_open_relay_example =
    serve_conn-no_open_relay services server true (codes "127.0.0.1") input [] store zeros

abbrev long_line : List Slice
long_line = full (codes "abcdef") ∷ found (codes "gh\n") ∷ []

read_line-never_long_example : ¬ (read_line long_line ≡ bad too_long [])
read_line-never_long_example = read_line-never_long long_line []

read_data_on-fuel_example :
    read_data_on (message [] false) 3 9 0 false [] long_line
    ≡ read_data_on (message [] true) 4 9 0 false [] long_line
read_data_on-fuel_example =
    read_data_on-fuel (message [] false) (message [] true) 3 4 9 0 false [] long_line (omega arith)
      (omega arith)

read_data-Fits_example : Fits 9 (read_data 9 (found (codes "Hi\r\n") ∷ found (codes ".\r\n") ∷ []))
read_data-Fits_example = read_data-Fits 9 (found (codes "Hi\r\n") ∷ found (codes ".\r\n") ∷ [])

read_data-sent_example :
    read_data 20 (sent (codes "Hi" ∷ codes ".x" ∷ []) (found (codes "QUIT\r\n") ∷ []))
    ≡ message (joined (codes "Hi" ∷ codes ".x" ∷ [])) false (found (codes "QUIT\r\n") ∷ [])
unfolding counted trim_line
read_data-sent_example =
    read_data-sent 20 (codes "Hi" ∷ codes ".x" ∷ []) (found (codes "QUIT\r\n") ∷ [])
      (refl, (refl, tt)) (omega arith)

-- A session in which `ann` has named a sender and a recipient.
abbrev ready : Session
ready =
    record (new_session true (codes "127.0.0.1")
      (found (codes "Hi\r\n") ∷ found (codes ".\r\n") ∷ []) [] store zeros) {
        user = some ann;
        sender = codes "ann@x";
        rcpts = codes "b@y" ∷ [];
      }

handle_data-Honest_example : Honest services server ready (handle_data services server ready)
handle_data-Honest_example = handle_data-Honest services server ready

try_authenticate-Proven_example :
    Proven services
      (codes "pw")
      (find_account (normalize (to_lower (trim_space (codes "Ann@x")))) ready.store.accounts)
      (try_authenticate services (codes "Ann@x") (codes "pw") ready).user
try_authenticate-Proven_example =
    try_authenticate-Proven services (codes "Ann@x") (codes "pw") ready

serve-Closes_example :
    Closes services server
      (reply 220 (codes "mx ESMTP Carteiro") ready)
      (serve services server ready)
serve-Closes_example = serve-Closes services server ready
