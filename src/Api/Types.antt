-- ===== src/Api/Types.antt =====
-- internal/api/api.go: the server, the requests and the answers. A body is the value that its JSON
-- text decodes to, and the JSON text of an answer is the value that it encodes.
use carteiro.Common.{Bool, Bytes, List, Option, if◌then◌else◌, ℕ, ◌*◌, ◌==◌, ◌^◌}
use carteiro.Storage.Types.{Store, Counter, Message, SendLog, Stats}
use carteiro.Storage.Db.{M, Error, Outcome, done, failed, after}
use carteiro.Storage.Bcrypt.{Bcrypt}
use carteiro.Text.{trim_space}
use carteiro.Storage.Counters.{add_to}
use carteiro.Sends.Recorder.{Recorder, Parsed}
use carteiro.Sends.Compose.{ComposeError, Surroundings}
use carteiro.Dnscheck.Types.{Resolver, Key, Report}

pub record CreateAccount : Type 0 where
  pub email : Bytes
  pub password : Bytes
  pub allowed_from : List Bytes

-- `none` is a field that the request leaves out.
pub record UpdateAccount : Type 0 where
  pub allowed_from : Option (List Bytes)
  pub password : Option Bytes

pub record CreateDkim : Type 0 where
  pub domain : Bytes
  pub selector : Bytes
  pub key_data : Bytes

pub record SendRequest : Type 0 where
  pub sender : Bytes
  pub to : List Bytes
  pub subject : Bytes
  pub text : Bytes
  pub html : Bytes

-- `Server`, with `hostname` as `New` trims it.
pub record Server : Type 0 where
  pub token : Bytes
  pub rec_ : Option Recorder
  pub version : Bytes
  pub hostname : Bytes
  pub max_message_size : ℕ
  pub max_recipients : ℕ
  pub dns : Resolver
  pub started : ℕ

-- What the handlers call elsewhere: bcrypt, the decoders of JSON bodies, the keys of package dkim,
-- the parser of internal/sends/msg.go, `storage.NewID` and the surroundings of `BuildMessage`, for
-- the time and the number of draws before, and the salt of the next draw.
pub record Services : Type 0 where
  pub bcrypt : Bcrypt
  pub decode_create_account : Bytes → Option CreateAccount
  pub decode_update_account : Bytes → Option UpdateAccount
  pub decode_create_dkim : Bytes → Option CreateDkim
  pub decode_send : Bytes → Option SendRequest
  pub is_signer : Bytes → Bool
  pub derive : Bytes → Key
  pub parse : Bytes → Parsed
  pub new_id : ℕ → ℕ → Bytes
  pub surroundings : ℕ → ℕ → Surroundings

-- A request as the multiplexer hands it over: `path` is split at slashes, and a query parameter that
-- is missing is the empty text.
pub record Request : Type 0 where
  pub method : Bytes
  pub path : List Bytes
  pub authorization : Bytes
  pub query : Bytes → Bytes
  pub body : Bytes

-- What the JSON of an answer holds.
pub data Payload : Type 0 where
  error : Bytes → Payload
  store_error : Error → Payload
  compose_error : ComposeError → Payload
  -- `mux_page` is the text of the multiplexer itself, for a redirect, 404 or 405.
  status_ok openapi mux_page : Payload
  metrics_text : Bytes → Payload
  summary : Bytes → ℕ → (Counter → ℕ) → Stats → Payload
  account_views : List (Bytes × List Bytes) → Payload
  upserted : Bytes → Bool → Payload
  deleted requeued_id : Bytes → Payload
  updated : Bytes → List Bytes → Bool → Payload
  dkim_views : List (Bytes × Bytes) → Payload
  dkim_upserted : Bytes → Bytes → Bool → Payload
  queue_stats : Stats → Payload
  messages : List Message → Payload
  sends : List SendLog → Payload
  send : SendLog → Payload
  dns_report : Report → Payload
  sent_as : Bytes → Payload

pub record Response : Type 0 where
  pub code : ℕ
  pub payload : Payload

-- What the handlers change: the store and the metrics. `drawn` counts ids, boundaries and salts.
pub record State : Type 0 where
  pub store : Store
  pub metrics : Counter → ℕ
  pub drawn : ℕ

abbrev pub Handler : Type 0
Handler = State → Response × State

unfoldable pub write_json : ℕ → Payload → Handler
write_json code payload s = (record { code = code; payload = payload }, s)

unfoldable pub write_error : ℕ → Bytes → Handler
unfolding write_json
write_error code text = write_json code (error text)

-- `writeError` with the text of an error of the store.
unfoldable pub write_failure : ℕ → Error → Handler
unfolding write_json
write_failure code e = write_json code (store_error e)

-- A call of the store, its error branch and the rest.
abbrev pub then_ : {A : Type 0} → Outcome A → (Error → Handler) → (A → Handler) → Handler
then_ (done a t) bad good s = good a (record s { store = t })
then_ (failed e t) bad good s = bad e (record s { store = t })

unfoldable pub call : {A : Type 0} → M A → (Error → Handler) → (A → Handler) → Handler
call m bad good s = then_ (m s.store) bad good s

-- `_ = m`, and the calls that return nothing.
unfoldable pub run : M (Unit {0}) → State → State
run m s = record s { store = after (m s.store) }

unfoldable pub add_metric : Counter → State → State
add_metric c s = record s { metrics = add_to c 1 s.metrics }

abbrev pub or_default : ℕ → ℕ → ℕ
or_default n d = if n == 0 then d else n

-- `New`. A limit of 0 stands also for a negative one, which gets the same default.
unfoldable pub new_server : Bytes → Option Recorder → Bytes → Bytes → ℕ → ℕ → Resolver → ℕ → Server
unfolding trim_space
new_server token rec_ version hostname max_message_size max_recipients dns now = record {
  token = token;
  rec_ = rec_;
  version = version;
  hostname = trim_space hostname;
  max_message_size = or_default max_message_size (25 * 2 ^ 20);
  max_recipients = or_default max_recipients 100;
  dns = dns;
  started = now;
}
