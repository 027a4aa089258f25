-- ===== src/Storage/Types.antt =====
-- internal/storage/storage.go, sends.go and schema.go: the rows of the tables and the values that
-- the operations take and return. A column that holds JSON text is the value that it encodes. Times
-- are Unix milliseconds, and 0 is Go's zero time.
use carteiro.Common.{Bool, Bytes, List, Option, ℕ}

pub record Account : Type 0 where
  pub email : Bytes
  pub password_hash : Bytes
  pub allowed_from : List Bytes

pub record AccountSeed : Type 0 where
  pub email : Bytes
  pub password : Bytes
  pub allowed_from : List Bytes

pub record DkimKey : Type 0 where
  pub domain : Bytes
  pub selector : Bytes
  pub key_data : Bytes

-- The map from a recipient to the reason why it was refused for good.
abbrev pub Reasons : Type 0
Reasons = List (Bytes × Bytes)

pub record Message : Type 0 where
  pub id : Bytes
  pub sender : Bytes
  pub to : List Bytes
  pub attempts : ℕ
  pub next_attempt : ℕ
  pub created_at : ℕ
  pub last_error : Bytes
  pub permanent : Reasons
  pub content : Bytes

pub data Status : Type 0 where
  queued dead : Status

-- A row of `queue_messages`.
pub record Row : Type 0 where
  pub id : Bytes
  pub sender : Bytes
  pub to : List Bytes
  pub content : Bytes
  pub attempts : ℕ
  pub next_attempt : ℕ
  pub status : Status
  pub lease_until : ℕ
  pub worker_id : Bytes
  pub created_at : ℕ
  pub last_error : Bytes
  pub permanent : Reasons

pub record UpsertSummary : Type 0 where
  pub created : List Bytes
  pub updated : List Bytes
  pub unchanged : List Bytes

pub record Stats : Type 0 where
  pub queued_count : ℕ
  pub due_count : ℕ
  pub dead_count : ℕ

pub data SendStatus : Type 0 where
  queued delivered dead : SendStatus

-- A row of `sends_log`.
pub record SendLog : Type 0 where
  pub id : Bytes
  pub sender : Bytes
  pub to : List Bytes
  pub subject : Bytes
  pub status : SendStatus
  pub attempts : ℕ
  pub size : ℕ
  pub truncated : Bool
  pub last_error : Bytes
  pub html : Bytes
  pub text : Bytes
  pub raw : Bytes
  pub queued_at : ℕ
  pub updated_at : ℕ

pub data Dialect : Type 0 where
  sqlite mysql : Dialect

-- The columns of `stats_counters`.
pub data Counter : Type 0 where
  auth_success auth_failure messages_queued delivery_attempts : Counter
  messages_delivered messages_dead messages_requeued : Counter

pub Counter-discrete : Discrete Counter
Counter-discrete = hlevel

-- `Store` with the contents of its database. `notify` tells whether the wake-up channel, which has
-- room for one token, holds it. `counters` is the one row of `stats_counters`, once it is made.
-- `clock` is what the clock reads, and stands still during one operation. `faults` says of each
-- coming statement whether the database fails it; beyond the list none fails.
pub record Store : Type 0 where
  pub accounts : List Account
  pub dkim_keys : List DkimKey
  pub queue : List Row
  pub sends_log : List SendLog
  pub counters : Option (Counter → ℕ)
  pub dialect : Dialect
  pub instance_id : Bytes
  pub dead_max : ℕ
  pub notify : Bool
  pub clock : ℕ
  pub faults : List Bool
