-- ===== src/Config/Types.antt =====
-- internal/config/config.go: the settings. A nil pointer is `none`; durations are nanoseconds.
use carteiro.Common.{Bool, Bytes, List, Option, false, true, ℤ}

pub record Tls : Type 0 where
  pub cert_data : Bytes
  pub key_data : Bytes
  pub mode : Bytes
  pub cert_pem : Bytes
  pub key_pem : Bytes

pub record Delivery : Type 0 where
  pub connect_timeout : ℤ
  pub io_timeout : ℤ
  pub retry_base : ℤ
  pub retry_max : ℤ
  pub max_attempts : ℤ
  pub poll_interval : ℤ
  pub concurrency : ℤ

pub record Storage : Type 0 where
  pub kind : Bytes
  pub sqlite_path : Bytes
  pub dsn : Bytes

pub record Api : Type 0 where
  pub listen : Bytes
  pub token : Bytes

pub record Web : Type 0 where
  pub listen : Bytes

pub record Account : Type 0 where
  pub email : Bytes
  pub password : Bytes
  pub allowed_from : List Bytes

pub record DkimKey : Type 0 where
  pub domain : Bytes
  pub selector : Bytes
  pub key_data : Bytes

pub record Config : Type 0 where
  pub listen : Bytes
  pub hostname : Bytes
  pub storage : Option Storage
  pub max_message_size : ℤ
  pub max_recipients : ℤ
  pub require_tls : Bool
  pub insecure_auth_msg : Bytes
  pub log_level : Bytes
  pub log_mask_emails : Bool
  pub api : Option Api
  pub web : Option Web
  pub dead_max : ℤ
  pub send_history_days : ℤ
  pub tls : Option Tls
  pub delivery : Delivery
  pub dkim : List DkimKey
  pub accounts : List Account
  pub dkim_env : List DkimKey

-- The errors, without their texts.
pub data Error : Type 0 where
  no_file unreadable unparsable : Error
  bad_number bad_bool bad_duration : Bytes → Error
  bad_base64 not_pem missing_key tls_halves bad_account_entry bad_dkim_entry : Error
  bad_listen bad_tls_mode no_certificate bad_pair bad_size bad_recipients : Error
  bad_dead_max bad_history no_dsn bad_storage no_token bad_api_listen bad_web_listen : Error
  web_without_api bad_email no_password no_domain no_key bad_key : Error
  bad_attempts bad_concurrency bad_log_level : Error

-- What a step gives. `panics` is a nil pointer that is read.
pub data Result (A : Type 0) : Type 0 where
  ok : A → Result A
  err : Error → Result A
  panics : Result A

infixl 5 ◌>>=◌ ◌>>◌
abbrev pub ◌>>=◌ : {A B : Type 0} → Result A → (A → Result B) → Result B
ok a >>= f = f a
err e >>= f = err e
panics >>= f = panics

abbrev pub ◌>>◌ : {A B : Type 0} → Result A → Result B → Result B
m >> k = m >>= λ _. k

abbrev pub require : Bool → Error → Result (Unit {0})
require true e = ok tt
require false e = err e

-- What the code takes from its surroundings: the environment, `time.ParseDuration`, and whether a
-- pair of PEM texts is a certificate with its key and a PEM text is a key of DKIM.
pub record Outside : Type 0 where
  pub lookup_env : Bytes → Option Bytes
  pub parse_duration : Bytes → Option ℤ
  pub is_key_pair : Bytes → Bytes → Bool
  pub is_signer : Bytes → Bool
  pub hostname : Bytes
