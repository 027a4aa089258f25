-- ===== src/Config/Normal.antt =====
-- internal/config/config.go: normalizeAndValidate.
pub mod Ensures
pub mod Shape
pub mod Parts
pub mod Kept
pub mod Valid
pub mod Again
pub mod Fixed
use carteiro.Common.{
  Bool, Bytes, List, Option, [], codes, false, if◌then◌else◌, none, not, some, str_eq, true, ◌||◌,
  ◌∷◌, at_least,
}
use carteiro.Text.{trim_space, to_lower, split_host_port}
use carteiro.Config.Types.{
  Config, Tls, Storage, Api, Web, Outside, Result, ok, err, panics, ◌>>=◌, ◌>>◌, require,
  bad_listen, bad_tls_mode, no_certificate, bad_pair, bad_size, bad_recipients, bad_dead_max,
  bad_history, no_dsn, bad_storage, no_token, bad_api_listen, bad_web_listen, web_without_api,
  bad_attempts, bad_concurrency, bad_log_level,
}
use carteiro.Config.Env.{one_of}
use carteiro.Config.Listen.{normalize_listen}
use carteiro.Config.Seeds.{dedupe_accounts, dedupe_dkim, check_account, check_key, each}

unfoldable pub is_listen : Bytes → Bool
unfolding split_host_port
is_listen v = elim (split_host_port v) [ none ↦ false | some p ↦ true ]

unfoldable pub tls_mode : Bytes → Result Bytes
unfolding str_eq
tls_mode mode =
    if one_of mode ([] ∷ codes "starttls" ∷ [])
    then ok (codes "starttls")
    else if str_eq mode (codes "implicit")
    then ok mode
    else err bad_tls_mode

unfoldable pub check_tls : Outside → Option Tls → Result (Option Tls)
unfolding tls_mode str_eq
check_tls o none = ok none
check_tls o (some t) = do
  mode ← tls_mode t.mode
  require (not (str_eq t.cert_pem [] || str_eq t.key_pem [])) no_certificate
  require (o.is_key_pair t.cert_pem t.key_pem) bad_pair
  ok (some (record t { mode = mode }))

unfoldable pub check_storage : Option Storage → Result (Option Storage)
unfolding trim_space str_eq
check_storage none = panics
check_storage (some st) =
    if one_of st.kind ([] ∷ codes "sqlite" ∷ [])
    then ok (some (record st { kind = codes "sqlite" }))
    else if str_eq st.kind (codes "mysql")
    then (if str_eq (trim_space st.dsn) [] then err no_dsn else ok (some st))
    else err bad_storage

abbrev pub or_listen : Bytes → Bytes → Bytes
or_listen v default = if str_eq (trim_space v) [] then default else v

abbrev web_listen : Option Web → Bytes
web_listen none = []
web_listen (some w) = w.listen

unfoldable pub check_api : Option Api → Option Web → Result (Option Api × Option Web)
unfolding normalize_listen is_listen trim_space str_eq
check_api none none = ok (none, none)
check_api none (some w) = err web_without_api
check_api (some a) web = do
  require (not (str_eq (trim_space a.token) [])) no_token
  let api_listen = or_listen (normalize_listen a.listen) (codes "127.0.0.1:9090")
  require (is_listen api_listen) bad_api_listen
  let panel_listen = or_listen (normalize_listen (web_listen web)) (codes ":8080")
  require (is_listen panel_listen) bad_web_listen
  ok (
    some (record { listen = api_listen; token = trim_space a.token }),
    some (record { listen = panel_listen }),
  )

abbrev pub log_levels : List Bytes
log_levels = codes "debug" ∷ codes "info" ∷ codes "warn" ∷ codes "error" ∷ []

unfoldable pub normalize_and_validate : Outside → Config → Result Config
unfolding normalize_listen is_listen check_tls check_storage check_api dedupe_accounts dedupe_dkim
    check_account check_key each to_lower str_eq
normalize_and_validate o c = do
  let listen = normalize_listen c.listen
  require (is_listen listen) bad_listen
  tls ← check_tls o c.tls
  require (at_least 1 c.max_message_size) bad_size
  require (at_least 1 c.max_recipients) bad_recipients
  require (at_least 0 c.dead_max) bad_dead_max
  require (at_least 0 c.send_history_days) bad_history
  storage ← check_storage c.storage
  listeners ← check_api c.api c.web
  accounts ← each check_account (dedupe_accounts c.accounts)
  keys ← each (check_key o) (dedupe_dkim c.dkim)
  require (at_least 1 c.delivery.max_attempts) bad_attempts
  require (at_least 1 c.delivery.concurrency) bad_concurrency
  require (one_of (to_lower c.log_level) log_levels) bad_log_level
  ok (record c {
    listen = listen;
    tls = tls;
    storage = storage;
    api = listeners.0;
    web = listeners.1;
    accounts = accounts;
    dkim = keys;
  })
