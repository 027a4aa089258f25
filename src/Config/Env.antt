-- ===== src/Config/Env.antt =====
-- internal/config/config.go: applyEnv and applyDKIMEnv.
use carteiro.Common.{
  Bool, Bytes, List, Option, [], any, codes, false, filter, if◌then◌else◌, map, none, not, some,
  str_eq, true, ◌&&◌, ◌++◌, ◌||◌, ◌∷◌, ℤ,
}
use carteiro.Text.{trim_space, split, cut, parse_signed}
use carteiro.Config.Types.{
  Config, Tls, Delivery, Storage, Api, Web, Account, DkimKey, Outside, Result, ok, err, panics,
  ◌>>=◌, Error, bad_number, bad_bool, bad_duration, tls_halves, bad_account_entry, bad_dkim_entry,
}
use carteiro.Config.Decode.{decode_yaml_base64, decode_base64_key}
use Prim.Native.String.{String}

abbrev pub one_of : Bytes → List Bytes → Bool
one_of s names = any (str_eq s) names

-- `strconv.ParseBool`.
unfoldable pub parse_bool : Bytes → Option Bool
unfolding str_eq
parse_bool v =
    if one_of v
      (codes "1" ∷ codes "t" ∷ codes "T" ∷ codes "true" ∷ codes "TRUE" ∷ codes "True" ∷ [])
    then some true
    else if one_of v
        (codes "0" ∷ codes "f" ∷ codes "F" ∷ codes "false" ∷ codes "FALSE" ∷ codes "False" ∷ [])
    then some false
    else none

-- A variable that is set must parse; one that is not set leaves the old value.
setting : {A : Type 0} → (Bytes → Option A) → Error → Option Bytes → A → Result A
setting parse e none old = ok old
setting parse e (some v) old = elim (parse v) [ none ↦ err e | some new ↦ ok new ]

-- The entries of a list that `;` separates, trimmed, without the empty ones.
unfoldable pub entries : Bytes → List Bytes
unfolding split trim_space str_eq
entries v = filter (λ e. not (str_eq e [])) (map trim_space (split v b';'))

account_entry : Bytes → Result Account
unfolding cut trim_space str_eq
account_entry entry = elim (cut entry b':') [
  | none ↦ err bad_account_entry
  | some (email, password) ↦
      if str_eq (trim_space email) []
      then err bad_account_entry
      else ok (record { email = trim_space email; password = password; allowed_from = [] })
]

add_accounts : List Bytes → List Account → Result (List Account)
unfolding account_entry
add_accounts [] accounts = ok accounts
add_accounts (e ∷ es) accounts = do a ← account_entry e; add_accounts es (accounts ++ a ∷ [])

abbrev or_mail : Bytes → Bytes
or_mail [] = codes "mail"
or_mail (c ∷ s) = c ∷ s

dkim_parts : Bytes → Bytes → Bytes → Result DkimKey
unfolding trim_space decode_base64_key str_eq
dkim_parts domain selector key = if str_eq (trim_space domain) [] then err bad_dkim_entry else (do
  text ← decode_base64_key key
  ok (record {
    domain = trim_space domain;
    selector = or_mail (trim_space selector);
    key_data = text;
  }))

dkim_after_domain : Bytes → Option (Bytes × Bytes) → Result DkimKey
unfolding dkim_parts
dkim_after_domain domain none = err bad_dkim_entry
dkim_after_domain domain (some (selector, key)) = dkim_parts domain selector key

-- `strings.SplitN(entry, ":", 3)`: the third part keeps its colons.
dkim_entry : Bytes → Result DkimKey
unfolding dkim_after_domain cut
dkim_entry entry = elim (cut entry b':') [
  | none ↦ err bad_dkim_entry
  | some (domain, rest) ↦ dkim_after_domain domain (cut rest b':')
]

add_dkim : List Bytes → List DkimKey → Result (List DkimKey)
unfolding dkim_entry
add_dkim [] keys = ok keys
add_dkim (e ∷ es) keys = do k ← dkim_entry e; add_dkim es (keys ++ k ∷ [])

abbrev set_listen : Bytes → Option Web → Option Web
set_listen v none = some (record { listen = v })
set_listen v (some w) = some (record w { listen = v })

abbrev or_new_api : Option Api → Api
or_new_api none = record { listen = []; token = [] }
or_new_api (some a) = a

module _ (o : Outside) where
  -- `os.Getenv`.
  abbrev pub get_env : String → Bytes
  get_env key = elim (o.lookup_env (codes key)) [ none ↦ [] | some v ↦ v ]

  set_str : String → Bytes → Bytes
  set_str key old = elim (o.lookup_env (codes key)) [ none ↦ old | some v ↦ v ]

  set_int : String → ℤ → Result ℤ
  unfolding setting parse_signed
  set_int key = setting parse_signed (bad_number (codes key)) (o.lookup_env (codes key))

  set_bool : String → Bool → Result Bool
  unfolding setting parse_bool
  set_bool key = setting parse_bool (bad_bool (codes key)) (o.lookup_env (codes key))

  set_dur : String → ℤ → Result ℤ
  unfolding setting
  set_dur key = setting o.parse_duration (bad_duration (codes key)) (o.lookup_env (codes key))

  unfoldable pub env_delivery : Delivery → Result Delivery
  unfolding set_int set_dur
  env_delivery d = do
    connect ← set_dur "CARTEIRO_DELIVERY_CONNECT_TIMEOUT" d.connect_timeout
    io ← set_dur "CARTEIRO_DELIVERY_IO_TIMEOUT" d.io_timeout
    base ← set_dur "CARTEIRO_DELIVERY_RETRY_BASE" d.retry_base
    max ← set_dur "CARTEIRO_DELIVERY_RETRY_MAX" d.retry_max
    poll ← set_dur "CARTEIRO_DELIVERY_POLL_INTERVAL" d.poll_interval
    attempts ← set_int "CARTEIRO_DELIVERY_MAX_ATTEMPTS" d.max_attempts
    concurrency ← set_int "CARTEIRO_DELIVERY_CONCURRENCY" d.concurrency
    ok (record {
      connect_timeout = connect;
      io_timeout = io;
      retry_base = base;
      retry_max = max;
      max_attempts = attempts;
      poll_interval = poll;
      concurrency = concurrency;
    })

  unfoldable pub env_storage : Storage → Storage
  unfolding str_eq set_str
  env_storage st =
      let kind = get_env "CARTEIRO_STORAGE_TYPE" in
      let dsn = get_env "CARTEIRO_DB_DSN" in
      let old = if str_eq kind [] then st.kind else kind in
      record {
        kind = if str_eq dsn [] then old else codes "mysql";
        sqlite_path = set_str "CARTEIRO_SQLITE_PATH" st.sqlite_path;
        dsn = if str_eq dsn [] then st.dsn else dsn;
      }

  unfoldable pub env_tls : Option Tls → Result (Option Tls)
  unfolding decode_yaml_base64 str_eq
  env_tls old =
      let cert = get_env "CARTEIRO_TLS_CERT" in
      let key = get_env "CARTEIRO_TLS_KEY" in
      if str_eq cert [] && str_eq key []
      then ok old
      else if str_eq cert [] || str_eq key []
      then err tls_halves
      else (do
        t ← decode_yaml_base64 (record {
          cert_data = cert;
          key_data = key;
          mode = get_env "CARTEIRO_TLS_MODE";
          cert_pem = [];
          key_pem = [];
        })
        ok (some (record t { cert_data = []; key_data = [] })))

  unfoldable pub env_api : Option Api → Option Api
  unfolding str_eq
  env_api old =
      let listen = get_env "CARTEIRO_API_LISTEN" in
      let token = get_env "CARTEIRO_API_TOKEN" in
      let listening =
        if str_eq listen [] then old else some (record (or_new_api old) { listen = listen }) in
      if str_eq token [] then listening else some (record (or_new_api listening) { token = token })

  unfoldable pub env_web : Option Web → Option Web
  unfolding str_eq
  env_web old =
      if not (str_eq (get_env "CARTEIRO_WEB_LISTEN") [])
      then set_listen (get_env "CARTEIRO_WEB_LISTEN") old
      else if not (str_eq (get_env "CARTEIRO_HTTP_ADDR") [])
      then set_listen (get_env "CARTEIRO_HTTP_ADDR") old
      else if not (str_eq (get_env "HTTP_ADDR") [])
      then set_listen (get_env "HTTP_ADDR") old
      else old

  unfoldable pub apply_dkim_env : Config → Result Config
  unfolding add_dkim entries
  apply_dkim_env c = do
    keys ← add_dkim (entries (get_env "CARTEIRO_DKIM_KEYS")) c.dkim_env
    ok (record c { dkim_env = keys })

  env_onto : Storage → Config → Result Config
  unfolding set_str set_int set_bool env_delivery env_storage env_tls env_api env_web add_accounts
      entries apply_dkim_env
  env_onto st c = do
    delivery ← env_delivery c.delivery
    dead_max ← set_int "CARTEIRO_QUEUE_DEAD_MAX" c.dead_max
    days ← set_int "CARTEIRO_SENDS_RETENTION_DAYS" c.send_history_days
    size ← set_int "CARTEIRO_MAX_MESSAGE_SIZE" c.max_message_size
    recipients ← set_int "CARTEIRO_MAX_RECIPIENTS" c.max_recipients
    require_tls ← set_bool "CARTEIRO_REQUIRE_TLS" c.require_tls
    mask ← set_bool "CARTEIRO_LOG_MASK_EMAILS" c.log_mask_emails
    tls ← env_tls c.tls
    accounts ← add_accounts (entries (get_env "CARTEIRO_ACCOUNTS")) c.accounts
    apply_dkim_env (record c {
      listen = set_str "CARTEIRO_LISTEN" c.listen;
      hostname = set_str "CARTEIRO_HOSTNAME" c.hostname;
      log_level = set_str "CARTEIRO_LOG_LEVEL" c.log_level;
      storage = some (env_storage st);
      delivery = delivery;
      dead_max = dead_max;
      send_history_days = days;
      max_message_size = size;
      max_recipients = recipients;
      require_tls = require_tls;
      log_mask_emails = mask;
      tls = tls;
      accounts = accounts;
      api = env_api c.api;
      web = env_web c.web;
    })

  -- The address of `c.Storage.SQLitePath` is taken first, and a nil `c.Storage` panics there.
  unfoldable pub apply_env : Config → Result Config
  unfolding env_onto
  apply_env c = elim c.storage [ none ↦ panics | some st ↦ env_onto st c ]
