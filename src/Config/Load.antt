-- ===== src/Config/Load.antt =====
-- internal/config/config.go: defaults, Load, locateFile and the data directories. The file system and
-- the YAML decoder, which overlays a configuration, are the fields of `Files`.
pub mod Override
use carteiro.Common.{
  Bool, Bytes, List, Option, [], any, codes, false, filter, if◌then◌else◌, none, not, some, str_eq,
  true, ℕ, ◌*◌, ◌++◌, ◌^◌, ◌∷◌, pos,
}
use carteiro.Config.Types.{
  Config, Tls, Storage, DkimKey, Outside, Result, ok, err, ◌>>=◌, no_file, unreadable, unparsable,
}
use carteiro.Config.Decode.{decode_yaml_base64, decode_yaml_key}
use carteiro.Config.Env.{apply_env, get_env}
use carteiro.Config.Seeds.{each}
use carteiro.Config.Normal.{normalize_and_validate}

pub record Files : Type 0 where
  pub stat : Bytes → Bool
  pub user_config_dir : Option Bytes
  pub user_home_dir : Option Bytes
  pub is_darwin : Bool
  pub join_path : List Bytes → Bytes
  pub make_all : Bytes → Bool
  pub read_file : Bytes → Option Bytes
  pub unmarshal : Bytes → Config → Option Config

abbrev second : ℕ
second = 10 ^ 9

unfoldable pub defaults : Bytes → Config
defaults host = record {
  listen = codes ":587";
  hostname = host;
  storage = some (record { kind = codes "sqlite"; sqlite_path = []; dsn = [] });
  max_message_size = pos (25 * 2 ^ 20);
  max_recipients = pos 100;
  require_tls = false;
  insecure_auth_msg = [];
  log_level = codes "info";
  log_mask_emails = true;
  api = none;
  web = none;
  dead_max = pos 1000;
  send_history_days = pos 30;
  tls = none;
  delivery = record {
    connect_timeout = pos (30 * second);
    io_timeout = pos (2 * 60 * second);
    retry_base = pos (60 * second);
    retry_max = pos (4 * 60 * 60 * second);
    max_attempts = pos 10;
    poll_interval = pos (5 * second);
    concurrency = pos 4;
  };
  dkim = [];
  accounts = [];
  dkim_env = [];
}

-- The first candidate that exists; the empty text if there is none.
first_file : (Bytes → Bool) → List Bytes → Bytes
first_file stat [] = []
first_file stat (p ∷ ps) = if stat p then p else first_file stat ps

user_files : Files → Option Bytes → List Bytes
user_files fs none = []
user_files fs (some []) = []
user_files fs (some (c ∷ dir)) =
    fs.join_path ((c ∷ dir) ∷ codes "carteiro" ∷ codes "config.yaml" ∷ [])
    ∷ fs.join_path ((c ∷ dir) ∷ codes "carteiro" ∷ codes "config.yml" ∷ [])
    ∷ []

unfoldable pub locate_file : Outside → Files → Bytes → Result Bytes
unfolding first_file user_files str_eq
locate_file o fs flag_path =
    if not (str_eq flag_path [])
    then (if fs.stat flag_path then ok flag_path else err no_file)
    else if not (str_eq (get_env o "CARTEIRO_CONFIG") [])
    then ok (get_env o "CARTEIRO_CONFIG")
    else ok (
        first_file fs.stat (
          codes "/etc/carteiro/config.yaml"
          ∷ codes "/etc/carteiro/config.yml"
          ∷ user_files fs fs.user_config_dir))

decode_tls : Option Tls → Result (Option Tls)
unfolding decode_yaml_base64
decode_tls none = ok none
decode_tls (some t) = do t' ← decode_yaml_base64 t; ok (some t')

decode_keys : Config → Result Config
unfolding decode_tls each decode_yaml_key
decode_keys c = do
  keys ← each decode_yaml_key c.dkim
  tls ← decode_tls c.tls
  ok (record c { dkim = keys; tls = tls })

parse_file : Files → Config → Bytes → Result Config
unfolding decode_keys
parse_file fs c text = elim (fs.unmarshal text c) [
  | none ↦ err unparsable
  | some c' ↦ decode_keys c'
]

unfoldable pub read_config : Files → Config → Bytes → Result Config
unfolding parse_file
read_config fs c [] = ok c
read_config fs c (p ∷ path) = elim (fs.read_file (p ∷ path)) [
  | none ↦ err unreadable
  | some text ↦ parse_file fs c text
]

-- `cfg.Storage` is set again where it is nil, which `applyEnv` does not let happen.
abbrev or_sqlite : Option Storage → Option Storage
or_sqlite none = some (record { kind = codes "sqlite"; sqlite_path = []; dsn = [] })
or_sqlite (some st) = some st

-- A key of the environment overrides those of the file with the same domain.
unfoldable pub merge_dkim : List DkimKey → List DkimKey → List DkimKey
unfolding str_eq
merge_dkim file [] = file
merge_dkim file (e ∷ env) =
    filter (λ (k : DkimKey). not (any (λ (e' : DkimKey). str_eq e'.domain k.domain) (e ∷ env))) file
    ++ (e ∷ env)

abbrev or_host : Bytes → Bytes → Bytes
or_host [] host = host
or_host (c ∷ s) host = c ∷ s

abbrev warn_insecure : Config → Config
warn_insecure c = record c {
  insecure_auth_msg =
      if c.require_tls
      then c.insecure_auth_msg
      else codes
          "plain-text AUTH is enabled: use TLS or a private network (require_tls: true in public production)";
}

unfoldable pub finish_load : Outside → Config → Result Config
unfolding merge_dkim normalize_and_validate
finish_load o c = do
  c' ← normalize_and_validate o (record c {
    storage = or_sqlite c.storage;
    dkim = merge_dkim c.dkim c.dkim_env;
    hostname = or_host c.hostname o.hostname;
  })
  ok (warn_insecure c')

unfoldable pub load : Outside → Files → Bytes → Result Config
unfolding defaults locate_file read_config apply_env finish_load
load o fs flag_path = do
  path ← locate_file o fs flag_path
  c ← read_config fs (defaults o.hostname) path
  c' ← apply_env o c
  finish_load o c'

unfoldable pub user_config_file : Files → Option Bytes
user_config_file fs = elim fs.user_config_dir [
  | none ↦ none
  | some dir ↦ some (fs.join_path (dir ∷ codes "carteiro" ∷ codes "config.yaml" ∷ []))
]

data_home : Outside → Files → Bytes
unfolding str_eq
data_home o fs =
    if not (str_eq (get_env o "XDG_DATA_HOME") [])
    then get_env o "XDG_DATA_HOME"
    else elim fs.user_home_dir [
      | none ↦ codes "."
      | some home ↦ fs.join_path (home ∷ codes ".local" ∷ codes "share" ∷ [])
    ]

unfoldable pub data_dir : Outside → Files → Bytes
unfolding data_home
data_dir o fs =
    if fs.is_darwin
    then elim fs.user_home_dir [
      | none ↦ data_home o fs
      | some home ↦ fs.join_path (home ∷ codes "Library" ∷ codes "Application Support" ∷ [])
    ]
    else data_home o fs

first_made : (Bytes → Bool) → List Bytes → Option Bytes
first_made make [] = none
first_made make (d ∷ ds) = if make d then some d else first_made make ds

unfoldable pub default_data_dir : Outside → Files → Option Bytes
unfolding data_dir first_made str_eq
default_data_dir o fs =
    let system = codes "/var/lib/carteiro" in
    let own = fs.join_path (data_dir o fs ∷ codes "carteiro" ∷ []) in
    first_made fs.make_all (system ∷ (if str_eq own system then [] else own ∷ []))
