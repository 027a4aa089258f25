-- ===== src/Config/Normal/Shape.antt =====
-- internal/config/config.go: the normal form of a configuration.
use carteiro.Common.{
  All, Bytes, Option, [], codes, false, none, some, str_eq, str_eq_complete, true, ◌∷◌, ◌≡◌, ◌≢◌,
  ◌⊎◌, at_least,
}
use carteiro.Text.{trim_space, normalize, to_lower}
use carteiro.Config.Types.{Config, Tls, Storage, Api, Web, Account, DkimKey, Outside}
use carteiro.Config.Env.{one_of}
use carteiro.Config.Listen.{normalize_listen}
use carteiro.Config.Seeds.{email_of, domain_of, valid_email, normalize_extra_allowed}
use carteiro.Config.Seeds.Last.{HasDistinctKeys}
use carteiro.Config.Normal.{is_listen, log_levels}

-- A listen address that is in normal form, not blank, and has a host and a port.
abbrev pub IsListen : Bytes → Type 0
IsListen v = (normalize_listen v ≡ v) × (is_listen v ≡ true)

abbrev pub IsTls : Outside → Option Tls → Type 0
IsTls o none = Unit
IsTls o (some t) =
    (one_of t.mode (codes "starttls" ∷ codes "implicit" ∷ []) ≡ true)
    × ((t.cert_pem ≢ []) × (t.key_pem ≢ []))
    × (o.is_key_pair t.cert_pem t.key_pem ≡ true)

-- SQLite, or MySQL with a connection string.
abbrev pub IsStorage : Option Storage → Type 0
IsStorage none = ⊥
IsStorage (some st) =
    (st.kind ≡ codes "sqlite") ⊎ ((st.kind ≡ codes "mysql") × (trim_space st.dsn ≢ []))

-- The panel is on exactly when the API is, and the API has a token.
abbrev pub IsApi : Option Api → Option Web → Type 0
IsApi none none = Unit
IsApi none (some w) = ⊥
IsApi (some a) none = ⊥
IsApi (some a) (some w) =
    ((a.token ≢ []) × (trim_space a.token ≡ a.token))
    × (IsListen a.listen × (trim_space a.listen ≢ []))
    × (IsListen w.listen × (trim_space w.listen ≢ []))

abbrev pub IsAccount : Account → Type 0
IsAccount a =
    (normalize a.email ≡ a.email)
    × (valid_email a.email ≡ true)
    × (a.password ≢ [])
    × (normalize_extra_allowed a.allowed_from ≡ a.allowed_from)

abbrev pub IsKey : Outside → DkimKey → Type 0
IsKey o k =
    ((normalize k.domain ≡ k.domain) × (k.domain ≢ []))
    × (trim_space k.selector ≡ k.selector)
    × (k.key_data ≢ [])
    × (o.is_signer k.key_data ≡ true)

-- A configuration that the program can run with, in normal form.
pub record IsNormal (o : Outside) (c : Config) : Type 0 where
  pub listens : IsListen c.listen
  pub encrypts : IsTls o c.tls
  pub sizes : (at_least 1 c.max_message_size ≡ true) × (at_least 1 c.max_recipients ≡ true)
  pub keeps : (at_least 0 c.dead_max ≡ true) × (at_least 0 c.send_history_days ≡ true)
  pub stores : IsStorage c.storage
  pub serves : IsApi c.api c.web
  pub seeds : HasDistinctKeys email_of c.accounts × All IsAccount c.accounts
  pub signs : HasDistinctKeys domain_of c.dkim × All (IsKey o) c.dkim
  pub delivers :
      (at_least 1 c.delivery.max_attempts ≡ true) × (at_least 1 c.delivery.concurrency ≡ true)
  pub logs : one_of (to_lower c.log_level) log_levels ≡ true

pub str_eq-ne : (a b : Bytes) → str_eq a b ≡ false → a ≢ b
str_eq-ne a b h e = cc (h, str_eq_complete a b e)
