-- ===== src/Dnscheck/Types.antt =====
-- internal/dnscheck/dnscheck.go: the resolver, the grades and the report.
use carteiro.Common.{Bool, Bytes, List, false, true, ℕ}

-- What a look-up gives; an error comes with its text.
pub data Lookup (A : Type 0) : Type 0 where
  answer : List A → Lookup A
  no_answer : Bytes → Lookup A

pub record Mx : Type 0 where
  pub host : Bytes
  pub pref : ℕ

pub record Resolver : Type 0 where
  pub lookup_txt : Bytes → Lookup Bytes
  pub lookup_mx : Bytes → Lookup Mx
  pub lookup_host : Bytes → Lookup Bytes
  pub lookup_addr : Bytes → Lookup Bytes

-- `Status`.
pub data Grade : Type 0 where
  pass warn fail info : Grade

abbrev pub same_grade : Grade → Grade → Bool
same_grade pass pass = true
same_grade warn warn = true
same_grade fail fail = true
same_grade info info = true
same_grade _ _ = false

pub record Result : Type 0 where
  pub name : Bytes
  pub label : Bytes
  pub status : Grade
  pub message : Bytes
  pub found : List Bytes
  pub expected : Bytes

-- `all_good` is the field `OK`.
pub record Report : Type 0 where
  pub domain : Bytes
  pub selector : Bytes
  pub hostname : Bytes
  pub all_good : Bool
  pub passed : ℕ
  pub warnings : ℕ
  pub failures : ℕ
  pub checks : List Result

pub record Request : Type 0 where
  pub domain : Bytes
  pub selector : Bytes
  pub private_key_pem : Bytes
  pub hostname : Bytes

-- The public record of a private key, or the text of the error of `ParseSigner` or `PublicRecord`.
pub data Key : Type 0 where
  derived bad_key no_public : Bytes → Key
