-- ===== src/Storage/Bcrypt.antt =====
-- golang.org/x/crypto/bcrypt, which internal/storage/accounts.go calls: hashing draws a salt and may
-- fail; a hash verifies the password that it was made of.
use carteiro.Common.{
  Bool, Bytes, Option, [], arith, false, some, str_eq, str_eq_complete, true, ℕ, ◌∷◌, ◌≡◌,
}

pub record Bcrypt : Type 0 where
  pub generate : ℕ → Bytes → Option Bytes
  pub compare_hash : Bytes → Bytes → Bool
  pub generate-compare_hash :
      (salt : ℕ) (plain hash : Bytes)
      → generate salt plain ≡ some hash
      → compare_hash hash plain ≡ true

-- A value: the hash is the salt before the password.
unfoldable pub salted : ℕ → Bytes → Option Bytes
salted salt plain = some (salt ∷ plain)

unfoldable pub behind_salt : Bytes → Bytes → Bool
behind_salt [] plain = false
behind_salt (salt ∷ hashed) plain = str_eq hashed plain

pub salted-behind_salt :
    (salt : ℕ) (plain hash : Bytes) → salted salt plain ≡ some hash → behind_salt hash plain ≡ true
unfolding salted behind_salt
salted-behind_salt salt plain [] h = cc
salted-behind_salt salt plain (x ∷ hashed) h = str_eq_complete hashed plain (ground arith)

unfoldable pub toy_bcrypt : Bcrypt
unfolding salted behind_salt
toy_bcrypt = record {
  generate = salted;
  compare_hash = behind_salt;
  generate-compare_hash = salted-behind_salt;
}
