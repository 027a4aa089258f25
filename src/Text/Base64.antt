-- ===== src/Text/Base64.antt =====
-- `base64.StdEncoding.DecodeString`: padded, line breaks ignored.
use carteiro.Common.{
  Bool, Bytes, Option, [], codes, filter, if◌then◌else◌, leb, none, not, refl, some, ℕ, ◌%◌, ◌&&◌,
  ◌*◌, ◌++◌, ◌+◌, ◌-◌, ◌/◌, ◌==◌, ◌||◌, ◌∷◌, ◌≡◌,
}

sextet : ℕ → Option ℕ
sextet c =
    if leb b'A' c && leb c b'Z'
    then some (c - b'A')
    else if leb b'a' c && leb c b'z'
    then some (c - b'a' + 26)
    else if leb b'0' c && leb c b'9'
    then some (c - b'0' + 52)
    else if c == b'+'
    then some 62
    else if c == b'/'
    then some 63
    else none

infixl 5 ◌>>=◌
abbrev ◌>>=◌ : {A B : Type 0} → Option A → (A → Option B) → Option B
none >>= f = none
some a >>= f = f a

-- The last group may end in one or two `=`.
last_quad : ℕ → ℕ → ℕ → ℕ → Option Bytes
unfolding sextet
last_quad a b c d = do
  x ← sextet a
  y ← sextet b
  if c == b'=' then (if d == b'=' then some ((x * 4 + y / 16) ∷ []) else none) else (do
    z ← sextet c
    if d == b'=' then some ((x * 4 + y / 16) ∷ (y % 16 * 16 + z / 4) ∷ []) else (do
      w ← sextet d
      some ((x * 4 + y / 16) ∷ (y % 16 * 16 + z / 4) ∷ (z % 4 * 64 + w) ∷ [])))

full_quad : ℕ → ℕ → ℕ → ℕ → Option Bytes
unfolding sextet
full_quad a b c d = do
  x ← sextet a
  y ← sextet b
  z ← sextet c
  w ← sextet d
  some ((x * 4 + y / 16) ∷ (y % 16 * 16 + z / 4) ∷ (z % 4 * 64 + w) ∷ [])

quads : Bytes → Option Bytes
unfolding last_quad full_quad
quads [] = some []
quads (a ∷ b ∷ c ∷ d ∷ []) = last_quad a b c d
quads (a ∷ b ∷ c ∷ d ∷ e ∷ rest) = do
  triple ← full_quad a b c d
  more ← quads (e ∷ rest)
  some (triple ++ more)
quads _ = none

abbrev is_break : ℕ → Bool
is_break c = c == b'\n' || c == b'\r'

unfoldable pub decode : Bytes → Option Bytes
unfolding quads
decode s = quads (filter (λ c. not (is_break c)) s)

decode_runs :
    (decode (codes "dXNlcg==") ≡ some (codes "user"))
    × (decode (codes "cGFzcw") ≡ none)
    × (decode (codes "AGEA\r\nYg==") ≡ some (0 ∷ b'a' ∷ 0 ∷ b'b' ∷ []))
unfolding decode
decode_runs = (refl, refl, refl)
