-- ===== src/Sends/Charset.antt =====
-- internal/sends/msg.go: decodeCharset and the two single-byte character sets. A rune is written in
-- UTF-8; the runes here are below 2 ^ 16, and none is a surrogate.
use carteiro.Common.{
  Bool, Bytes, List, [], any, codes, false, if◌then◌else◌, leb, ltb, refl, str_eq, suc, zero, ℕ,
  ◌%◌, ◌++◌, ◌+◌, ◌-◌, ◌/◌, ◌∷◌, ◌≡◌,
}
use carteiro.Text.{normalize}

-- `strings.Builder.WriteRune`.
unfoldable pub write_rune : ℕ → Bytes
write_rune r =
    if ltb r 0x80
    then r ∷ []
    else if ltb r 0x800
    then (0xC0 + r / 64) ∷ (0x80 + r % 64) ∷ []
    else (0xE0 + r / 4096) ∷ (0x80 + r / 64 % 64) ∷ (0x80 + r % 64) ∷ []

unfoldable pub latin1_to_utf8 : Bytes → Bytes
unfolding write_rune
latin1_to_utf8 [] = []
latin1_to_utf8 (c ∷ s) = (if ltb c 0x80 then c ∷ [] else write_rune c) ++ latin1_to_utf8 s

-- The runes of the bytes from 0x80 to 0x9F.
abbrev pub cp1252_high : List ℕ
cp1252_high =
    0x20AC ∷ 0x81 ∷ 0x201A ∷ 0x192 ∷ 0x201E ∷ 0x2026 ∷ 0x2020 ∷ 0x2021 ∷ 0x2C6 ∷ 0x2030 ∷ 0x160
    ∷ 0x2039 ∷ 0x152 ∷ 0x8D ∷ 0x17D ∷ 0x8F ∷ 0x90 ∷ 0x2018 ∷ 0x2019 ∷ 0x201C ∷ 0x201D ∷ 0x2022
    ∷ 0x2013 ∷ 0x2014 ∷ 0x2DC ∷ 0x2122 ∷ 0x161 ∷ 0x203A ∷ 0x153 ∷ 0x9D ∷ 0x17E ∷ 0x178 ∷ []

-- The indices that occur lie in the table.
abbrev high_rune : ℕ → List ℕ → ℕ
high_rune i [] = 0
high_rune zero (r ∷ rs) = r
high_rune (suc i) (r ∷ rs) = high_rune i rs

unfoldable pub cp1252_to_utf8 : Bytes → Bytes
unfolding write_rune
cp1252_to_utf8 [] = []
cp1252_to_utf8 (c ∷ s) =
    (if ltb c 0x80
      then c ∷ []
      else if leb 0xA0 c
      then write_rune c
      else write_rune (high_rune (c - 0x80) cp1252_high))
    ++ cp1252_to_utf8 s

abbrev pub one_of : Bytes → List Bytes → Bool
one_of s names = any (str_eq s) names

-- `valid_utf8` is `utf8.Valid`.
unfoldable pub decode_charset : (Bytes → Bool) → Bytes → Bytes → Bytes
unfolding latin1_to_utf8 cp1252_to_utf8 normalize str_eq
decode_charset valid_utf8 charset b =
    let cs = normalize charset in
    if one_of cs ([] ∷ codes "utf-8" ∷ codes "utf8" ∷ codes "us-ascii" ∷ codes "ascii" ∷ [])
    then b
    else if one_of cs (codes "iso-8859-1" ∷ codes "iso8859-1" ∷ codes "latin1" ∷ [])
    then latin1_to_utf8 b
    else if one_of cs (codes "windows-1252" ∷ codes "cp1252" ∷ [])
    then cp1252_to_utf8 b
    else if valid_utf8 b
    then b
    else latin1_to_utf8 b

decode_charset_runs :
    (decode_charset (λ _. false) (codes " Latin1") (0xE9 ∷ []) ≡ 0xC3 ∷ 0xA9 ∷ [])
    × (decode_charset (λ _. false) (codes "cp1252") (0x80 ∷ b'a' ∷ [])
        ≡ 0xE2 ∷ 0x82 ∷ 0xAC ∷ b'a' ∷ [])
unfolding decode_charset
decode_charset_runs = (refl, refl)
