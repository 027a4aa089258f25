-- ===== src/Smtpd/Parse.antt =====
-- internal/smtpd/session.go: `splitCommand`, `splitEnvelope`, `paramSize`, `validEnvelopeAddr`.
use carteiro.Common.{
  Bool, Bytes, List, [], codes, drop, false, if◌then◌else◌, length, none, not, refl, some, true, ℕ,
  ◌+◌, ◌==◌, ◌||◌, ◌∷◌, ◌≡◌,
}
use carteiro.Text.{
  trim_left, trim_right, cut_any, trim_space, trim_prefix, has_prefix, cut, fields, parse_int,
  to_upper, last_index_byte, contains_any,
}

abbrev is_blank : ℕ → Bool
is_blank c = c == b' '

abbrev is_blank_or_tab : ℕ → Bool
is_blank_or_tab c = c == b' ' || c == b'\t'

-- The verb, and the argument with the white space around it trimmed.
unfoldable pub split_command : Bytes → Bytes × Bytes
unfolding trim_left trim_right cut_any trim_space
split_command line =
    let trimmed = trim_right is_blank (trim_left is_blank line) in
    elim (cut_any is_blank_or_tab trimmed) [
      | none ↦ (trimmed, [])
      | some (verb, arg) ↦ (verb, trim_space arg)
    ]

-- An address without `<`: the first field, and what stands behind it.
bare_envelope : Bytes → List Bytes → Bytes × Bytes
unfolding trim_space trim_prefix
bare_envelope s [] = ([], [])
bare_envelope s (f ∷ rest) = (f, trim_space (trim_prefix s f))

-- `s` is trimmed.
envelope_of : Bytes → Bytes × Bytes
unfolding has_prefix cut trim_space fields bare_envelope
envelope_of s =
    if has_prefix s (codes "<")
    then elim (cut s b'>') [
      | some (before, behind) ↦ (drop 1 before, trim_space behind)
      | none ↦ (drop 1 s, [])
    ]
    else bare_envelope s (fields s)

unfoldable pub split_envelope : Bytes → Bytes × Bytes
unfolding envelope_of trim_space
split_envelope s = envelope_of (trim_space s)

-- The loop over the fields, for the first `SIZE=` whose value is a number.
size_of : List Bytes → ℕ
unfolding has_prefix parse_int trim_space
size_of [] = 0
size_of (f ∷ fs) =
    let rest = size_of fs in
    if has_prefix f (codes "SIZE=")
    then elim (parse_int (trim_space (drop 5 f))) [ none ↦ rest | some n ↦ n ]
    else rest

unfoldable pub param_size : Bytes → ℕ
unfolding size_of fields to_upper
param_size params = size_of (fields (to_upper params))

-- The bytes that no address may hold.
abbrev pub forbidden : Bytes
forbidden = codes " \t<>()"

unfoldable pub valid_envelope_addr : Bytes → Bool
unfolding last_index_byte contains_any
valid_envelope_addr addr = elim (last_index_byte addr b'@') [
  | none ↦ false
  | some at ↦ if at == 0 || at + 1 == length addr then false else not (contains_any addr forbidden)
]

splits :
    (split_command (codes "  MAIL \tFROM:<a@b> ") ≡ (codes "MAIL", codes "FROM:<a@b>"))
    × (split_envelope (codes "<a@b> SIZE=10 ") ≡ (codes "a@b", codes "SIZE=10"))
    × (split_envelope (codes "a@b SIZE=10") ≡ (codes "a@b", codes "SIZE=10"))
    × (param_size (codes "BODY=8BITMIME size=10") ≡ 10)
unfolding split_command split_envelope param_size
splits = (refl, refl, refl, refl)

valid :
    (valid_envelope_addr (codes "a@b") ≡ true)
    × (valid_envelope_addr (codes "@b") ≡ false)
    × (valid_envelope_addr (codes "a@") ≡ false)
    × (valid_envelope_addr (codes "a b@c") ≡ false)
unfolding valid_envelope_addr
valid = (refl, refl, refl, refl)
