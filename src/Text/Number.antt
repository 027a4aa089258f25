-- ===== src/Text/Number.antt =====
-- `strconv.ParseInt(s, 10, 64)` and `strconv.Atoi` where the result is not negative, and `%d`.
use carteiro.Common.{
  Bytes, Option, [], codes, if◌then◌else◌, leb, ltb, none, refl, some, suc, zero, ℕ, ◌%◌, ◌*◌, ◌+◌,
  ◌-◌, ◌/◌, ◌==◌, ◌^◌, ◌||◌, ◌∷◌, ◌≡◌, ℤ, pos, negsuc,
}

abbrev pub max_int64 : ℕ
max_int64 = 2 ^ 63 - 1

digits : Bytes → ℕ → Option ℕ
digits [] n = some n
digits (c ∷ s) n =
    let more = digits s (n * 10 + (c - b'0')) in if ltb c b'0' || ltb b'9' c then none else more

-- The value of a text of one or more digits, if it fits 63 bits.
magnitude : Bytes → Option ℕ
unfolding digits
magnitude [] = none
magnitude (c ∷ s) = elim (digits (c ∷ s) 0) [
  | none ↦ none
  | some n ↦ if leb n max_int64 then some n else none
]

-- `none` where `ParseInt` fails, and also where the number is negative, which every caller refuses
-- in the same way as a failure. `-0` is 0.
unfoldable pub parse_int : Bytes → Option ℕ
unfolding magnitude
parse_int [] = none
parse_int (c ∷ s) =
    if c == b'+'
    then magnitude s
    else if c == b'-'
    then elim (magnitude s) [ none ↦ none | some n ↦ if n == 0 then some 0 else none ]
    else magnitude (c ∷ s)

-- Fuel: a number has at most as many digits as its value plus one.
emit : ℕ → ℕ → Bytes → Bytes
emit zero n out = out
emit (suc fuel) n out =
    let more = emit fuel (n / 10) ((b'0' + n % 10) ∷ out) in
    if ltb n 10 then (b'0' + n) ∷ out else more

unfoldable pub itoa : ℕ → Bytes
unfolding emit
itoa n = emit (suc n) n []

itoa_runs : itoa 1204 ≡ codes "1204"
unfolding itoa
itoa_runs = refl

-- The value of one or more digits.
digits_of : Bytes → Option ℕ
unfolding digits
digits_of [] = none
digits_of (c ∷ s) = digits (c ∷ s) 0

negated : ℕ → Option ℤ
negated zero = some (pos 0)
negated (suc n) = if leb (suc n) (2 ^ 63) then some (negsuc n) else none

-- `strconv.ParseInt(s, 10, 64)` and `strconv.Atoi`, with the sign.
unfoldable pub parse_signed : Bytes → Option ℤ
unfolding digits_of negated parse_int
parse_signed [] = none
parse_signed (c ∷ s) =
    if c == b'-'
    then elim (digits_of s) [ none ↦ none | some n ↦ negated n ]
    else elim (parse_int (c ∷ s)) [ none ↦ none | some n ↦ some (pos n) ]
