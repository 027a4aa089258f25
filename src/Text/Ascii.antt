-- ===== src/Text/Ascii.antt =====
-- `strings.ToLower`, `ToUpper`, `TrimSpace`, `TrimLeft` and `TrimRight`. Bytes from 128 up are left
-- as they are: the texts are ASCII.
use carteiro.Common.{
  Bool, Bytes, [], ap, arith, false, if◌then◌else◌, leb, map, refl, ℕ, ◌&&◌, ◌+◌, ◌-◌, ◌==◌, ◌||◌,
  ◌∙◌, ◌∷◌, ◌≡◌,
}

unfoldable pub lower_byte : ℕ → ℕ
lower_byte c = if leb b'A' c && leb c b'Z' then c + 32 else c

unfoldable pub upper_byte : ℕ → ℕ
upper_byte c = if leb b'a' c && leb c b'z' then c - 32 else c

unfoldable pub to_lower : Bytes → Bytes
unfolding lower_byte
to_lower = map lower_byte

unfoldable pub to_upper : Bytes → Bytes
unfolding upper_byte
to_upper = map upper_byte

-- ASCII white space of package `unicode`: tab to carriage return, and the blank.
unfoldable pub is_space : ℕ → Bool
is_space c = (leb 9 c && leb c 13) || c == 32

unfoldable pub trim_left : (ℕ → Bool) → Bytes → Bytes
trim_left p [] = []
trim_left p (c ∷ s) = if p c then trim_left p s else c ∷ s

-- A trailing run of bytes of the set is dropped.
unfoldable pub trim_right : (ℕ → Bool) → Bytes → Bytes
trim_right p [] = []
trim_right p (c ∷ s) = elim (trim_right p s) [ [] ↦ if p c then [] else c ∷ [] | d ∷ r ↦ c ∷ d ∷ r ]

unfoldable pub trim : (ℕ → Bool) → Bytes → Bytes
unfolding trim_left trim_right
trim p s = trim_right p (trim_left p s)

unfoldable pub trim_space : Bytes → Bytes
unfolding is_space trim
trim_space = trim is_space

pub lower_byte_idem : (c : ℕ) → lower_byte (lower_byte c) ≡ lower_byte c
unfolding lower_byte
lower_byte_idem c = ground arith

pub to_lower_idem : (s : Bytes) → to_lower (to_lower s) ≡ to_lower s
unfolding to_lower
to_lower_idem [] = refl
to_lower_idem (c ∷ s) = ground (arith, lower_byte_idem c, to_lower_idem s)

pub is_space-lower_byte : (c : ℕ) → is_space (lower_byte c) ≡ is_space c
unfolding is_space lower_byte
is_space-lower_byte c = ground arith

-- Lower-casing and trimming commute, so the normal form of an address is the same either way.
pub trim_left-to_lower :
    (s : Bytes) → trim_left is_space (to_lower s) ≡ to_lower (trim_left is_space s)
unfolding trim_left to_lower
trim_left-to_lower [] = refl
trim_left-to_lower (c ∷ s) = ground (arith, is_space-lower_byte c, trim_left-to_lower s)

pub trim_right-to_lower :
    (s : Bytes) → trim_right is_space (to_lower s) ≡ to_lower (trim_right is_space s)
unfolding trim_right to_lower
trim_right-to_lower [] = refl
trim_right-to_lower (c ∷ s) = ground (arith, is_space-lower_byte c, trim_right-to_lower s)

pub trim_space-to_lower : (s : Bytes) → trim_space (to_lower s) ≡ to_lower (trim_space s)
unfolding trim_space trim
trim_space-to_lower s = rw (trim_left-to_lower s) (trim_right-to_lower (trim_left is_space s))

pub trim_right_idem : (p : ℕ → Bool) (s : Bytes) → trim_right p (trim_right p s) ≡ trim_right p s
unfolding trim_right
trim_right_idem p [] = refl
trim_right_idem p (c ∷ s) = ground (arith, trim_right_idem p s)

-- The text does not begin with a byte of the set.
abbrev Starts : (ℕ → Bool) → Bytes → Type 0
Starts p [] = Unit
Starts p (c ∷ s) = p c ≡ false

trim_left-Starts : (p : ℕ → Bool) (s : Bytes) → Starts p (trim_left p s)
unfolding trim_left
trim_left-Starts p [] = tt
trim_left-Starts p (c ∷ s) = ground (arith, trim_left-Starts p s)

trim_left_fixed : (p : ℕ → Bool) (s : Bytes) → Starts p s → trim_left p s ≡ s
unfolding trim_left
trim_left_fixed p [] h = refl
trim_left_fixed p (c ∷ s) h = ground arith

trim_right-Starts : (p : ℕ → Bool) (s : Bytes) → Starts p s → Starts p (trim_right p s)
unfolding trim_right
trim_right-Starts p [] h = tt
trim_right-Starts p (c ∷ s) h = ground arith

trim_right-cons :
    (c : ℕ) (s : Bytes)
    → is_space c ≡ false
    → trim_right is_space (c ∷ s) ≡ c ∷ trim_right is_space s
unfolding trim_right
trim_right-cons c s h = ground arith

pub trim_space_idem : (s : Bytes) → trim_space (trim_space s) ≡ trim_space s
unfolding trim_space trim
trim_space_idem s =
    let left = trim_left is_space s in
    let starts = trim_right-Starts is_space left (trim_left-Starts is_space s) in
    rw (trim_left_fixed is_space _ starts) (trim_right_idem is_space left)

-- A byte that is no white space stays in front of a trimmed text.
pub trim_space-cons :
    (c : ℕ) (s : Bytes) → is_space c ≡ false → trim_space (c ∷ trim_space s) ≡ c ∷ trim_space s
unfolding trim_space trim
trim_space-cons c s h =
    let left = trim_left is_space s in
    rw (trim_left_fixed is_space (c ∷ trim_right is_space left) h) (
      trim_right-cons c (trim_right is_space left) h
      ∙ ap (λ r. c ∷ r) (trim_right_idem is_space left))

-- `strings.ToLower(strings.TrimSpace(s))`, by which the program keeps addresses and domains.
unfoldable pub normalize : Bytes → Bytes
unfolding to_lower trim_space
normalize s = to_lower (trim_space s)

pub normalize_idem : (s : Bytes) → normalize (normalize s) ≡ normalize s
unfolding normalize
normalize_idem s =
    rw (trim_space-to_lower (trim_space s), trim_space_idem s) (to_lower_idem (trim_space s))
