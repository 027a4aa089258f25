-- ===== src/Sends/Quoted/Lines.antt =====
-- internal/sends/msg.go: the lines of the encoded text.
use carteiro.Common.{
  All, All-append, Bool, Bytes, List, [], arith, codes, if_lem, if◌then◌else◌, inl, leb, length,
  ltb, refl, true, ℕ, ◌%◌, ◌&&◌, ◌++◌, ◌+◌, ◌/◌, ◌<◌, ◌==◌, ◌||◌, ◌∷◌, ◌≡◌, ◌≤◌, ◌⊎◌,
}
use carteiro.Sends.Quoted.{hex_digit, escape, qp_from, token, before_end, qp_encode}

-- The length of each line, its line end not counted, where `n` bytes of the first line are read.
unfoldable pub line_lengths : Bytes → ℕ → List ℕ
line_lengths [] n = n ∷ []
line_lengths (c ∷ s) n =
    if c == b'\r'
    then line_lengths s n
    else if c == b'\n'
    then n ∷ line_lengths s 0
    else line_lengths s (n + 1)

-- What a mail server passes on unchanged: tabs, line ends and printable ASCII.
abbrev pub is_text : ℕ → Bool
is_text c = c == 9 || c == b'\n' || c == b'\r' || (leb 32 c && leb c 126)

abbrev Short : Bytes → ℕ → Type 0
Short s n = All (λ m. m ≤ 77) (line_lengths s n)

hex_digit_range : (n : ℕ) → n < 16 → (b'0' ≤ hex_digit n) × (hex_digit n ≤ b'F')
hex_digit_range n h = ground arith

Short-one :
    (c : ℕ) (s : Bytes) (n m : ℕ) → m ≡ n + 1 → Short s m → (32 ≤ c) ⊎ (c ≡ 9) → Short (c ∷ s) n
unfolding line_lengths
Short-one c s n m e h p = ground arith

Short-escape :
    (c : ℕ) (s : Bytes) (n m : ℕ) → c < 256 → m ≡ n + 3 → Short s m → Short (escape c ++ s) n
Short-escape c s n m h e k =
    let hi = hex_digit_range (c / 16) (omega arith) in
    let lo = hex_digit_range (c % 16) (omega arith) in
    Short-one b'=' _ n (n + 1) refl
      (Short-one _ _ (n + 1) (n + 2) (omega arith)
        (Short-one _ s (n + 2) m (omega arith) k (inl (omega (arith, lo))))
        (inl (omega (arith, hi))))
      (inl (omega arith))

-- A text that may stand before any other, with the lengths counted on.
abbrev Joins : Bytes → Type 0
Joins t = (s : Bytes) (n m : ℕ) → m ≡ n + length t → Short s m → Short (t ++ s) n

Joins-one : (c : ℕ) → (32 ≤ c) ⊎ (c ≡ 9) → Joins (c ∷ [])
Joins-one c p s n m e k = Short-one c s n m e k p

Joins-escape : (c : ℕ) → c < 256 → Joins (escape c)
Joins-escape c h s n m e k = Short-escape c s n m h e k

Joins-token : (c : ℕ) (rest : Bytes) → c < 256 → Joins (token c rest)
unfolding token
Joins-token c rest h =
    if_lem Joins (c == b'=') _ _ (λ e. Joins-escape 61 (omega arith))
      λ _.
        if_lem Joins (c == b' ' || c == b'\t') _ _
          (λ e.
            if_lem Joins (before_end rest) _ _ (λ _. Joins-escape c h)
              (λ _. Joins-one c (ground arith)))
          λ _.
            if_lem Joins (leb 33 c && leb c 126) _ _ (λ e. Joins-one c (ground arith))
              (λ _. Joins-escape c h)

length-token : (c : ℕ) (rest : Bytes) → length (token c rest) ≤ 3
unfolding token
length-token c rest = ground arith

Short-nil : (n : ℕ) → n ≤ 76 → Short [] n
unfolding line_lengths
Short-nil n h = omega arith

Short-line : (s : Bytes) (n : ℕ) → n ≤ 77 → Short s 0 → Short (codes "\r\n" ++ s) n
unfolding line_lengths
Short-line s n h k = (h, k)

Short-soft : (s : Bytes) (n : ℕ) → n ≤ 76 → Short s 0 → Short (codes "=\r\n" ++ s) n
unfolding line_lengths
Short-soft s n h k = (omega arith, k)

Short-qp_from : (s : Bytes) (col : ℕ) → col ≤ 76 → All (λ c. c < 256) s → Short (qp_from s col) col
unfolding qp_from
Short-qp_from [] col b h = Short-nil col b
Short-qp_from (c ∷ s) col b h =
    let n = length (token c s) in
    let P = λ (t : Bytes). Short t col in
    if_lem P (c == b'\r') _ _ (λ _. Short-qp_from s col b h.1)
      λ _.
        if_lem P (c == b'\n') _ _
          (λ _. Short-line (qp_from s 0) col (omega arith) (Short-qp_from s 0 (omega arith) h.1))
          λ _.
            if_lem P (ltb 76 (col + n) && ltb 0 col) _ _
              (λ _. Short-soft (token c s ++ qp_from s n) col b (
                Joins-token c s h.0 (qp_from s n) 0 n (omega arith)
                  (Short-qp_from s n (omega (arith, length-token c s)) h.1)))
              (λ e.
                Joins-token c s h.0 (qp_from s (col + n)) col (col + n) refl
                  (Short-qp_from s (col + n) (ground (arith, length-token c s)) h.1))

abbrev Text : Bytes → Type 0
Text = All (λ c. is_text c ≡ true)

hex_digit-is_text : (n : ℕ) → n < 16 → is_text (hex_digit n) ≡ true
hex_digit-is_text n h = ground arith

Text-token : (c : ℕ) (rest : Bytes) → c < 256 → Text (token c rest)
unfolding token
Text-token c rest h = ground (arith, hex_digit-is_text (c / 16), hex_digit-is_text (c % 16))

Text-qp_from : (s : Bytes) (col : ℕ) → All (λ c. c < 256) s → Text (qp_from s col)
unfolding qp_from
Text-qp_from [] col h = tt
Text-qp_from (c ∷ s) col h =
    let n = length (token c s) in
    let tok = Text-token c s h.0 in
    let more = λ (k : ℕ).
      All-append (λ c. is_text c ≡ true) (token c s) (qp_from s k) tok (Text-qp_from s k h.1) in
    if_lem Text (c == b'\r') _ _ (λ _. Text-qp_from s col h.1)
      λ _.
        if_lem Text (c == b'\n') _ _ (λ _. (refl, (refl, Text-qp_from s 0 h.1)))
          λ _.
            if_lem Text (ltb 76 (col + n) && ltb 0 col) _ _ (λ _. (refl, (refl, (refl, more n))))
              (λ _. more (col + n))

-- The encoder writes only tabs, line ends and printable ASCII, in lines of at most 77 bytes.
pub qp_encode-Lines :
    (s : Bytes)
    → All (λ c. c < 256) s
    → All (λ c. is_text c ≡ true) (qp_encode s) × All (λ m. m ≤ 77) (line_lengths (qp_encode s) 0)
unfolding qp_encode
qp_encode-Lines s h = (Text-qp_from s 0 h, Short-qp_from s 0 (omega arith) h)
