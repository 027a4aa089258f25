-- ===== src/Sends/Quoted/RoundTrip.antt =====
-- internal/sends/msg.go: what a reader of the encoded text gets back.
use carteiro.Common.{
  All, Bytes, [], ap, append-nil, append_assoc, arith, codes, if◌then◌else◌, length, ltb, refl, sym,
  ℕ, ◌%◌, ◌&&◌, ◌*◌, ◌++◌, ◌+◌, ◌-◌, ◌/◌, ◌<◌, ◌==◌, ◌∙◌, ◌∷◌, ◌≡◌, ◌≢◌, ◌≤◌,
}
use carteiro.Sends.Quoted.{escape, hex_digit, qp_from, token, qp_encode}

hex_value : ℕ → ℕ
hex_value d = if ltb d b'A' then d - b'0' else d - b'A' + 10

-- The decoder of RFC 2045: an escape is its byte, and a line's end behind `=` is dropped.
unfoldable pub unquote : Bytes → Bytes
unfolding hex_value
unquote (c ∷ d ∷ e ∷ s) =
    let soft = unquote s in
    let byte = (hex_value d * 16 + hex_value e) ∷ unquote s in
    let plain = c ∷ unquote (d ∷ e ∷ s) in
    if c == b'=' then (if d == b'\r' && e == b'\n' then soft else byte) else plain
unquote s = s

-- The text with its line ends as CR LF: other CRs are dropped.
unfoldable pub crlf_ends : Bytes → Bytes
crlf_ends [] = []
crlf_ends (c ∷ s) =
    if c == b'\r'
    then crlf_ends s
    else if c == b'\n'
    then codes "\r\n" ++ crlf_ends s
    else c ∷ crlf_ends s

unquote_nil : unquote [] ≡ []
unfolding unquote
unquote_nil = refl

unquote_plain : (c : ℕ) (s : Bytes) → c ≢ b'=' → unquote (c ∷ s) ≡ c ∷ unquote s
unfolding unquote
unquote_plain c [] h = refl
unquote_plain c (d ∷ []) h = refl
unquote_plain c (d ∷ e ∷ s) h = ground arith

unquote_soft : (s : Bytes) → unquote (codes "=\r\n" ++ s) ≡ unquote s
unfolding unquote
unquote_soft s = refl

hex_value-hex_digit : (n : ℕ) → n < 16 → hex_value (hex_digit n) ≡ n
unfolding hex_value
hex_value-hex_digit n h = ground arith

hex_digit_printable : (n : ℕ) → n < 16 → b'0' ≤ hex_digit n
hex_digit_printable n h = ground arith

unquote-escape : (c : ℕ) (s : Bytes) → c < 256 → unquote (escape c ++ s) ≡ c ∷ unquote s
unfolding unquote
unquote-escape c s h = ground (
  arith,
  hex_value-hex_digit (c / 16),
  hex_value-hex_digit (c % 16),
  hex_digit_printable (c / 16),
)

unquote-token : (c : ℕ) (rest s : Bytes) → c < 256 → unquote (token c rest ++ s) ≡ c ∷ unquote s
unfolding token
unquote-token c rest s h = ground (arith, unquote_plain c s, unquote-escape c s)

pub unquote-qp_from :
    (s t : Bytes) (col : ℕ)
    → All (λ c. c < 256) s
    → unquote (qp_from s col ++ t) ≡ crlf_ends s ++ unquote t
unfolding qp_from crlf_ends
unquote-qp_from [] t col h = refl
unquote-qp_from (c ∷ s) t col h =
    let n = length (token c s) in
    let skip = unquote-qp_from s t col h.1 in
    let line = unquote-qp_from s t 0 h.1 in
    let wrapped = unquote-qp_from s t n h.1 in
    let joined = unquote-qp_from s t (col + n) h.1 in
    ground (
      arith,
      unquote_plain 13 (10 ∷ (qp_from s 0 ++ t)),
      unquote_plain 10 (qp_from s 0 ++ t),
      append_assoc (token c s) (qp_from s n) t,
      append_assoc (token c s) (qp_from s (col + n)) t,
      unquote_soft (token c s ++ (qp_from s n ++ t)),
      unquote-token c s (qp_from s n ++ t) h.0,
      unquote-token c s (qp_from s (col + n) ++ t) h.0,
    )

-- Quoted-printable decoding of what the encoder writes gives back the text byte for byte, with its
-- line ends as CR LF.
pub unquote-qp_encode : (s : Bytes) → All (λ c. c < 256) s → unquote (qp_encode s) ≡ crlf_ends s
unfolding qp_encode
unquote-qp_encode s h =
    ap unquote (sym (append-nil (qp_from s 0)))
    ∙ unquote-qp_from s [] 0 h
    ∙ ap (λ t. crlf_ends s ++ t) unquote_nil
    ∙ append-nil (crlf_ends s)
