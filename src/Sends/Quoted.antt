-- ===== src/Sends/Quoted.antt =====
-- internal/sends/msg.go: qpEncode, the quoted-printable encoder of the composed bodies.
pub mod RoundTrip
pub mod Lines
use carteiro.Common.{
  Bool, Bytes, [], codes, false, if◌then◌else◌, leb, length, ltb, ℕ, ◌%◌, ◌&&◌, ◌++◌, ◌+◌, ◌-◌, ◌/◌,
  ◌==◌, ◌||◌, ◌∷◌,
}

abbrev pub hex_digit : ℕ → ℕ
hex_digit n = if ltb n 10 then b'0' + n else b'A' + (n - 10)

-- `fmt.Sprintf("=%02X", c)` of a byte.
abbrev pub escape : ℕ → Bytes
escape c = b'=' ∷ hex_digit (c / 16) ∷ hex_digit (c % 16) ∷ []

-- The byte after the current one ends a line.
abbrev pub before_end : Bytes → Bool
before_end [] = false
before_end (d ∷ rest) = d == b'\n' || d == b'\r'

-- What the byte `c` is written as, where `rest` follows it.
unfoldable pub token : ℕ → Bytes → Bytes
token c rest =
    if c == b'='
    then codes "=3D"
    else if c == b' ' || c == b'\t'
    then (if before_end rest then escape c else c ∷ [])
    else if leb 33 c && leb c 126
    then c ∷ []
    else escape c

-- The loop, with `col` bytes on the current line.
unfoldable pub qp_from : Bytes → ℕ → Bytes
unfolding token
qp_from [] col = []
qp_from (c ∷ rest) col =
    let skip = qp_from rest col in
    let line = codes "\r\n" ++ qp_from rest 0 in
    let tok = token c rest in
    let wrapped = codes "=\r\n" ++ (tok ++ qp_from rest (length tok)) in
    let joined = tok ++ qp_from rest (col + length tok) in
    if c == b'\r'
    then skip
    else if c == b'\n'
    then line
    else if ltb 76 (col + length tok) && ltb 0 col
    then wrapped
    else joined

unfoldable pub qp_encode : Bytes → Bytes
unfolding qp_from
qp_encode s = qp_from s 0
