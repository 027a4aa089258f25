-- ===== src/Sends/Compose.antt =====
-- internal/sends/msg.go: BuildMessage. The date, the random boundary and the encoding of the subject
-- (`mime.QEncoding`) are arguments.
use carteiro.Common.{
  Bool, Bytes, List, Option, [], any, codes, if◌then◌else◌, length, ltb, none, some, str_eq, ℕ, ◌%◌,
  ◌&&◌, ◌++◌, ◌+◌, ◌-◌, ◌/◌, ◌==◌, ◌∷◌, not,
}
use carteiro.Text.{join, contains_any, trim_space}
use carteiro.Sends.Quoted.{qp_encode}

pub data ComposeError : Type 0 where
  no_id no_sender no_recipient no_body line_break no_boundary : ComposeError

pub data Composed : Type 0 where
  message : Bytes → Composed
  invalid : ComposeError → Composed

-- What one call takes from its surroundings. `random` is `none` if the random source fails.
pub record Surroundings : Type 0 where
  pub date : Bytes
  pub random : Option Bytes
  pub encode_subject : Bytes → Bytes

abbrev pub has_break : Bytes → Bool
has_break v = contains_any v (codes "\r\n")

abbrev pub lower_hex : ℕ → ℕ
lower_hex n = if ltb n 10 then b'0' + n else b'a' + (n - 10)

-- `hex.EncodeToString`.
abbrev pub hex : Bytes → Bytes
hex [] = []
hex (c ∷ s) = lower_hex (c / 16) ∷ lower_hex (c % 16) ∷ hex s

-- Each text with its line end, as the closure `w` writes it.
abbrev pub lines : List Bytes → Bytes
lines [] = []
lines (l ∷ ls) = l ++ (codes "\r\n" ++ lines ls)

unfoldable pub head_lines : Surroundings → Bytes → Bytes → List Bytes → Bytes → List Bytes
unfolding join
head_lines w id from to subject =
    (codes "Date: " ++ w.date)
    ∷ (codes "From: " ++ from)
    ∷ (codes "To: " ++ join (codes ", ") to)
    ∷ (codes "Subject: " ++ w.encode_subject subject)
    ∷ (codes "Message-ID: <" ++ (id ++ codes "@carteiro>"))
    ∷ codes "MIME-Version: 1.0"
    ∷ codes "Auto-Submitted: auto-generated"
    ∷ []

abbrev pub body_lines : Bytes → List Bytes
body_lines media_type =
    (codes "Content-Type: " ++ (media_type ++ codes "; charset=\"utf-8\""))
    ∷ codes "Content-Transfer-Encoding: quoted-printable"
    ∷ []

unfoldable pub quoted_body : Bytes → Bytes
unfolding qp_encode
quoted_body content = qp_encode content ++ codes "\r\n"

-- The closure `writePart`.
unfoldable pub write_part : Bytes → Bytes → Bytes → Bytes
unfolding quoted_body
write_part boundary media_type content =
    lines ((codes "--" ++ boundary) ∷ body_lines media_type)
    ++ (codes "\r\n" ++ quoted_body content)

unfoldable pub alternative : Bytes → Bytes → Bytes → Bytes
unfolding write_part
alternative boundary text html =
    lines (
      (codes "Content-Type: multipart/alternative; boundary=\"" ++ (boundary ++ codes "\""))
      ∷ []
      ∷ [])
    ++ (write_part boundary (codes "text/plain") text
        ++ (write_part boundary (codes "text/html") html
            ++ lines ((codes "--" ++ (boundary ++ codes "--")) ∷ [])))

-- The header fields of a message with one body, the blank line and the body.
unfoldable pub single : List Bytes → Bytes → Bytes → Bytes
unfolding quoted_body
single head media_type content =
    lines (head ++ body_lines media_type) ++ (codes "\r\n" ++ quoted_body content)

abbrev pub or_no_subject : Bytes → Bytes
or_no_subject [] = codes "(no subject)"
or_no_subject (c ∷ s) = c ∷ s

unfoldable pub write_message : List Bytes → Bytes → Bytes → Bytes → Bytes
unfolding single alternative str_eq
write_message head random text html =
    if not (str_eq html []) && not (str_eq text [])
    then lines head ++ alternative (codes "carteiro-" ++ hex random) text html
    else if not (str_eq html [])
    then single head (codes "text/html") html
    else single head (codes "text/plain") text

unfoldable pub build_message :
    Surroundings → Bytes → Bytes → List Bytes → Bytes → Bytes → Bytes → Composed
unfolding write_message head_lines contains_any trim_space str_eq
build_message w id from to subject text html =
    if str_eq id []
    then invalid no_id
    else if str_eq from []
    then invalid no_sender
    else if length to == 0
    then invalid no_recipient
    else if str_eq (trim_space text) [] && str_eq (trim_space html) []
    then invalid no_body
    else if any has_break (to ++ from ∷ subject ∷ [])
    then invalid line_break
    else elim w.random [
      | none ↦ invalid no_boundary
      | some bytes ↦
          message (write_message (head_lines w id from to (or_no_subject subject)) bytes text html)
    ]
