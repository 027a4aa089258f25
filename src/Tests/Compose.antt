-- ===== src/Tests/Compose.antt =====
-- The theorems on internal/sends/msg.go for a short message.
use carteiro.Common.{
  All, Bytes, [], ap, arith, codes, false, if◌then◌else◌, none, refl, some, str_eq, suc, true, zero,
  ℕ, ◌∷◌, ◌≡◌, ◌≢◌, ◌≤◌,
}
use carteiro.Text.{trim_space, trim_right, contains_any}
use carteiro.Sends.Quoted.{qp_encode}
use carteiro.Sends.Quoted.Lines.{qp_encode-Lines, line_lengths, is_text}
use carteiro.Sends.Quoted.RoundTrip.{unquote}
use carteiro.Sends.Compose.{Surroundings, build_message, message, invalid}
use carteiro.Sends.Message.{Mime, parse_msg}
use carteiro.Sends.Shown.Body.{shown_text}
use carteiro.Sends.Shown.Message.{IsMime, utf8_type, EndsVisibly}
use carteiro.Sends.Shown.Composed.{parse_msg-build_message}

abbrev note : Bytes
note = codes "1 = 1\nbye"

qp_encode-Lines_example :
    All (λ c. is_text c ≡ true) (qp_encode note)
    × All (λ m. m ≤ 77) (line_lengths (qp_encode note) 0)
qp_encode-Lines_example = qp_encode-Lines note (omega arith)

-- A line that is broken has 77 bytes, where RFC 2045 allows 76.
abbrev repeat : ℕ → Bytes
repeat zero = []
repeat (suc n) = b'x' ∷ repeat n

too_long_line : line_lengths (qp_encode (repeat 77)) 0 ≡ 77 ∷ 1 ∷ []
unfolding line_lengths qp_encode
too_long_line = refl

abbrev plain : Bytes
plain = codes "text/plain; charset=\"utf-8\""

abbrev toy_mime : Mime
toy_mime = record {
  parse_media_type = λ ct. if str_eq ct plain then some (utf8_type (codes "text/plain")) else none;
  decode_header = λ reader raw. some raw;
  read_quoted = λ s. some (unquote s);
  valid_utf8 = λ s. true;
  read_parts = λ r b. [];
}

toy_mime-IsMime : IsMime toy_mime
unfolding str_eq
toy_mime-IsMime = record { plain_type = refl; quoted = λ s b v. refl }

abbrev around : Surroundings
around = record { date = codes "today"; random = some (1 ∷ 2 ∷ []); encode_subject = λ s. s }

abbrev letter : Bytes
letter =
    elim (build_message around (codes "id") (codes "ann@x") (codes "b@y" ∷ []) (codes "Hi") note
      []) [ message m ↦ m | invalid e ↦ [] ]

letter_built :
    build_message around (codes "id") (codes "ann@x") (codes "b@y" ∷ []) (codes "Hi") note []
    ≡ message letter
unfolding build_message
letter_built = refl

note_ends : EndsVisibly note
unfolding trim_right
note_ends = refl

lines_are_whole : contains_any (codes "today") (codes "\r\n") ≡ false
unfolding contains_any
lines_are_whole = refl

id_is_whole : contains_any (codes "id") (codes "\r\n") ≡ false
unfolding contains_any
id_is_whole = refl

subject_is_whole : contains_any (codes "Hi") (codes "\r\n") ≡ false
unfolding contains_any
subject_is_whole = refl

subject_trimmed : trim_space (codes "Hi") ≡ codes "Hi"
unfolding trim_space
subject_trimmed = refl

subject_given : trim_space (codes "Hi") ≢ []
unfolding trim_space
subject_given e = cc e

parse_msg-build_message_example :
    parse_msg toy_mime letter ≡ record { subject = codes "Hi"; text = shown_text note; html = [] }
parse_msg-build_message_example =
    parse_msg-build_message toy_mime toy_mime-IsMime around (codes "id") (codes "ann@x")
      (codes "b@y" ∷ []) (codes "Hi") note letter letter_built
      (lines_are_whole, id_is_whole, subject_is_whole) (omega arith, note_ends) subject_given
      (λ reader. ap some subject_trimmed)
