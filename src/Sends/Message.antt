-- ===== src/Sends/Message.antt =====
-- internal/sends/msg.go: parseMsg. The decoders of packages `mime`, `mime/multipart`,
-- `mime/quotedprintable` and `utf8` are the fields of `Mime`.
use carteiro.Common.{
  Bool, Bytes, List, Option, [], codes, filter, if◌then◌else◌, ltb, none, not, some, str_eq, suc,
  take, zero, ℕ, ◌&&◌, ◌*◌, ◌+◌, ◌==◌, ◌^◌, ◌||◌, ◌∷◌,
}
use carteiro.Text.{has_prefix, trim_right, normalize, decode}
use carteiro.Sends.Recorder.{Parsed}
use carteiro.Sends.Headers.{Headers, header, header_end, parse_headers}
use carteiro.Sends.Charset.{decode_charset}

-- A part that `NextPart` returns. `content` is what can be read of it, and `complete` says that no
-- error comes before the end or the cap.
pub record Part : Type 0 where
  pub content_type : Bytes
  pub transfer_encoding : Bytes
  pub content : Bytes
  pub complete : Bool

pub record Mime : Type 0 where
  pub parse_media_type : Bytes → Option (Bytes × Headers)
  pub decode_header : (Bytes → Bytes → Bytes) → Bytes → Option Bytes
  pub read_quoted : Bytes → Option Bytes
  pub valid_utf8 : Bytes → Bool
  pub read_parts : Bytes → Bytes → List Part

abbrev pub max_part_bytes : ℕ
max_part_bytes = 2 * 2 ^ 20

abbrev pub nothing_parsed : Parsed
nothing_parsed = record { subject = []; text = []; html = [] }

abbrev is_blank : ℕ → Bool
is_blank c = c == b'\n' || c == b'\r' || c == b' ' || c == b'\t'

abbrev pub or_raw : Option Bytes → Bytes → Bytes
or_raw (some out) raw = out
or_raw none raw = raw

module _ (mime : Mime) where
  open mime use {parse_media_type, decode_header, read_quoted, valid_utf8, read_parts}

  unfoldable pub decode_cte : Bytes → Bytes → Bytes
  unfolding decode normalize str_eq
  decode_cte cte raw =
      if str_eq (normalize cte) (codes "base64")
      then or_raw (decode (filter (λ c. not (is_blank c)) raw)) raw
      else if str_eq (normalize cte) (codes "quoted-printable")
      then or_raw (read_quoted raw) raw
      else raw

  -- `charsetReader` as `WordDecoder` calls it.
  charset_reader : Bytes → Bytes → Bytes
  unfolding decode_charset
  charset_reader charset input = decode_charset valid_utf8 charset (take (64 * 1024) input)

  unfoldable pub decode_header_words : Bytes → Bytes
  unfolding charset_reader
  decode_header_words raw = or_raw (decode_header charset_reader raw) raw

  unfoldable pub collect_body : Bytes → Bytes → Bytes → Bytes → Parsed → Parsed
  unfolding decode_cte decode_charset trim_right str_eq has_prefix
  collect_body raw media_type charset cte p =
      let s =
        trim_right (λ c. c == b'\r' || c == b'\n')
          (decode_charset valid_utf8 charset (decode_cte cte raw)) in
      if str_eq media_type (codes "text/html")
      then record p { html = s }
      else if has_prefix media_type (codes "text/")
      then record p { text = s }
      else p

  -- The media type and the parameters; plain text where the field cannot be read.
  unfoldable pub media_type_of : Bytes → Bytes × Headers
  media_type_of ct = elim (parse_media_type ct) [ some m ↦ m | none ↦ (codes "text/plain", []) ]

  -- The boundary of a multipart type that has one; the empty text otherwise.
  unfoldable pub boundary_of : Bytes × Headers → Bytes
  unfolding has_prefix header
  boundary_of (mt, params) =
      if has_prefix mt (codes "multipart/") then header (codes "boundary") params else []

  -- `walk` on the parts within, given as a function. `seen` counts the parts.
  collect_part : (Bytes → Bytes → ℕ × Parsed → ℕ × Parsed) → Part → ℕ × Parsed → ℕ × Parsed
  unfolding media_type_of boundary_of collect_body header
  collect_part walk part (seen, p) =
      let m = media_type_of part.content_type in
      elim (boundary_of m) [
        | c ∷ b ↦ walk part.content (c ∷ b) (seen, p)
        | [] ↦
            if part.complete
            then (
              seen,
              collect_body (take max_part_bytes part.content) m.0 (header (codes "charset") m.1)
                  part.transfer_encoding p,
            )
            else (seen, p)
      ]

  each_part : (Bytes → Bytes → ℕ × Parsed → ℕ × Parsed) → List Part → ℕ × Parsed → ℕ × Parsed
  unfolding collect_part
  each_part walk [] acc = acc
  each_part walk (part ∷ rest) (seen, p) =
      each_part walk rest (collect_part walk part (seen + 1, p))

  -- The first argument is 5 less the depth, so that depth 5 returns at once.
  unfoldable pub walk : ℕ → Bytes → Bytes → ℕ × Parsed → ℕ × Parsed
  unfolding each_part
  walk zero r b acc = acc
  walk (suc levels) r b (seen, p) =
      if ltb 200 seen then (seen, p) else each_part (walk levels) (read_parts r b) (seen, p)

  unfoldable pub as_text : Bytes → Parsed
  unfolding decode_charset
  as_text text = record nothing_parsed { text = decode_charset valid_utf8 [] text }

  unfoldable pub subject_of : Bytes → Parsed → Parsed
  unfolding decode_header_words
  subject_of [] p = p
  subject_of (c ∷ raw) p = record p { subject = decode_header_words (c ∷ raw) }

  -- A body of one part. What is no text at all is shown as it is.
  unfoldable pub parse_single : Bytes → Bytes → Bytes → Bytes → Parsed → Parsed
  unfolding collect_body has_prefix str_eq
  parse_single body mt charset cte p =
      let q = collect_body body mt charset cte p in
      if not (has_prefix mt (codes "multipart/"))
        && str_eq q.text []
        && str_eq q.html []
        && not (str_eq body [])
      then collect_body body (codes "text/plain") charset cte q
      else q

  unfoldable pub parse_parts : Bytes → Headers → Parsed
  unfolding subject_of media_type_of boundary_of walk parse_single header
  parse_parts body hdrs =
      let p = subject_of (header (codes "subject") hdrs) nothing_parsed in
      let m = media_type_of (header (codes "content-type") hdrs) in
      let cte = header (codes "content-transfer-encoding") hdrs in
      elim (boundary_of m) [
        | c ∷ b ↦ (walk 5 body (c ∷ b) (0, p)).1
        | [] ↦ parse_single body m.0 (header (codes "charset") m.1) cte p
      ]

  unfoldable pub parse_msg : Bytes → Parsed
  unfolding header_end parse_headers parse_parts as_text
  parse_msg text = elim (header_end text) [
    | none ↦ as_text text
    | some (head, body) ↦ parse_parts body (parse_headers head)
  ]
