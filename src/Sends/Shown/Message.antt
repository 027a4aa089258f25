-- ===== src/Sends/Shown/Message.antt =====
-- internal/sends/msg.go: parseMsg reads back what BuildMessage has written.
use carteiro.Common.{
  All, Bytes, [], ap, codes, if_lem, if◌then◌else◌, not, refl, some, str_eq, subst, sym, ◌&&◌, ◌++◌,
  ◌<◌, ◌==◌, ◌||◌, ◌∙◌, ◌∷◌, ◌≡◌, ◌≢◌,
}
use carteiro.Text.{trim_right, normalize, has_prefix}
use carteiro.Sends.Recorder.{Parsed}
use carteiro.Sends.Quoted.RoundTrip.{unquote, crlf_ends}
use carteiro.Sends.Charset.{decode_charset}
use carteiro.Sends.Headers.{Headers, header}
use carteiro.Sends.Compose.{quoted_body}
use carteiro.Sends.Message.{
  Mime, collect_body, decode_cte, or_raw, parse_single, parse_parts, boundary_of, subject_of,
  media_type_of, decode_header_words, walk, nothing_parsed,
}
use carteiro.Sends.Shown.Body.{shown_text, unquote-quoted_body, trim_right-append, is_end}

-- No blank or tab at the end: a decoder drops those, as RFC 2045 has it.
abbrev pub EndsVisibly : Bytes → Type 0
EndsVisibly s = trim_right (λ c. c == b' ' || c == b'\t') s ≡ s

abbrev pub utf8_type : Bytes → Bytes × Headers
utf8_type media_type = (media_type, (codes "charset", codes "utf-8") ∷ [])

-- What the packages `mime` and `mime/quotedprintable` document of the texts that occur here.
pub record IsMime (mime : Mime) : Type 0 where
  pub plain_type :
      mime.parse_media_type (codes "text/plain; charset=\"utf-8\"")
      ≡ some (utf8_type (codes "text/plain"))
  pub quoted :
      (s : Bytes)
      → All (λ c. c < 256) s
      → EndsVisibly s
      → mime.read_quoted (quoted_body s) ≡ some (unquote (quoted_body s))

module _ (mime : Mime) where
  subject_of-read :
      (raw subject : Bytes)
      → raw ≢ []
      → ((reader : Bytes → Bytes → Bytes) → mime.decode_header reader raw ≡ some subject)
      → subject_of mime raw nothing_parsed ≡ record nothing_parsed { subject = subject }
  unfolding subject_of decode_header_words
  subject_of-read [] subject n reads = absurd (n refl)
  subject_of-read (c ∷ raw) subject n reads =
      ap (λ o. record nothing_parsed { subject = or_raw o (c ∷ raw) }) (reads _)

module _ (mime : Mime) (laws : IsMime mime) (content : Bytes) (bytes : All (λ c. c < 256) content)
    (visible : EndsVisibly content) where
  decode_cte-quoted :
      decode_cte mime (codes "quoted-printable") (quoted_body content)
      ≡ crlf_ends content ++ codes "\r\n"
  unfolding decode_cte normalize str_eq
  decode_cte-quoted =
      ap (λ o. or_raw o (quoted_body content)) (laws.quoted content bytes visible)
      ∙ unquote-quoted_body content bytes

  decode_charset-utf8 : (b : Bytes) → decode_charset mime.valid_utf8 (codes "utf-8") b ≡ b
  unfolding decode_charset normalize str_eq
  decode_charset-utf8 b = refl

  collect_body-plain :
      (p : Parsed)
      → collect_body mime
          (quoted_body content)
          (codes "text/plain")
          (codes "utf-8")
          (codes "quoted-printable")
          p
        ≡ record p { text = shown_text content }
  unfolding collect_body str_eq has_prefix shown_text
  collect_body-plain p =
      ap (λ b. record p { text = trim_right is_end b }) (decode_charset-utf8 _ ∙ decode_cte-quoted)
      ∙ ap (λ t. record p { text = t }) (trim_right-append (crlf_ends content))

  parse_single-plain :
      (p : Parsed)
      → parse_single mime
          (quoted_body content)
          (codes "text/plain")
          (codes "utf-8")
          (codes "quoted-printable")
          p
        ≡ record p { text = shown_text content }
  unfolding parse_single
  parse_single-plain p =
      let body = quoted_body content in
      let again = λ (q : Parsed).
        collect_body mime body (codes "text/plain") (codes "utf-8") (codes "quoted-printable") q in
      let shown = record p { text = shown_text content } in
      let test = λ (q : Parsed).
        not (has_prefix (codes "text/plain") (codes "multipart/"))
        && str_eq q.text []
        && str_eq q.html []
        && not (str_eq body []) in
      subst (λ q. (if test q then again q else q) ≡ shown) (sym (collect_body-plain p))
        (if_lem (λ r. r ≡ shown) (test shown) (again shown) shown (λ _. collect_body-plain shown)
          (λ _. refl))

  media_type-plain :
      media_type_of mime (codes "text/plain; charset=\"utf-8\"") ≡ utf8_type (codes "text/plain")
  unfolding media_type_of
  media_type-plain = rw (laws.plain_type, media_type_of) refl

  pub parse_parts-plain :
      (hdrs : Headers) (raw subject : Bytes)
      → header (codes "subject") hdrs ≡ raw
      → header (codes "content-type") hdrs ≡ codes "text/plain; charset=\"utf-8\""
      → header (codes "content-transfer-encoding") hdrs ≡ codes "quoted-printable"
      → raw ≢ []
      → ((reader : Bytes → Bytes → Bytes) → mime.decode_header reader raw ≡ some subject)
      → parse_parts mime (quoted_body content) hdrs
        ≡ record { subject = subject; text = shown_text content; html = [] }
  unfolding parse_parts boundary_of has_prefix header str_eq
  parse_parts-plain hdrs raw subject s ct cte n reads =
      let body = quoted_body content in
      let by_type = λ (m : Bytes × Headers) (cte : Bytes) (p : Parsed).
        elim (boundary_of mime m) as (λ _. Parsed) [
          | c ∷ b ↦ (walk mime 5 body (c ∷ b) (0, p)).1
          | [] ↦ parse_single mime body m.0 (header (codes "charset") m.1) cte p
        ] in
      let G =
        λ (a b d : Bytes). by_type (media_type_of mime b) d (subject_of mime a nothing_parsed) in
      (λ i. G (s i) (ct i) (cte i))
      ∙ (λ i.
          by_type (media_type-plain i) (codes "quoted-printable")
            (subject_of-read mime raw subject n reads i))
      ∙ parse_single-plain (record nothing_parsed { subject = subject })
