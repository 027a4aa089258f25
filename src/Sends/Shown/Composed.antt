-- ===== src/Sends/Shown/Composed.antt =====
-- internal/sends/msg.go: what BuildMessage has checked, and that parseMsg reads its message back.
use carteiro.Common.{
  All, Bool-cases, Bytes, List, Option, [], any, ap, arith, codes, false, if_lem, inl, inr, length,
  none, option_lem, refl, some, str_eq, subst, ◌&&◌, ◌++◌, ◌<◌, ◌==◌, ◌∙◌, ◌∷◌, ◌≡◌, ◌≢◌,
}
use carteiro.Sends.Recorder.{Parsed}
use carteiro.Text.{join, trim_space, contains_any}
use carteiro.Sends.Compose.{
  Surroundings, Composed, message, invalid, build_message, write_message, single, head_lines,
  body_lines, or_no_subject, has_break, quoted_body, lines,
}
use carteiro.Sends.Message.{Mime, parse_msg, as_text, parse_parts}
use carteiro.Sends.Shown.Body.{shown_text}
use carteiro.Sends.Shown.Head.{
  IsLine, IsLine-append, IsLine-join, IsField, header_end-fields, parse_headers-fields, read_lines,
}
use carteiro.Sends.Shown.Message.{IsMime, EndsVisibly, parse_parts-plain}
use carteiro.Sends.Shown.Fields.{header-plain}
use carteiro.Sends.Headers.{parse_headers}

abbrev Composes : (Bytes → Type 0) → Composed → Type 0
Composes P (invalid e) = Unit
Composes P (message m) = P m

-- The texts of a composed message have no line break.
abbrev Checked : Surroundings → Bytes → Bytes → List Bytes → Bytes → Bytes → Bytes → Bytes → Type 0
Checked w id from to subject text html msg =
    (any has_break (to ++ from ∷ subject ∷ []) ≡ false)
    × ((random : Bytes) × (msg
          ≡ write_message (head_lines w id from to (or_no_subject subject)) random text html))

build_message-Checked :
    (w : Surroundings) (id from : Bytes) (to : List Bytes) (subject text html : Bytes)
    → Composes
        (Checked w id from to subject text html)
        (build_message w id from to subject text html)
unfolding build_message
build_message-Checked w id from to subject text html =
    let P = Composes (Checked w id from to subject text html) in
    if_lem P (str_eq id []) _ _ (λ _. tt)
      λ _.
        if_lem P (str_eq from []) _ _ (λ _. tt)
          λ _.
            if_lem P (length to == 0) _ _ (λ _. tt)
              λ _.
                if_lem P (str_eq (trim_space text) [] && str_eq (trim_space html) []) _ _ (λ _. tt)
                  λ _.
                    if_lem P (any has_break (to ++ from ∷ subject ∷ [])) _ _ (λ _. tt)
                      λ clean. option_lem P w.random _ _ (λ _. tt) λ bytes _. (clean, (bytes, refl))

any-split :
    (to : List Bytes) (from subject : Bytes)
    → any has_break (to ++ from ∷ subject ∷ []) ≡ false
    → All IsLine to × IsLine from × IsLine subject
any-split [] from subject h = (tt, ground arith, ground arith)
any-split (t ∷ to) from subject h = elim (Bool-cases (has_break t)) [
  | inl e ↦ cc (rw e at h)
  | inr e ↦ let r = any-split to from subject (rw e at h) in ((e, r.0), r.1, r.2)
]

module _ (w : Surroundings) (id from : Bytes) (to : List Bytes) (subject : Bytes)
    (dated : IsLine w.date) (named : IsLine id) (sent : IsLine from) (addressed : All IsLine to)
    (encoded : IsLine (w.encode_subject subject)) where
  fields-IsField : All IsField (head_lines w id from to subject ++ body_lines (codes "text/plain"))
  unfolding head_lines contains_any
  fields-IsField = (
    IsLine-append (codes "Date: ") w.date refl dated,
    (
      IsLine-append (codes "From: ") from refl sent,
      (
        IsLine-append (codes "To: ") (join (codes ", ") to) refl
            (IsLine-join (codes ", ") to refl addressed),
        (
          IsLine-append (codes "Subject: ") (w.encode_subject subject) refl encoded,
          (
            IsLine-append (codes "Message-ID: <") (id ++ codes "@carteiro>") refl
                (IsLine-append id (codes "@carteiro>") named refl),
            (refl, (refl, (refl, (refl, tt)))),
          ),
        ),
      ),
    ),
  )

  some_field : head_lines w id from to subject ++ body_lines (codes "text/plain") ≢ []
  unfolding head_lines
  some_field e = cc e

  parse_msg-single :
      (mime : Mime) (content title : Bytes)
      → IsMime mime
      → All (λ c. c < 256) content
      → EndsVisibly content
      → trim_space (w.encode_subject subject) ≢ []
      → ((reader : Bytes → Bytes → Bytes)
          → mime.decode_header reader (trim_space (w.encode_subject subject)) ≡ some title)
      → parse_msg mime (single (head_lines w id from to subject) (codes "text/plain") content)
        ≡ record { subject = title; text = shown_text content; html = [] }
  unfolding parse_msg single
  parse_msg-single mime content title laws bytes visible n reads =
      let fs = head_lines w id from to subject ++ body_lines (codes "text/plain") in
      let body = quoted_body content in
      let text = lines fs ++ (codes "\r\n" ++ body) in
      let found = header-plain w id from to subject in
      ap
        (λ (o : Option (Bytes × Bytes)). elim o as (λ _. Parsed) [
          | none ↦ as_text mime text
          | some (head, b) ↦ parse_parts mime b (parse_headers head)
        ])
        (header_end-fields fs body some_field fields-IsField)
      ∙ ap (parse_parts mime body) (parse_headers-fields fs some_field fields-IsField)
      ∙ parse_parts-plain mime laws content bytes visible (read_lines fs [] [])
          (trim_space (w.encode_subject subject)) title found.0 found.1 found.2 n reads

-- parseMsg reads back a plain message that BuildMessage has composed: its subject, and its text with
-- the line ends as CR LF and without those at its end. The date, the id and the encoded subject have
-- no line break, the text does not end in a blank, and the packages of the standard library decode
-- the subject and quoted-printable texts.
pub parse_msg-build_message :
    (mime : Mime) (laws : IsMime mime) (w : Surroundings) (id from : Bytes) (to : List Bytes)
    (subject text msg : Bytes)
    → build_message w id from to subject text [] ≡ message msg
    → IsLine w.date × IsLine id × IsLine (w.encode_subject (or_no_subject subject))
    → All (λ c. c < 256) text × EndsVisibly text
    → trim_space (w.encode_subject (or_no_subject subject)) ≢ []
    → ((reader : Bytes → Bytes → Bytes)
        → mime.decode_header reader (trim_space (w.encode_subject (or_no_subject subject)))
          ≡ some (or_no_subject subject))
    → parse_msg mime msg
      ≡ record { subject = or_no_subject subject; text = shown_text text; html = [] }
unfolding write_message str_eq
parse_msg-build_message mime laws w id from to subject text msg built plain visible n reads =
    let title = or_no_subject subject in
    let (clean, (random, same)) =
      subst (Composes (Checked w id from to subject text [])) built
        (build_message-Checked w id from to subject text []) in
    let parts = any-split to from subject clean in
    ap (parse_msg mime) same
    ∙ parse_msg-single w id from to title plain.0 plain.1 parts.1 parts.0 plain.2 mime text title
        laws visible.0 visible.1 n reads
