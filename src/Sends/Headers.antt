-- ===== src/Sends/Headers.antt =====
-- internal/sends/msg.go: headerEnd and parseHeaders. A map is an association list that holds each key
-- once.
use carteiro.Common.{
  Bytes, List, Option, [], codes, if◌then◌else◌, none, refl, some, str_eq, ◌++◌, ◌==◌, ◌||◌, ◌∷◌,
  ◌≡◌,
}
use carteiro.Text.{cut, cut_text, split, normalize, trim_space, trim_suffix}

abbrev pub Headers : Type 0
Headers = List (Bytes × Bytes)

-- A missing key reads as the empty text.
unfoldable pub header : Bytes → Headers → Bytes
header k [] = []
header k ((j, v) ∷ hdrs) = if str_eq j k then v else header k hdrs

unfoldable pub set_header : Bytes → Bytes → Headers → Headers
set_header k v [] = (k, v) ∷ []
set_header k v ((j, w) ∷ hdrs) = if str_eq j k then (k, v) ∷ hdrs else (j, w) ∷ set_header k v hdrs

-- The head and the body around the first blank line; the index and the length of the separator serve
-- the caller to cut these out.
unfoldable pub header_end : Bytes → Option (Bytes × Bytes)
unfolding cut_text
header_end text = elim (cut_text text (codes "\r\n\r\n")) [
  | some p ↦ some p
  | none ↦ cut_text text (codes "\n\n")
]

-- A line that begins with white space goes on with the field before it.
continue_field : Bytes → Bytes → Headers → Headers
unfolding header set_header trim_space
continue_field [] ln hdrs = hdrs
continue_field (c ∷ key) ln hdrs =
    set_header (c ∷ key) (header (c ∷ key) hdrs ++ (codes " " ++ trim_space ln)) hdrs

-- The new `lastKey` and map after one line, without its CR.
unfoldable pub header_line : Bytes → Bytes → Headers → Bytes × Headers
unfolding continue_field set_header cut normalize trim_space
header_line [] last hdrs = (last, hdrs)
header_line (c ∷ ln) last hdrs =
    if c == b' ' || c == b'\t'
    then (last, continue_field last (c ∷ ln) hdrs)
    else elim (cut (c ∷ ln) b':') [
      | none ↦ (last, hdrs)
      | some (k, v) ↦ (normalize k, set_header (normalize k) (trim_space v) hdrs)
    ]

unfoldable pub header_lines : List Bytes → Bytes → Headers → Headers
unfolding header_line trim_suffix
header_lines [] last hdrs = hdrs
header_lines (ln ∷ lns) last hdrs =
    let (last', hdrs') = header_line (trim_suffix ln (codes "\r")) last hdrs in
    header_lines lns last' hdrs'

unfoldable pub parse_headers : Bytes → Headers
unfolding header_lines split
parse_headers head = header_lines (split head b'\n') [] []

parse_headers_runs :
    header (codes "subject") (parse_headers (codes "From: a\r\nSUBJECT : b\r\n\tc \r\nx"))
    ≡ codes "b c"
unfolding header parse_headers str_eq
parse_headers_runs = refl
