-- ===== src/Sends/Shown/Fields.antt =====
-- internal/sends/msg.go: the fields that parseHeaders finds in what BuildMessage writes.
use carteiro.Common.{Bytes, List, [], codes, refl, str_eq, ◌++◌, ◌≡◌}
use carteiro.Text.{trim_space}
use carteiro.Sends.Compose.{Surroundings, head_lines, body_lines}
use carteiro.Sends.Headers.{Headers, header, set_header, header_line}
use carteiro.Sends.Shown.Head.{read_lines}

abbrev fields_of : Surroundings → Bytes → Bytes → List Bytes → Bytes → Bytes → Headers
fields_of w id from to subject media_type =
    read_lines (head_lines w id from to subject ++ body_lines media_type) [] []

module _ (w : Surroundings) (id from : Bytes) (to : List Bytes) (subject : Bytes) where
  pub header-plain :
      let hdrs = fields_of w id from to subject (codes "text/plain") in
      (header (codes "subject") hdrs ≡ trim_space (w.encode_subject subject))
      × (header (codes "content-type") hdrs ≡ codes "text/plain; charset=\"utf-8\"")
      × (header (codes "content-transfer-encoding") hdrs ≡ codes "quoted-printable")
  unfolding header set_header header_line head_lines str_eq
  header-plain = (refl, refl, refl)
