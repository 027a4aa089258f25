-- ===== src/Sends/Shown/Body.antt =====
-- internal/sends/msg.go: collectBody on a quoted-printable body.
use carteiro.Common.{All, Bool, Bytes, [], ap, codes, refl, ℕ, ◌++◌, ◌<◌, ◌==◌, ◌||◌, ◌∙◌, ◌∷◌, ◌≡◌}
use carteiro.Text.{trim_right}
use carteiro.Sends.Quoted.{qp_encode}
use carteiro.Sends.Quoted.RoundTrip.{unquote, crlf_ends, unquote-qp_from}
use carteiro.Sends.Compose.{quoted_body}

abbrev pub is_end : ℕ → Bool
is_end c = c == b'\r' || c == b'\n'

-- The text of a body as it is shown: line ends as CR LF, and none at the end.
unfoldable pub shown_text : Bytes → Bytes
shown_text content = trim_right is_end (crlf_ends content)

unquote_end : unquote (codes "\r\n") ≡ codes "\r\n"
unfolding unquote
unquote_end = refl

pub unquote-quoted_body :
    (content : Bytes)
    → All (λ c. c < 256) content
    → unquote (quoted_body content) ≡ crlf_ends content ++ codes "\r\n"
unfolding quoted_body qp_encode
unquote-quoted_body content h =
    unquote-qp_from content (codes "\r\n") 0 h ∙ ap (λ t. crlf_ends content ++ t) unquote_end

-- Line ends behind a text are dropped with those that it ends in.
pub trim_right-append : (s : Bytes) → trim_right is_end (s ++ codes "\r\n") ≡ trim_right is_end s
unfolding trim_right
trim_right-append [] = refl
trim_right-append (c ∷ s) = rw (trim_right-append s) refl
