-- ===== src/Smtpd/Lines/Stuffing.antt =====
-- internal/smtpd/session.go: `readData` undoes the dot-stuffing of a client (RFC 5321, §4.5.2).
use carteiro.Common.{
  All, Bool, Bytes, List, [], ap, arith, codes, false, if◌then◌else◌, length, refl, str_eq, sym, ℕ,
  ◌++◌, ◌+◌, ◌∙◌, ◌∷◌, ◌≡◌, ◌≤◌,
}
use mathlib.Core.List.{append-nil, append_assoc}
use carteiro.Text.{trim_right, has_prefix}
use carteiro.Smtpd.Lines.{
  Slice, found, trim_line, read_data_from, message, unstuff, read_data_line, read_data, is_line_end,
  data_round, DataRead, read_raw, got,
}
use carteiro.Smtpd.Lines.Data.{read_data_from_loop}

-- What a client sends for a line.
unfoldable pub stuff : Bytes → Bytes
unfolding has_prefix
stuff text = if has_prefix text (codes ".") then b'.' ∷ text else text

-- The transmission of a message, each line within the reader's buffer, with the final dot.
unfoldable pub sent : List Bytes → List Slice → List Slice
unfolding stuff
sent [] rest = found (codes ".\r\n") ∷ rest
sent (text ∷ texts) rest = found (stuff text ++ codes "\r\n") ∷ sent texts rest

-- The message that is to arrive.
unfoldable pub joined : List Bytes → Bytes
joined [] = []
joined (text ∷ texts) = text ++ b'\n' ∷ joined texts

-- What `readData` counts for the lines.
unfoldable pub counted : List Bytes → ℕ
unfolding stuff
counted [] = 0
counted (text ∷ texts) = length (stuff text) + 1 + counted texts

-- A line without a line end at its end.
abbrev pub IsClean : Bytes → Type 0
IsClean text = trim_line text ≡ text

trim_right_ends :
    (p : ℕ → Bool) (s t : Bytes) → trim_right p t ≡ [] → trim_right p (s ++ t) ≡ trim_right p s
unfolding trim_right
trim_right_ends p [] t h = h
trim_right_ends p (c ∷ s) t h = rw (trim_right_ends p s t h) refl

stuff-IsClean : (text : Bytes) → IsClean text → IsClean (stuff text)
unfolding stuff trim_line trim_right has_prefix
stuff-IsClean [] h = refl
stuff-IsClean (c ∷ text) h = ground arith

trim_line-sent : (text : Bytes) → IsClean text → trim_line (stuff text ++ codes "\r\n") ≡ stuff text
unfolding trim_line
trim_line-sent text h =
    trim_right_ends is_line_end (stuff text) (codes "\r\n") refl ∙ stuff-IsClean text h

unstuff-stuff : (text : Bytes) → unstuff (stuff text) ≡ text
unfolding unstuff stuff has_prefix
unstuff-stuff [] = refl
unstuff-stuff (c ∷ text) = ground arith

stuff-dot : (text : Bytes) → str_eq (stuff text) (codes ".") ≡ false
unfolding stuff has_prefix str_eq
stuff-dot [] = refl
stuff-dot (c ∷ text) = ground arith

read-sent :
    (text : Bytes) (rest : List Slice)
    → IsClean text
    → read_data_line false (found (stuff text ++ codes "\r\n") ∷ rest) ≡ got (stuff text) rest
unfolding read_data_line read_raw
read-sent text rest h = ap (λ s. got s rest) (trim_line-sent text h)

round-sent :
    (again : ℕ → Bool → Bytes → List Slice → DataRead) (limit n : ℕ) (out text : Bytes)
    (rest : List Slice)
    → n + length (stuff text) + 1 ≤ limit
    → data_round again limit n false out (got (stuff text) rest)
      ≡ again (n + length (stuff text) + 1) false (out ++ text ++ b'\n' ∷ []) rest
unfolding data_round
round-sent again limit n out text rest room = ground (arith, stuff-dot text, unstuff-stuff text)

last-sent :
    (again : ℕ → Bool → Bytes → List Slice → DataRead) (limit n : ℕ) (out : Bytes)
    (rest : List Slice)
    → n + 2 ≤ limit
    → data_round again limit n false out (got (codes ".") rest) ≡ message out false rest
unfolding data_round str_eq
last-sent again limit n out rest room = ground arith

split_line :
    (out text more : Bytes) → out ++ text ++ b'\n' ∷ [] ++ more ≡ out ++ (text ++ b'\n' ∷ more)
split_line out text more =
    append_assoc (out ++ text) (b'\n' ∷ []) more ∙ append_assoc out text (b'\n' ∷ more)

loop-sent :
    (limit n : ℕ) (out : Bytes) (texts : List Bytes) (rest : List Slice)
    → All IsClean texts
    → n + counted texts + 2 ≤ limit
    → read_data_from limit n false out (sent texts rest) ≡ message (out ++ joined texts) false rest
unfolding sent counted joined read_data_line read_raw trim_line
loop-sent limit n out [] rest h room =
    (read_data_from_loop limit n false out (found (codes ".\r\n") ∷ rest)
      ∙ last-sent (read_data_from limit) limit n out rest (omega arith))
    ∙ ap (λ o. message o false rest) (sym (append-nil out))
loop-sent limit n out (text ∷ texts) rest h room =
    let r = sent texts rest in
    (((read_data_from_loop limit n false out (found (stuff text ++ codes "\r\n") ∷ r)
          ∙ ap (data_round (read_data_from limit) limit n false out) (read-sent text r h.0))
        ∙ round-sent (read_data_from limit) limit n out text r (omega arith))
      ∙ loop-sent limit (n + length (stuff text) + 1) (out ++ text ++ b'\n' ∷ []) texts rest h.1
          (omega arith))
    ∙ ap (λ o. message o false rest) (split_line out text (joined texts))

-- `readData` of what a client sends gives back the lines, each with a newline, and stops right
-- behind the final dot, where the lines end in no carriage return or newline and the limit has room.
pub read_data-sent :
    (limit : ℕ) (texts : List Bytes) (rest : List Slice)
    → All IsClean texts
    → counted texts + 2 ≤ limit
    → read_data limit (sent texts rest) ≡ message (joined texts) false rest
unfolding read_data
read_data-sent limit texts rest h room = loop-sent limit 0 [] texts rest h (omega arith)
