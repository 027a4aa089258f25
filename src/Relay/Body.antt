-- ===== src/Relay/Body.antt =====
-- internal/relay/deliver.go: `normalizeCRLF`.
use carteiro.Common.{
  All, Bool, Bytes, List, [], ap, append-nil, append_assoc, arith, codes, false, if_lem,
  if◌then◌else◌, not, refl, subst, sym, true, ℕ, ◌&&◌, ◌++◌, ◌==◌, ◌∙◌, ◌∷◌, ◌≡◌,
}
use carteiro.Text.{split}

-- `bytes.ReplaceAll` of `\r\n` by `\n`; `held` tells that a carriage return was seen last.
replace_ends : Bool → Bytes → Bytes
replace_ends held [] = if held then b'\r' ∷ [] else []
replace_ends held (c ∷ s) =
    let rest = replace_ends (c == b'\r') s in
    let kept = if c == b'\r' then rest else c ∷ rest in
    if held && not (c == b'\n') then b'\r' ∷ kept else kept

-- `bytes.TrimSuffix(l, "\r")`.
unfoldable pub trim_cr : Bytes → Bytes
trim_cr [] = []
trim_cr (c ∷ []) = if c == b'\r' then [] else c ∷ []
trim_cr (c ∷ d ∷ s) = c ∷ trim_cr (d ∷ s)

-- The last line is dropped if it is empty.
drop_empty_last : List Bytes → List Bytes
drop_empty_last [] = []
drop_empty_last ([] ∷ []) = []
drop_empty_last ((c ∷ l) ∷ []) = (c ∷ l) ∷ []
drop_empty_last (l ∷ m ∷ ls) = l ∷ drop_empty_last (m ∷ ls)

-- The loop over the lines, with a line end between them, and the final one.
unfoldable pub join_lines : List Bytes → Bytes
unfolding trim_cr
join_lines [] = codes "\r\n"
join_lines (l ∷ []) = trim_cr l ++ codes "\r\n"
join_lines (l ∷ m ∷ ls) = trim_cr l ++ codes "\r\n" ++ join_lines (m ∷ ls)

unfoldable pub normalize_crlf : Bytes → Bytes
unfolding replace_ends drop_empty_last join_lines split
normalize_crlf text = join_lines (drop_empty_last (split (replace_ends false text) b'\n'))

normalizes :
    (normalize_crlf (codes "a\nb\r\n\nc") ≡ codes "a\r\nb\r\n\r\nc\r\n")
    × (normalize_crlf [] ≡ codes "\r\n")
    × (normalize_crlf (codes "a\r\r\n\rb\r") ≡ codes "a\r\n\rb\r\n")
unfolding normalize_crlf
normalizes = (refl, refl, refl)

-- No newline in the text.
abbrev pub IsOneLine : Bytes → Type 0
IsOneLine s = All (λ c. (c == b'\n') ≡ false) s

-- Every newline comes behind a carriage return, where `held` tells that one was seen last.
abbrev pub has_crlf_only : Bool → Bytes → Bool
has_crlf_only held [] = true
has_crlf_only held (c ∷ s) = (if c == b'\n' then held else true) && has_crlf_only (c == b'\r') s

-- The text ends in `\r\n`.
abbrev pub EndsInCrlf : Bytes → Type 0
EndsInCrlf s = (front : Bytes) × (s ≡ front ++ codes "\r\n")

head-IsOneLine :
    (c : ℕ) (parts : List Bytes)
    → (c == b'\n') ≡ false
    → All IsOneLine parts
    → All IsOneLine (elim parts as (λ _. List Bytes) [ [] ↦ (c ∷ []) ∷ [] | p ∷ ps ↦ (c ∷ p) ∷ ps ])
head-IsOneLine c [] e h = ((e, tt), tt)
head-IsOneLine c (p ∷ ps) e h = ((e, h.0), h.1)

split-IsOneLine : (s : Bytes) → All IsOneLine (split s b'\n')
unfolding split
split-IsOneLine [] = (tt, tt)
split-IsOneLine (c ∷ s) =
    if_lem (All IsOneLine) (c == b'\n') ([] ∷ split s b'\n')
      (elim (split s b'\n') as (λ _. List Bytes) [ [] ↦ (c ∷ []) ∷ [] | p ∷ ps ↦ (c ∷ p) ∷ ps ])
      (λ _. (tt, split-IsOneLine s)) (λ e. head-IsOneLine c (split s b'\n') e (split-IsOneLine s))

trim_cr-IsOneLine : (s : Bytes) → IsOneLine s → IsOneLine (trim_cr s)
unfolding trim_cr
trim_cr-IsOneLine [] h = tt
trim_cr-IsOneLine (c ∷ []) h = ground arith
trim_cr-IsOneLine (c ∷ d ∷ s) h = (h.0, trim_cr-IsOneLine (d ∷ s) h.1)

drop_empty_last-IsOneLine :
    (ls : List Bytes) → All IsOneLine ls → All IsOneLine (drop_empty_last ls)
unfolding drop_empty_last
drop_empty_last-IsOneLine [] h = tt
drop_empty_last-IsOneLine ([] ∷ []) h = tt
drop_empty_last-IsOneLine ((c ∷ l) ∷ []) h = h
drop_empty_last-IsOneLine (l ∷ m ∷ ls) h = (h.0, drop_empty_last-IsOneLine (m ∷ ls) h.1)

-- A line without a newline, with an end of line, before a text.
line-crlf :
    (held : Bool) (l rest : Bytes)
    → IsOneLine l
    → has_crlf_only false rest ≡ true
    → has_crlf_only held (l ++ codes "\r\n" ++ rest) ≡ true
line-crlf held [] rest h r = r
line-crlf held (c ∷ l) rest h r = ground (arith, h.0, line-crlf (c == b'\r') l rest h.1 r)

join_lines-crlf : (ls : List Bytes) → All IsOneLine ls → has_crlf_only false (join_lines ls) ≡ true
unfolding join_lines
join_lines-crlf [] h = refl
join_lines-crlf (l ∷ []) h =
    subst (λ t. has_crlf_only false t ≡ true) (append-nil (trim_cr l ++ codes "\r\n"))
      (line-crlf false (trim_cr l) [] (trim_cr-IsOneLine l h.0) refl)
join_lines-crlf (l ∷ m ∷ ls) h =
    line-crlf false (trim_cr l) (join_lines (m ∷ ls)) (trim_cr-IsOneLine l h.0)
      (join_lines-crlf (m ∷ ls) h.1)

join_lines-ends : (ls : List Bytes) → EndsInCrlf (join_lines ls)
unfolding join_lines
join_lines-ends [] = ([], refl)
join_lines-ends (l ∷ []) = (trim_cr l, refl)
join_lines-ends (l ∷ m ∷ ls) =
    let (front, e) = join_lines-ends (m ∷ ls) in
    (
      trim_cr l ++ codes "\r\n" ++ front,
      ap (λ t. trim_cr l ++ codes "\r\n" ++ t) e
          ∙ sym (append_assoc (trim_cr l ++ codes "\r\n") front (codes "\r\n")),
    )

-- A normalised text has a carriage return before each newline, and ends in `\r\n`.
pub normalize_crlf-lines :
    (text : Bytes)
    → (has_crlf_only false (normalize_crlf text) ≡ true) × EndsInCrlf (normalize_crlf text)
unfolding normalize_crlf
normalize_crlf-lines text =
    let ls = drop_empty_last (split (replace_ends false text) b'\n') in
    let one =
      drop_empty_last-IsOneLine (split (replace_ends false text) b'\n')
        (split-IsOneLine (replace_ends false text)) in
    (join_lines-crlf ls one, join_lines-ends ls)
