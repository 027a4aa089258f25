-- ===== src/Sends/Shown/Head.antt =====
-- internal/sends/msg.go: headerEnd on the lines that BuildMessage writes.
use mathlib.Core.Option
use carteiro.Common.{
  All, Bytes, List, Option, [], ap, append-nil, append_assoc, arith, codes, false, none, refl, some,
  str_eq, sym, ℕ, ◌++◌, ◌==◌, ◌||◌, ◌∙◌, ◌∷◌, ◌≡◌, ◌≢◌,
}
use carteiro.Text.{contains_any, has_prefix, cut_text, join, trim_suffix, split}
use carteiro.Sends.Compose.{has_break, lines}
use carteiro.Sends.Headers.{header_end, Headers, parse_headers, header_line, header_lines}

abbrev pub IsLine : Bytes → Type 0
IsLine l = has_break l ≡ false

pub has_break-append : (a b : Bytes) → has_break (a ++ b) ≡ (has_break a || has_break b)
unfolding contains_any
has_break-append [] b = refl
has_break-append (c ∷ a) b = ground (arith, has_break-append a b)

pub IsLine-append : (a b : Bytes) → IsLine a → IsLine b → IsLine (a ++ b)
IsLine-append a b h k = has_break-append a b ∙ rw (h, k) refl

pub IsLine-join :
    (sep : Bytes) (ps : List Bytes) → IsLine sep → All IsLine ps → IsLine (join sep ps)
unfolding join contains_any
IsLine-join sep [] h a = refl
IsLine-join sep (p ∷ []) h a = a.0
IsLine-join sep (p ∷ q ∷ ps) h a =
    IsLine-append p (sep ++ join sep (q ∷ ps)) a.0
      (IsLine-append sep (join sep (q ∷ ps)) h (IsLine-join sep (q ∷ ps) h a.1))

-- The lines without the last line end.
abbrev pub joined : List Bytes → Bytes
joined [] = []
joined (l ∷ []) = l
joined (l ∷ m ∷ ls) = l ++ (codes "\r\n" ++ joined (m ∷ ls))

abbrev before : Bytes → Option (Bytes × Bytes) → Option (Bytes × Bytes)
before l none = none
before l (some p) = some (l ++ p.0, p.1)

abbrev blank : Bytes
blank = codes "\r\n\r\n"

before-before :
    (a b : Bytes) (o : Option (Bytes × Bytes)) → before a (before b o) ≡ before (a ++ b) o
before-before a b none = refl
before-before a b (some p) = ap (λ t. some (t, p.1)) (sym (append_assoc a b p.0))

cut_text-cons :
    (c : ℕ) (s : Bytes)
    → (c == b'\r') ≡ false
    → cut_text (c ∷ s) blank ≡ before (c ∷ []) (cut_text s blank)
unfolding cut_text has_prefix
cut_text-cons c s h = rw h (by_cases (cut_text s blank))
  where
    by_cases :
        (o : Option (Bytes × Bytes))
        → Option.map (λ (p : Bytes × Bytes). (c ∷ p.0, p.1)) o ≡ before (c ∷ []) o
    by_cases none = refl
    by_cases (some p) = refl

IsLine-byte :
    (c : ℕ) (l : Bytes)
    → IsLine (c ∷ l)
    → ((c == b'\r') ≡ false) × ((c == b'\n') ≡ false) × IsLine l
unfolding contains_any
IsLine-byte c l h = ground arith

before_nil : (o : Option (Bytes × Bytes)) → o ≡ before [] o
before_nil none = refl
before_nil (some p) = refl

cut_text-line : (l s : Bytes) → IsLine l → cut_text (l ++ s) blank ≡ before l (cut_text s blank)
cut_text-line [] s h = before_nil (cut_text s blank)
cut_text-line (c ∷ l) s h =
    let b = IsLine-byte c l h in
    cut_text-cons c (l ++ s) b.0
    ∙ ap (before (c ∷ [])) (cut_text-line l s b.2)
    ∙ before-before (c ∷ []) l (cut_text s blank)

-- A line with a byte; so what stands before it is not the blank line.
abbrev pub IsField : Bytes → Type 0
IsField [] = Unit × ⊥
IsField (c ∷ l) = IsLine (c ∷ l)

cr_not_blank :
    (c : ℕ) (s : Bytes)
    → (c == b'\r') ≡ false
    → cut_text (codes "\r\n" ++ (c ∷ s)) blank ≡ before (codes "\r\n") (cut_text (c ∷ s) blank)
unfolding cut_text has_prefix
cr_not_blank c s h = rw h (by_cases (cut_text s blank))
  where
    by_cases :
        (o : Option (Bytes × Bytes))
        → Option.map
            (λ (p : Bytes × Bytes). (13 ∷ p.0, p.1))
            (Option.map
              (λ (p : Bytes × Bytes). (10 ∷ p.0, p.1))
              (Option.map (λ (p : Bytes × Bytes). (c ∷ p.0, p.1)) o))
          ≡ before (13 ∷ 10 ∷ []) (Option.map (λ (p : Bytes × Bytes). (c ∷ p.0, p.1)) o)
    by_cases none = refl
    by_cases (some p) = refl

pub field-IsLine : (l : Bytes) → IsField l → IsLine l
field-IsLine [] h = absurd h.1
field-IsLine (c ∷ l) h = h

blank_found : (body : Bytes) → cut_text (blank ++ body) blank ≡ some ([], body)
unfolding cut_text has_prefix
blank_found body = refl

-- The head that is cut off is the lines, and the body is what stands behind the blank line.
pub cut_text-lines :
    (l : Bytes) (ls : List Bytes) (body : Bytes)
    → All IsField (l ∷ ls)
    → cut_text (lines (l ∷ ls) ++ (codes "\r\n" ++ body)) blank ≡ some (joined (l ∷ ls), body)
cut_text-lines l [] body h =
    ap (λ t. cut_text t blank) (append_assoc l (codes "\r\n") (codes "\r\n" ++ body))
    ∙ cut_text-line l (blank ++ body) (field-IsLine l h.0)
    ∙ ap (before l) (blank_found body)
    ∙ ap (λ t. some (t, body)) (append-nil l)
cut_text-lines l ([] ∷ ls) body h = absurd h.1.0.1
cut_text-lines l ((c ∷ m) ∷ ls) body h =
    let rest = lines ((c ∷ m) ∷ ls) ++ (codes "\r\n" ++ body) in
    ap (λ t. cut_text t blank)
      (append_assoc l (codes "\r\n" ++ lines ((c ∷ m) ∷ ls)) (codes "\r\n" ++ body))
    ∙ cut_text-line l (codes "\r\n" ++ rest) (field-IsLine l h.0)
    ∙ ap (before l) (
        cr_not_blank c _ (IsLine-byte c m h.1.0).0
        ∙ ap (before (codes "\r\n")) (cut_text-lines (c ∷ m) ls body h.1))

header_end-lines :
    (l : Bytes) (ls : List Bytes) (body : Bytes)
    → All IsField (l ∷ ls)
    → header_end (lines (l ∷ ls) ++ (codes "\r\n" ++ body)) ≡ some (joined (l ∷ ls), body)
unfolding header_end
header_end-lines l ls body h = rw (cut_text-lines l ls body h, header_end) refl

-- The lines of the head, one by one.
abbrev pub read_lines : List Bytes → Bytes → Headers → Headers
read_lines [] last hdrs = hdrs
read_lines (l ∷ ls) last hdrs =
    read_lines ls (header_line l last hdrs).0 (header_line l last hdrs).1

split-line :
    (l s : Bytes)
    → IsLine l
    → split (l ++ (codes "\r\n" ++ s)) b'\n' ≡ (l ++ codes "\r") ∷ split s b'\n'
unfolding split
split-line [] s h = refl
split-line (c ∷ l) s h = let b = IsLine-byte c l h in rw (b.1, split-line l s b.2) refl

split_last : (l : Bytes) → IsLine l → split l b'\n' ≡ l ∷ []
unfolding split
split_last [] h = refl
split_last (c ∷ l) h = let b = IsLine-byte c l h in rw (b.1, split_last l b.2) refl

trim_suffix_cr : (l : Bytes) → trim_suffix (l ++ codes "\r") (codes "\r") ≡ l
unfolding trim_suffix str_eq
trim_suffix_cr [] = refl
trim_suffix_cr (c ∷ []) = ground arith
trim_suffix_cr (c ∷ d ∷ l) = ground (arith, trim_suffix_cr (d ∷ l))

trim_suffix_none : (l : Bytes) → IsLine l → trim_suffix l (codes "\r") ≡ l
unfolding trim_suffix str_eq
trim_suffix_none [] h = refl
trim_suffix_none (c ∷ l) h = let b = IsLine-byte c l h in rw (b.0, trim_suffix_none l b.2) refl

header_lines-joined :
    (l : Bytes) (ls : List Bytes) (last : Bytes) (hdrs : Headers)
    → All IsField (l ∷ ls)
    → header_lines (split (joined (l ∷ ls)) b'\n') last hdrs ≡ read_lines (l ∷ ls) last hdrs
unfolding header_lines
header_lines-joined l [] last hdrs h =
    ap (λ t. header_lines t last hdrs) (split_last l (field-IsLine l h.0))
    ∙ ap (λ t. (header_line t last hdrs).1) (trim_suffix_none l (field-IsLine l h.0))
header_lines-joined l (m ∷ ls) last hdrs h =
    let tail = split (joined (m ∷ ls)) b'\n' in
    ap (λ t. header_lines t last hdrs) (split-line l (joined (m ∷ ls)) (field-IsLine l h.0))
    ∙ ap (λ t. header_lines tail (header_line t last hdrs).0 (header_line t last hdrs).1)
        (trim_suffix_cr l)
    ∙ header_lines-joined m ls (header_line l last hdrs).0 (header_line l last hdrs).1 h.1

parse_headers-joined :
    (l : Bytes) (ls : List Bytes)
    → All IsField (l ∷ ls)
    → parse_headers (joined (l ∷ ls)) ≡ read_lines (l ∷ ls) [] []
unfolding parse_headers
parse_headers-joined l ls h = header_lines-joined l ls [] [] h

-- The head and the fields of a message in one: what parseMsg goes on with.
pub header_end-fields :
    (fs : List Bytes) (body : Bytes)
    → fs ≢ []
    → All IsField fs
    → header_end (lines fs ++ (codes "\r\n" ++ body)) ≡ some (joined fs, body)
header_end-fields [] body n h = absurd (n refl)
header_end-fields (l ∷ ls) body n h = header_end-lines l ls body h

pub parse_headers-fields :
    (fs : List Bytes) → fs ≢ [] → All IsField fs → parse_headers (joined fs) ≡ read_lines fs [] []
parse_headers-fields [] n h = absurd (n refl)
parse_headers-fields (l ∷ ls) n h = parse_headers-joined l ls h
