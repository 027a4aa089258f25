-- ===== src/Text/Search.antt =====
-- Prefixes, the first and last place of a byte, and cutting text apart. A place is the number of
-- bytes before it; -1 is `none`.
use carteiro.Common.{
  Bool, Bytes, List, Option, [], drop, false, if◌then◌else◌, length, none, some, str_eq, suc, true,
  ℕ, ◌&&◌, ◌++◌, ◌==◌, ◌||◌, ◌∷◌,
}
use mathlib.Core.Option

unfoldable pub has_prefix : Bytes → Bytes → Bool
has_prefix s [] = true
has_prefix [] (p ∷ ps) = false
has_prefix (c ∷ s) (p ∷ ps) = c == p && has_prefix s ps

-- `strings.TrimPrefix`; `CutPrefix` gives the same text and `has_prefix`.
unfoldable pub trim_prefix : Bytes → Bytes → Bytes
trim_prefix s [] = s
trim_prefix [] (p ∷ ps) = []
trim_prefix (c ∷ s) (p ∷ ps) = if c == p && has_prefix s ps then trim_prefix s ps else c ∷ s

unfoldable pub index_byte : Bytes → ℕ → Option ℕ
index_byte [] b = none
index_byte (c ∷ s) b = if c == b then some 0 else Option.map suc (index_byte s b)

unfoldable pub last_index_byte : Bytes → ℕ → Option ℕ
last_index_byte [] b = none
last_index_byte (c ∷ s) b = elim (last_index_byte s b) [
  | some i ↦ some (suc i)
  | none ↦ if c == b then some 0 else none
]

unfoldable pub contains_byte : Bytes → ℕ → Bool
contains_byte [] b = false
contains_byte (c ∷ s) b = c == b || contains_byte s b

-- A byte of `s` is one of `chars`.
unfoldable pub contains_any : Bytes → Bytes → Bool
unfolding contains_byte
contains_any [] chars = false
contains_any (c ∷ s) chars = contains_byte chars c || contains_any s chars

-- `strings.Cut` at a byte: what stands before its first place, and what stands behind.
unfoldable pub cut : Bytes → ℕ → Option (Bytes × Bytes)
cut [] b = none
cut (c ∷ s) b =
    let rest = Option.map (λ (p : Bytes × Bytes). (c ∷ p.0, p.1)) (cut s b) in
    if c == b then some ([], s) else rest

-- The text before and behind the first byte of the set, as `strings.IndexAny` finds it.
unfoldable pub cut_any : (ℕ → Bool) → Bytes → Option (Bytes × Bytes)
cut_any p [] = none
cut_any p (c ∷ s) =
    let rest = Option.map (λ (q : Bytes × Bytes). (c ∷ q.0, q.1)) (cut_any p s) in
    if p c then some ([], s) else rest

cons_head : ℕ → List Bytes → List Bytes
cons_head c [] = (c ∷ []) ∷ []
cons_head c (p ∷ ps) = (c ∷ p) ∷ ps

-- `strings.Split` at a byte; always at least one part.
unfoldable pub split : Bytes → ℕ → List Bytes
unfolding cons_head
split [] b = [] ∷ []
split (c ∷ s) b = let rest = split s b in if c == b then [] ∷ rest else cons_head c rest

-- `strings.Join`.
unfoldable pub join : Bytes → List Bytes → Bytes
join sep [] = []
join sep (p ∷ []) = p
join sep (p ∷ q ∷ ps) = p ++ (sep ++ join sep (q ∷ ps))

-- `bytes.Cut` at a text: what stands before its first place, and what stands behind.
unfoldable pub cut_text : Bytes → Bytes → Option (Bytes × Bytes)
unfolding has_prefix
cut_text [] sep = if has_prefix [] sep then some ([], []) else none
cut_text (c ∷ s) sep =
    let rest = Option.map (λ (p : Bytes × Bytes). (c ∷ p.0, p.1)) (cut_text s sep) in
    if has_prefix (c ∷ s) sep then some ([], drop (length sep) (c ∷ s)) else rest

-- `strings.Contains`.
unfoldable pub contains : Bytes → Bytes → Bool
unfolding has_prefix
contains [] sub = has_prefix [] sub
contains (c ∷ s) sub = has_prefix (c ∷ s) sub || contains s sub

-- `strings.HasSuffix` and `strings.TrimSuffix`.
unfoldable pub trim_suffix : Bytes → Bytes → Bytes
trim_suffix [] sub = []
trim_suffix (c ∷ s) sub = if str_eq (c ∷ s) sub then [] else c ∷ trim_suffix s sub
