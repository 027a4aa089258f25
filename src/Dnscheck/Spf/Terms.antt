-- ===== src/Dnscheck/Spf/Terms.antt =====
-- internal/dnscheck/dnscheck.go: the terms that spfTerms counts, by the grammar of a term.
use mathlib.Core.Bool.{or_assoc, or-false}
use Prim.Native.String.{String}
use carteiro.Common.{
  All, Bool, Bytes, List, [], any, arith, codes, false, if◌then◌else◌, refl, str_eq, true, ℕ, ◌++◌,
  ◌==◌, ◌||◌, ◌∷◌, ◌≡◌,
}
use carteiro.Text.{has_prefix}
use carteiro.Dnscheck.Spf.{is_lookup}

-- What ends the name of a term.
abbrev pub is_delimiter : ℕ → Bool
is_delimiter c = c == b':' || c == b'/' || c == b'='

-- The name of a term, with the byte behind it.
unfoldable pub term_head : Bytes → Bytes
term_head [] = []
term_head (c ∷ s) = let rest = term_head s in if is_delimiter c then c ∷ [] else c ∷ rest

abbrev pub lookup_heads : List Bytes
lookup_heads =
    codes "a"
    ∷ codes "a:"
    ∷ codes "a/"
    ∷ codes "mx"
    ∷ codes "mx:"
    ∷ codes "ptr"
    ∷ codes "ptr:"
    ∷ codes "include:"
    ∷ codes "exists:"
    ∷ codes "redirect="
    ∷ []

abbrev pub asks_dns : Bytes → Bool
asks_dns m = any (str_eq (term_head m)) lookup_heads

-- No byte of a name ends it.
abbrev IsName : Bytes → Type 0
IsName w = All (λ c. is_delimiter c ≡ false) w

head-bare : (m w : Bytes) → IsName w → str_eq m w ≡ str_eq (term_head m) w
unfolding term_head str_eq
head-bare [] w h = refl
head-bare (c ∷ m) [] h = ground arith
head-bare (c ∷ m) (p ∷ w) h = ground (arith, head-bare m w h.1)

head-prefix :
    (m w : Bytes) (d : ℕ)
    → IsName w
    → is_delimiter d ≡ true
    → has_prefix m (w ++ d ∷ []) ≡ str_eq (term_head m) (w ++ d ∷ [])
unfolding term_head str_eq has_prefix
head-prefix [] [] d h e = refl
head-prefix [] (p ∷ w) d h e = refl
head-prefix (c ∷ m) [] d h e = ground arith
head-prefix (c ∷ m) (p ∷ w) d h e = ground (arith, head-prefix m w d h.1 e)

regroup :
    (a b c d e f g h i j : Bool)
    → (a || b || c || d || e || f || g || h || i || j)
      ≡ (a || (b || (c || (d || (e || (f || (g || (h || (i || (j || false))))))))))
regroup a b c d e f g h i j = simp (or_assoc, or-false)

pub is_lookup_lem : (m : Bytes) → is_lookup m ≡ asks_dns m
unfolding is_lookup
is_lookup_lem m =
    let is = λ (head : String). str_eq (term_head m) (codes head) in
    let a = head-bare m (codes "a") (refl, tt) in
    let a_colon = head-prefix m (codes "a") b':' (refl, tt) refl in
    let a_slash = head-prefix m (codes "a") b'/' (refl, tt) refl in
    let mx = head-bare m (codes "mx") (refl, (refl, tt)) in
    let mx_colon = head-prefix m (codes "mx") b':' (refl, (refl, tt)) refl in
    let ptr = head-bare m (codes "ptr") (refl, (refl, (refl, tt))) in
    let ptr_colon = head-prefix m (codes "ptr") b':' (refl, (refl, (refl, tt))) refl in
    let include =
      head-prefix m (codes "include") b':'
        (refl, (refl, (refl, (refl, (refl, (refl, (refl, tt))))))) refl in
    let exists =
      head-prefix m (codes "exists") b':' (refl, (refl, (refl, (refl, (refl, (refl, tt)))))) refl in
    let redirect =
      head-prefix m (codes "redirect") b'='
        (refl, (refl, (refl, (refl, (refl, (refl, (refl, (refl, tt)))))))) refl in
    rw (a, a_colon, a_slash, mx, mx_colon, ptr, ptr_colon, include, exists, redirect)
      (regroup (is "a") (is "a:") (is "a/") (is "mx") (is "mx:") (is "ptr") (is "ptr:")
        (is "include:") (is "exists:") (is "redirect="))
