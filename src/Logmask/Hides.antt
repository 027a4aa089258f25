-- ===== src/Logmask/Hides.antt =====
-- internal/logmask/logmask.go: what a masked address does not tell.
use mathlib.Core.List.{reverse}
use carteiro.Common.{
  All, Bytes, List, [], ap, codes, false, if◌then◌else◌, none, refl, some, sym, ℕ, ◌++◌, ◌==◌, ◌∙◌,
  ◌∷◌, ◌≡◌, ◌≢◌,
}
use carteiro.Text.{cut, split}
use carteiro.Logmask.{
  mask_before, is_public, mask_label, dotted, mask_labels, mask_domain, mask_email,
}

-- No `@` in the text.
abbrev pub IsLocal : Bytes → Type 0
IsLocal s = All (λ c. (c == b'@') ≡ false) s

cut-at :
    (local domain : Bytes)
    → IsLocal local
    → cut (local ++ b'@' ∷ domain) b'@' ≡ some (local, domain)
unfolding cut
cut-at [] domain h = refl
cut-at (c ∷ local) domain h = rw (h.0, cut-at local domain h.1) refl

mask_email-at :
    (local domain : Bytes)
    → IsLocal local
    → mask_email (local ++ b'@' ∷ domain) ≡ mask_label local ++ codes "@" ++ mask_domain domain
unfolding mask_email
mask_email-at local domain h =
    ap
      (λ o. elim o as (λ _. Bytes) [
        | none ↦ local ++ b'@' ∷ domain
        | some (a, b) ↦ mask_label a ++ codes "@" ++ mask_domain b
      ])
      (cut-at local domain h)

-- A domain of the kind that has a registrable label `reg` right before its last label, where these
-- two are no public suffix.
abbrev pub HasLabel : Bytes → Bytes → Bytes → Type 0
HasLabel domain reg last =
    (domain ≢ [])
    × ((sub : List Bytes) × (reverse (split domain b'.') ≡ last ∷ reg ∷ sub))
    × (is_public (dotted reg last) ≡ false)

mask_labels-private :
    (domain reg last : Bytes) (sub : List Bytes)
    → is_public (dotted reg last) ≡ false
    → mask_labels domain (last ∷ reg ∷ sub) ≡ dotted (mask_label reg) last
unfolding mask_labels
mask_labels-private domain reg last sub private =
    ap (λ b. if b then mask_before domain (dotted reg last) sub else dotted (mask_label reg) last)
      private

mask_domain-label :
    (domain reg last : Bytes)
    → HasLabel domain reg last
    → mask_domain domain ≡ dotted (mask_label reg) last
unfolding mask_domain mask_labels
mask_domain-label [] reg last h = absurd (h.0 refl)
mask_domain-label (c ∷ domain) reg last (filled, (sub, e), private) =
    ap (mask_labels (c ∷ domain)) e ∙ mask_labels-private (c ∷ domain) reg last sub private

mask_label_long : (c : ℕ) (l : Bytes) → l ≢ [] → mask_label (c ∷ l) ≡ c ∷ codes "***"
unfolding mask_label
mask_label_long c [] long = absurd (long refl)
mask_label_long c (d ∷ l) long = refl

masked :
    (c d : ℕ) (l r : Bytes) (last domain : Bytes)
    → IsLocal (c ∷ l)
    → l ≢ []
    → r ≢ []
    → HasLabel domain (d ∷ r) last
    → mask_email (c ∷ l ++ b'@' ∷ domain)
      ≡ (c ∷ codes "***") ++ codes "@" ++ dotted (d ∷ codes "***") last
masked c d l r last domain at long rlong h =
    mask_email-at (c ∷ l) domain at
    ∙ ap (λ x. mask_label (c ∷ l) ++ codes "@" ++ x) (mask_domain-label domain (d ∷ r) last h)
    ∙ ap (λ x. mask_label (c ∷ l) ++ codes "@" ++ dotted x last) (mask_label_long d r rlong)
    ∙ ap (λ x. x ++ codes "@" ++ dotted (d ∷ codes "***") last) (mask_label_long c l long)

-- Two addresses that differ only in what the mask hides look the same in the log: it tells of the
-- local part and of the registrable label the first character each, of the domain else the last label
-- alone, and nothing of the subdomains. This is for parts of two characters or more, and domains that
-- do not end in one of the public suffixes of two labels.
pub mask_email-hides :
    (c d : ℕ) (l l' r r' : Bytes) (last domain domain' : Bytes)
    → IsLocal (c ∷ l)
    → IsLocal (c ∷ l')
    → l ≢ []
    → l' ≢ []
    → r ≢ []
    → r' ≢ []
    → HasLabel domain (d ∷ r) last
    → HasLabel domain' (d ∷ r') last
    → mask_email (c ∷ l ++ b'@' ∷ domain) ≡ mask_email (c ∷ l' ++ b'@' ∷ domain')
mask_email-hides c d l l' r r' last domain domain' at at' long long' rlong rlong' h h' =
    masked c d l r last domain at long rlong h
    ∙ sym (masked c d l' r' last domain' at' long' rlong' h')
