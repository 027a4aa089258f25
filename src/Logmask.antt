-- ===== src/Logmask.antt =====
-- internal/logmask/logmask.go: the masks of addresses and of log attributes, for ASCII texts.
pub mod Hides
use mathlib.Core.List.{reverse}
use carteiro.Common.{
  Bool, Bytes, List, [], any, codes, if◌then◌else◌, map, none, refl, some, str_eq, ◌++◌, ◌∷◌, ◌≡◌,
}
use carteiro.Text.{cut, split}

-- `publicSuffixes`.
abbrev pub public_suffixes : List Bytes
public_suffixes =
    codes "com.br"
    ∷ codes "net.br"
    ∷ codes "org.br"
    ∷ codes "gov.br"
    ∷ codes "edu.br"
    ∷ codes "co.uk"
    ∷ codes "org.uk"
    ∷ codes "ac.uk"
    ∷ codes "co.jp"
    ∷ codes "co.nz"
    ∷ codes "com.au"
    ∷ codes "net.au"
    ∷ codes "com.mx"
    ∷ codes "com.ar"
    ∷ codes "com.co"
    ∷ codes "com.ve"
    ∷ codes "co.za"
    ∷ codes "com.pt"
    ∷ codes "com.uy"
    ∷ codes "com.pe"
    ∷ []

unfoldable pub is_public : Bytes → Bool
unfolding str_eq
is_public suffix = any (str_eq suffix) public_suffixes

unfoldable pub mask_label : Bytes → Bytes
mask_label [] = codes "***"
mask_label (c ∷ []) = codes "***"
mask_label (c ∷ d ∷ l) = c ∷ codes "***"

abbrev pub dotted : Bytes → Bytes → Bytes
dotted a b = a ++ codes "." ++ b

-- A domain that ends in a public suffix of two labels.
mask_before : Bytes → Bytes → List Bytes → Bytes
unfolding mask_label
mask_before d suffix [] = mask_label d
mask_before d suffix (reg ∷ more) = dotted (mask_label reg) suffix

-- `d` is the domain, and the labels come last first.
unfoldable pub mask_labels : Bytes → List Bytes → Bytes
unfolding mask_label mask_before is_public
mask_labels d [] = mask_label d
mask_labels d (last ∷ []) = mask_label d
mask_labels d (last ∷ prev ∷ more) =
    if is_public (dotted prev last)
    then mask_before d (dotted prev last) more
    else dotted (mask_label prev) last

unfoldable pub mask_domain : Bytes → Bytes
unfolding mask_labels split
mask_domain [] = codes "***"
mask_domain (c ∷ d) = mask_labels (c ∷ d) (reverse (split (c ∷ d) b'.'))

-- `Email`; a text without `@` is left alone.
unfoldable pub mask_email : Bytes → Bytes
unfolding cut mask_label mask_domain
mask_email s = elim (cut s b'@') [
  | none ↦ s
  | some (local, domain) ↦ mask_label local ++ codes "@" ++ mask_domain domain
]

-- `List`.
unfoldable pub mask_list : List Bytes → List Bytes
unfolding mask_email
mask_list = map mask_email

-- The examples of the package's comment.
masks :
    (mask_email (codes "joao.silva@mx.example.com.br") ≡ codes "j***@e***.com.br")
    × (mask_email (codes "noreply@example.com") ≡ codes "n***@e***.com")
    × (mask_email (codes "user@mail.gmail.com") ≡ codes "u***@g***.com")
    × (mask_email (codes "x@localhost") ≡ codes "***@l***")
unfolding mask_email
masks = (refl, refl, refl, refl)
