-- ===== src/Relay/Domains.antt =====
-- internal/relay/deliver.go: `domainOf`, `splitByDomain` and `permSummary`.
use carteiro.Common.{
  All, Bytes, In, List, [], arith, codes, drop, if_lem, if◌then◌else◌, inl, inr, length, ltb, none,
  refl, some, str_eq, str_eq_complete, str_eq_sound, take, ◌++◌, ◌+◌, ◌==◌, ◌∷◌, ◌≡◌, ◌≢◌, ◌⊎◌,
}
use carteiro.Text.{last_index_byte, to_lower}
use carteiro.Storage.Types.{Reasons}

-- `strings.TrimSuffix(s, ".")`.
unfoldable pub trim_dot : Bytes → Bytes
trim_dot [] = []
trim_dot (c ∷ []) = if c == b'.' then [] else c ∷ []
trim_dot (c ∷ d ∷ s) = c ∷ trim_dot (d ∷ s)

unfoldable pub domain_of : Bytes → Bytes
unfolding last_index_byte to_lower trim_dot
domain_of addr = elim (last_index_byte addr b'@') [
  | none ↦ addr
  | some at ↦ to_lower (trim_dot (drop (at + 1) addr))
]

unfoldable pub split_by_domain : List Bytes → Bytes → List Bytes × List Bytes
unfolding domain_of str_eq
split_by_domain [] domain = ([], [])
split_by_domain (a ∷ addrs) domain =
    let (group, rest) = split_by_domain addrs domain in
    if str_eq (domain_of a) domain then (a ∷ group, rest) else (group, a ∷ rest)

parts : Reasons → List Bytes
parts [] = []
parts ((addr, reason) ∷ perm) = (addr ++ codes ": " ++ reason) ∷ parts perm

-- `strings.Join(parts, "; ")`.
join_parts : List Bytes → Bytes
join_parts [] = []
join_parts (p ∷ []) = p
join_parts (p ∷ q ∷ ps) = p ++ codes "; " ++ join_parts (q ∷ ps)

-- Go leaves the order of the map open; it is the list's here.
unfoldable pub perm_summary : Reasons → Bytes
unfolding parts join_parts
perm_summary perm =
    let ps = parts perm in
    join_parts (if ltb 3 (length ps) then take 3 ps ++ codes "..." ∷ [] else ps)

splits :
    split_by_domain (codes "a@X.org." ∷ codes "b@y" ∷ codes "c@x.org" ∷ []) (codes "x.org")
    ≡ (codes "a@X.org." ∷ codes "c@x.org" ∷ [], codes "b@y" ∷ [])
unfolding split_by_domain
splits = refl

-- What the two parts of `addrs` are: no address is lost and none is new, and the domain tells which
-- part an address is in.
abbrev pub Parts : Bytes → List Bytes → List Bytes × List Bytes → Type 0
Parts domain addrs p =
    (length p.0 + length p.1 ≡ length addrs)
    × All (λ a. domain_of a ≡ domain) p.0
    × All (λ a. domain_of a ≢ domain) p.1
    × ((a : Bytes) → In a addrs → In a p.0 ⊎ In a p.1)

Parts-group :
    (domain a : Bytes) (addrs : List Bytes) (p : List Bytes × List Bytes)
    → domain_of a ≡ domain
    → Parts domain addrs p
    → Parts domain (a ∷ addrs) (a ∷ p.0, p.1)
Parts-group domain a addrs (group, rest) e (len, inside, outside, found) = (
  omega (arith, len),
  (e, inside),
  outside,
  λ b h. elim h [
    | inl same ↦ inl (inl same)
    | inr later ↦ elim (found b later) [ inl g ↦ inl (inr g) | inr r ↦ inr r ]
  ],
)

Parts-rest :
    (domain a : Bytes) (addrs : List Bytes) (p : List Bytes × List Bytes)
    → domain_of a ≢ domain
    → Parts domain addrs p
    → Parts domain (a ∷ addrs) (p.0, a ∷ p.1)
Parts-rest domain a addrs (group, rest) ne (len, inside, outside, found) = (
  omega (arith, len),
  inside,
  (ne, outside),
  λ b h. elim h [
    | inl same ↦ inr (inl same)
    | inr later ↦ elim (found b later) [ inl g ↦ inl g | inr r ↦ inr (inr r) ]
  ],
)

-- `splitByDomain` puts each address into one of two parts: the group has exactly those of the domain,
-- the rest those of another, no address is lost, and together they are as many as before.
pub split_by_domain-Parts :
    (addrs : List Bytes) (domain : Bytes) → Parts domain addrs (split_by_domain addrs domain)
unfolding split_by_domain
split_by_domain-Parts [] domain = (refl, tt, tt, λ a h. absurd h.1)
split_by_domain-Parts (a ∷ addrs) domain =
    let p = split_by_domain addrs domain in
    let parts = split_by_domain-Parts addrs domain in
    if_lem (Parts domain (a ∷ addrs)) (str_eq (domain_of a) domain) (a ∷ p.0, p.1) (p.0, a ∷ p.1)
      (λ e. Parts-group domain a addrs p (str_eq_sound (domain_of a) domain e) parts)
      (λ e.
        Parts-rest domain a addrs p (λ same. cc (str_eq_complete (domain_of a) domain same, e))
          parts)
