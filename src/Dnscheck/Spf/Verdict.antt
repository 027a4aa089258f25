-- ===== src/Dnscheck/Spf/Verdict.antt =====
-- internal/dnscheck/dnscheck.go: what a passed SPF check means.
use carteiro.Common.{
  All, Bool, Bool-cases, Bytes, List, [], ap, arith, codes, count, false, filter, if_lem,
  if◌then◌else◌, inl, inr, ltb, map, refl, str_eq, str_eq_sound, sym, true, ℕ, ◌++◌, ◌+◌, ◌↔◌, ◌∙◌,
  ◌∷◌, ◌≡◌, ◌≢◌, ◌≤◌, ◌⊎◌,
}
use carteiro.Text.{fields, trim_space}
use carteiro.Dnscheck.Types.{Resolver, answer, Result, pass, Lookup}
use carteiro.Dnscheck.Spf.{
  grade_all, limit_lookups, spf_loop, mechanism, is_lookup, all_qualifier, is_spf, grade_spf,
  spf_terms, check_spf, fail, no_answer,
}
use carteiro.Dnscheck.Records.{start}
use carteiro.Dnscheck.Spf.Terms.{asks_dns, is_lookup_lem}

abbrev pub is_all : Bytes → Bool
is_all f = str_eq (mechanism f) (codes "all")

-- A term with a look-up by the grammar of the terms: a name with the byte behind it is in the table.
-- The table leaves out `mx/`, as the code does.
abbrev pub looks_up : Bytes → Bool
looks_up f = asks_dns (mechanism f)

-- The last `all` among the terms is `-all`.
abbrev pub EndsStrictly : List Bytes → Type 0
EndsStrictly fs =
    (before : List Bytes) × (f : Bytes) × (after : List Bytes) × (fs ≡ before ++ f ∷ after)
    × (is_all f ≡ true)
    × (all_qualifier f ≡ codes "-all")
    × All (λ g. is_all g ≡ false) after

-- The DNS has one SPF record for the domain; the last `all` in it is `-all`, and at most 10 of its
-- terms have a name of the table.
abbrev pub Authorises : Resolver → Bytes → Type 0
Authorises r domain =
    (recs : List Bytes) × (raw : Bytes) × (r.lookup_txt domain ≡ answer recs)
    × (filter is_spf recs ≡ raw ∷ [])
    × EndsStrictly (fields (trim_space raw))
    × (count looks_up (fields (trim_space raw)) ≤ 10)

last_all : Bytes → List Bytes → Bytes
last_all q [] = q
last_all q (f ∷ fs) = last_all (if is_all f then all_qualifier f else q) fs

counted :
    (a l : Bool) (n k : ℕ)
    → (a ≡ true → l ≡ false)
    → (if a then n else if l then n + 1 else n) + k ≡ n + ((if l then 1 else 0) + k)
counted true true n k h = cc (h refl)
counted true false n k h = omega arith
counted false true n k h = omega arith
counted false false n k h = omega arith

all-asks : (f : Bytes) → is_all f ≡ true → is_lookup (mechanism f) ≡ false
all-asks f e =
    ap is_lookup (str_eq_sound (mechanism f) (codes "all") e) ∙ unfold is_lookup str_eq in refl

spf_loop_lem :
    (fs : List Bytes) (q : Bytes) (n : ℕ) → spf_loop fs q n ≡ (last_all q fs, n + count looks_up fs)
unfolding spf_loop last_all
spf_loop_lem [] q n = ap (λ k. (q, k)) (omega arith)
spf_loop_lem (f ∷ fs) q n =
    spf_loop_lem fs _ _
    ∙ ap (λ k. (last_all (if is_all f then all_qualifier f else q) fs, k))
        (counted (is_all f) (is_lookup (mechanism f)) n (count looks_up fs) (all-asks f)
          ∙ ap (λ (l : Bool). n + ((if l then 1 else 0) + count looks_up fs))
              (is_lookup_lem (mechanism f)))

last_all-strict :
    (q : Bytes) (fs : List Bytes)
    → last_all q fs ≡ codes "-all"
    → ((q ≡ codes "-all") × All (λ g. is_all g ≡ false) fs) ⊎ EndsStrictly fs
unfolding last_all
last_all-strict q [] h = inl (h, tt)
last_all-strict q (f ∷ fs) h = elim (Bool-cases (is_all f)) [
  | inl e ↦ elim (last_all-strict (all_qualifier f) fs (rw e at h)) [
    | inl (q', none') ↦ inr ([], f, fs, refl, e, q', none')
    | inr (b, g, a, p, e', q', none') ↦ inr (f ∷ b, g, a, ap (λ t. f ∷ t) p, e', q', none')
  ]
  | inr e ↦ elim (last_all-strict q fs (rw e at h)) [
    | inl (q', none') ↦ inl (q', (e, none'))
    | inr (b, g, a, p, e', q', none') ↦ inr (f ∷ b, g, a, ap (λ t. f ∷ t) p, e', q', none')
  ]
]

last_all_none : (q : Bytes) (fs : List Bytes) → All (λ g. is_all g ≡ false) fs → last_all q fs ≡ q
unfolding last_all
last_all_none q [] h = refl
last_all_none q (f ∷ fs) h = rw h.0 (last_all_none q fs h.1)

strict-last_all :
    (before : List Bytes) (f : Bytes) (after : List Bytes) (q : Bytes)
    → is_all f ≡ true
    → All (λ g. is_all g ≡ false) after
    → last_all q (before ++ f ∷ after) ≡ all_qualifier f
unfolding last_all
strict-last_all [] f after q e h =
    if_lem (λ p. last_all p after ≡ all_qualifier f) (is_all f) _ _ (λ _. last_all_none _ after h)
      (λ ne. cc (e, ne))
strict-last_all (b ∷ before) f after q e h = strict-last_all before f after _ e h

strict_iff : (fs : List Bytes) → (last_all [] fs ≡ codes "-all") ↔ EndsStrictly fs
strict_iff fs = (
  (λ h. elim (last_all-strict [] fs h) [ inl (q, none') ↦ absurd (cc q) | inr s ↦ s ]),
  (λ s.
      let (b, f, a, p, e, q, none') = s in
      ap (last_all []) p ∙ strict-last_all b f a [] e none' ∙ q),
)

grade_all-pass : (q : Bytes) (c : Result) → (grade_all q c).status ≡ pass → q ≡ codes "-all"
unfolding grade_all
grade_all-pass q c h = elim (Bool-cases (str_eq q (codes "-all"))) [
  | inl e ↦ str_eq_sound q (codes "-all") e
  | inr e ↦ absurd (other e h)
]
  where
    P : Result → Type 0
    P x = x.status ≢ pass

    other : str_eq q (codes "-all") ≡ false → (grade_all q c).status ≢ pass
    other e = rw e (
        if_lem P (str_eq q (codes "~all")) _ _ (λ _ p. cc p)
          λ _.
            if_lem P (str_eq q (codes "+all")) _ _ (λ _ p. cc p)
              λ _. if_lem P (str_eq q (codes "?all")) _ _ (λ _ p. cc p) (λ _ p. cc p))

limit_lookups-pass :
    (n : ℕ) (c : Result) → (limit_lookups n c).status ≡ pass → (n ≤ 10) × (c.status ≡ pass)
unfolding limit_lookups
limit_lookups-pass n c =
    if_lem (λ (x : Result). x.status ≡ pass → (n ≤ 10) × (c.status ≡ pass)) (ltb 10 n) _ _
      (λ _ p. absurd (cc p)) (λ few p. (ground arith, p))

few-limit_lookups : (n : ℕ) (c : Result) → n ≤ 10 → limit_lookups n c ≡ c
unfolding limit_lookups
few-limit_lookups n c few =
    if_lem (λ (x : Result). x ≡ c) (ltb 10 n) _ _ (λ many. absurd (ground arith)) (λ _. refl)

strict_passes : (c : Result) → (grade_all (codes "-all") c).status ≡ pass
unfolding grade_all str_eq
strict_passes c = refl

grade_spf-terms :
    (spf : Bytes) (c : Result)
    → grade_spf (spf ∷ []) c
      ≡ limit_lookups
          (spf_terms spf).1
          (grade_all (spf_terms spf).0 (record c { found = spf ∷ [] }))
unfolding grade_spf
grade_spf-terms spf c = refl

spf_terms_lem :
    (spf : Bytes) → spf_terms spf ≡ (last_all [] (fields spf), count looks_up (fields spf))
unfolding spf_terms
spf_terms_lem spf =
    spf_loop_lem (fields spf) [] 0 ∙ ap (λ n. (last_all [] (fields spf), n)) (omega arith)

-- The grade of one record, by its last `all` and its look-ups.
graded-pass :
    (spf : Bytes) (c : Result)
    → ((grade_spf (spf ∷ []) c).status ≡ pass)
      ↔ (EndsStrictly (fields spf) × (count looks_up (fields spf) ≤ 10))
graded-pass spf c =
    let q = last_all [] (fields spf) in
    let n = count looks_up (fields spf) in
    let c' = record c { found = spf ∷ [] } in
    let graded =
      ap (λ (x : Result). x.status)
        (grade_spf-terms spf c
          ∙ ap (λ (t : Bytes × ℕ). limit_lookups t.1 (grade_all t.0 c')) (spf_terms_lem spf)) in
    (
      (λ h.
          let (few, good) = limit_lookups-pass n (grade_all q c') (sym graded ∙ h) in
          ((strict_iff (fields spf)).0 (grade_all-pass q c' good), few)),
      (λ (strict, few).
          graded
          ∙ ap (λ (x : Result). x.status)
              (few-limit_lookups n (grade_all q c') few
                ∙ ap (λ p. grade_all p c') ((strict_iff (fields spf)).1 strict))
          ∙ strict_passes c'),
    )

lookup-cases :
    {A : Type 0} (l : Lookup A)
    → ((e : Bytes) × (l ≡ no_answer e)) ⊎ ((recs : List A) × (l ≡ answer recs))
lookup-cases (no_answer e) = inl (e, refl)
lookup-cases (answer recs) = inr (recs, refl)

one_graded :
    (l : List Bytes) (c : Result)
    → c.status ≡ fail
    → (grade_spf (map trim_space l) c).status ≡ pass
    → (raw : Bytes) × (l ≡ raw ∷ [])
      × EndsStrictly (fields (trim_space raw))
      × (count looks_up (fields (trim_space raw)) ≤ 10)
unfolding grade_spf
one_graded [] c failed h = cc (failed, h)
one_graded (raw ∷ []) c failed h =
    let (strict, few) = (graded-pass (trim_space raw) c).0 h in (raw, refl, strict, few)
one_graded (raw ∷ other ∷ more) c failed h = cc h

-- The SPF check passes exactly if the DNS has one SPF record for the domain, the last `all` in it is
-- `-all`, and at most 10 of its terms are, up to the first of `:`, `/` and `=`, one of `a`, `a:`, `a/`,
-- `mx`, `mx:`, `ptr`, `ptr:`, `include:`, `exists:` and `redirect=`.
pub check_spf-passes :
    (r : Resolver) (domain : Bytes) → ((check_spf r domain).status ≡ pass) ↔ Authorises r domain
unfolding check_spf
check_spf-passes r domain = (
  (λ h. elim (lookup-cases (r.lookup_txt domain)) [
    | inl (e, p) ↦ cc (rw (check_spf, p) at h)
    | inr (recs, p) ↦
        let (raw, one, strict, few) =
          one_graded (filter is_spf recs) _ refl (rw (check_spf, p) at h) in
        (recs, raw, p, one, strict, few)
  ]),
  (λ (recs, raw, p, one, strict, few).
      rw (check_spf, p, one)
        ((graded-pass (trim_space raw) (start (codes "spf") (codes "SPF") fail)).1 (strict, few))),
)
