-- ===== src/Config/Load/Override.antt =====
-- internal/config/config.go: the DKIM keys of the environment override those of the file.
use carteiro.Common.{
  Bool, Bool-cases, Bytes, List, Option, Option-cases, [], any, ap, filter, if◌then◌else◌, inl, inr,
  none, not, refl, some, str_eq, str_eq_sound, subst, sym, true, ◌++◌, ◌∙◌, ◌∷◌, ◌≡◌, ◌≢◌,
}
use carteiro.Text.{normalize}
use carteiro.Config.Types.{DkimKey}
use carteiro.Config.Seeds.{domain_of, lower_domain, dedupe_dkim}
use carteiro.Config.Seeds.Last.{last_seed, or_else, or_else-none, find_seed, find_seed-dedupe}
use carteiro.Config.Load.{merge_dkim}

abbrev pub last_key : Bytes → List DkimKey → Option DkimKey
last_key = last_seed domain_of lower_domain

or_else_assoc : {A : Type 0} (a b c : Option A) → or_else (or_else a b) c ≡ or_else a (or_else b c)
or_else_assoc none b c = refl
or_else_assoc (some x) b c = refl

last_key-append :
    (d : Bytes) (xs ys : List DkimKey)
    → last_key d (xs ++ ys) ≡ or_else (last_key d ys) (last_key d xs)
last_key-append d [] ys = sym (or_else-none (last_key d ys))
last_key-append d (x ∷ xs) ys =
    ap (λ o. or_else o (if str_eq (normalize x.domain) d then some (lower_domain x) else none))
      (last_key-append d xs ys)
    ∙ or_else_assoc (last_key d ys) (last_key d xs) _

-- A domain of the list, as it is written.
abbrev names : List DkimKey → DkimKey → Bool
names env k = any (λ (e : DkimKey). str_eq e.domain k.domain) env

names-last_key :
    (d : Bytes) (env : List DkimKey) (k : DkimKey)
    → names env k ≡ true
    → str_eq (normalize k.domain) d ≡ true
    → last_key d env ≢ none
names-last_key d [] k h e n = cc h
names-last_key d (x ∷ env) k h e n = elim (Option-cases (last_key d env)) [
  | inr (a, some_) ↦ cc (rw some_ at n)
  | inl missing ↦ elim (Bool-cases (str_eq x.domain k.domain)) [
    | inl same ↦
        let e' =
          subst (λ t. str_eq (normalize t) d ≡ true) (sym (str_eq_sound x.domain k.domain same))
            e in
        cc (rw (missing, e') at n)
    | inr other ↦ names-last_key d env k (rw other at h) e missing
  ]
]

last_key-filter :
    (d : Bytes) (env file : List DkimKey)
    → last_key d env ≡ none
    → last_key d (filter (λ k. not (names env k)) file) ≡ last_key d file
last_key-filter d env [] h = refl
last_key-filter d env (k ∷ file) h = elim (Bool-cases (names env k)) [
  | inl e ↦ rw e (elim (Bool-cases (str_eq (normalize k.domain) d)) [
    | inl here ↦ absurd (names-last_key d env k e here h)
    | inr other ↦ rw other (last_key-filter d env file h ∙ sym (or_else-none (last_key d file)))
  ])
  | inr e ↦ rw (e, last_key-filter d env file h) refl
]

merge_dkim-last_key :
    (d : Bytes) (file env : List DkimKey)
    → last_key d (merge_dkim file env) ≡ or_else (last_key d env) (last_key d file)
unfolding merge_dkim
merge_dkim-last_key d file [] = refl
merge_dkim-last_key d file (e ∷ env) =
    let kept = filter (λ k. not (names (e ∷ env) k)) file in
    last_key-append d kept (e ∷ env) ∙ elim (Option-cases (last_key d (e ∷ env))) [
      | inl missing ↦ ap (or_else (last_key d (e ∷ env))) (last_key-filter d (e ∷ env) file missing)
      | inr (a, found) ↦ settled (last_key d (e ∷ env)) _ _ a found
    ]
  where
    settled : (o x y : Option DkimKey) (a : DkimKey) → o ≡ some a → or_else o x ≡ or_else o y
    settled (some b) x y a h = refl
    settled none x y a h = cc h

-- After Load has merged the keys and kept one for each domain, a domain has the last key that the
-- environment gives it, and else the last one of the file.
pub dedupe_dkim-Overrides :
    (file env : List DkimKey) (d : Bytes)
    → find_seed domain_of d (dedupe_dkim (merge_dkim file env))
      ≡ or_else (last_key d env) (last_key d file)
unfolding dedupe_dkim
dedupe_dkim-Overrides file env d =
    find_seed-dedupe domain_of lower_domain d (merge_dkim file env) []
    ∙ or_else-none (last_key d (merge_dkim file env))
    ∙ merge_dkim-last_key d file env
