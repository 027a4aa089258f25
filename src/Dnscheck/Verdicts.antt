-- ===== src/Dnscheck/Verdicts.antt =====
-- internal/dnscheck/dnscheck.go: what a passed DKIM check means.
use carteiro.Common.{
  Bool, Bool-cases, Bytes, In, List, [], arith, codes, inl, inr, refl, str_eq, str_eq_complete,
  str_eq_sound, subst, sym, true, ◌++◌, ◌∷◌, ◌≡◌, ◌≢◌,
}
use carteiro.Text.{trim_space}
use carteiro.Dnscheck.Types.{
  Resolver, answer, no_answer, Result, pass, fail, Lookup, Key, derived, bad_key, no_public,
}
use carteiro.Dnscheck.{published_dkim, check_dkim, with_key}
use carteiro.Dnscheck.Records.{
  tag_value, normalize_b64, compare_keys, first_such, is_dkim, published_in, start,
}

abbrev p_tag : Bytes → Bytes
p_tag rec_ = tag_value rec_ (codes "p")

-- The key in the record `found` is that of `expected`, but for white space, and is not revoked.
abbrev pub SameKey : Bytes → Bytes → Type 0
SameKey found expected =
    (p_tag found ≢ []) × (normalize_b64 (p_tag found) ≡ normalize_b64 (p_tag expected))

fail-ne-pass : (c : Result) → c.status ≡ fail → c.status ≢ pass
fail-ne-pass c h k = cc

compare_keys-pass :
    (found expected : Bytes) (c : Result)
    → c.status ≡ fail
    → (compare_keys found expected c).status ≡ pass
    → (expected ≢ []) × SameKey found expected
unfolding compare_keys
compare_keys-pass found expected c h k = ground (
  arith,
  str_eq_complete expected [],
  str_eq_complete (p_tag found) [],
  str_eq_sound (normalize_b64 (p_tag found)) (normalize_b64 (p_tag expected)),
)

-- A record among those of the DNS that reads as DKIM.
first_such-found :
    (p : Bytes → Bool) (recs : List Bytes)
    → first_such p recs ≢ []
    → (raw : Bytes) × In raw recs × (p raw ≡ true) × (trim_space raw ≡ first_such p recs)
unfolding first_such
first_such-found p [] h = absurd (h refl)
first_such-found p (r ∷ recs) h = elim (Bool-cases (p r)) [
  | inl e ↦ (r, inl refl, e, rw e)
  | inr e ↦
      let (raw, i, good, same) = first_such-found p recs (rw e at h) in
      (raw, inr i, good, rw e same)
]

-- The DNS publishes the key of the record `expected` under `name`.
abbrev pub Publishes : Resolver → Bytes → Bytes → Type 0
Publishes r name expected =
    (recs : List Bytes) × (raw : Bytes) × (r.lookup_txt name ≡ answer recs)
    × In raw recs
    × (is_dkim raw ≡ true)
    × SameKey (trim_space raw) expected

published_in-pass :
    (name expected : Bytes) (l : Lookup Bytes) (c : Result)
    → c.status ≡ fail
    → (published_in name expected l c).status ≡ pass
    → (expected ≢ [])
      × ((recs : List Bytes) × (raw : Bytes) × (l ≡ answer recs)
          × In raw recs
          × (is_dkim raw ≡ true)
          × SameKey (trim_space raw) expected)
unfolding published_in
published_in-pass name expected (no_answer e) c h k = absurd (fail-ne-pass c h k)
published_in-pass name expected (answer recs) c h k =
    let found = first_such is_dkim recs in
    elim (Bool-cases (str_eq found [])) [
      | inl e ↦ absurd (fail-ne-pass c h (rw e at k))
      | inr e ↦
          let (raw, i, good, same) =
            first_such-found is_dkim recs (λ b. cc (e, str_eq_complete found [] b)) in
          let key =
            compare_keys-pass found expected (record c { found = found ∷ [] }) h (rw e at k) in
          (key.0, (recs, raw, refl, i, good, subst (λ t. SameKey t expected) (sym same) key.1))
    ]

module _ (derive : Bytes → Key) (r : Resolver) where
  with_key-Publishes :
      (name : Bytes) (key : Key) (c : Result)
      → c.status ≡ fail
      → (with_key derive r name key c).status ≡ pass
      → (rec_ : Bytes) × (key ≡ derived rec_) × Publishes r name rec_
  unfolding with_key published_dkim
  with_key-Publishes name (derived rec_) c h k =
      let p = published_in-pass name rec_ (r.lookup_txt name) (record c { expected = rec_ }) h k in
      (rec_, refl, p.1)
  with_key-Publishes name (bad_key e) c h k = cc
  with_key-Publishes name (no_public e) c h k = cc

  -- The DKIM check passes only if a key is stored and the DNS publishes its public half, not
  -- revoked, in a DKIM record under the selector.
  pub check_dkim-Publishes :
      (domain selector key_pem : Bytes)
      → (check_dkim derive r domain selector key_pem).status ≡ pass
      → (rec_ : Bytes) × (derive key_pem ≡ derived rec_)
        × Publishes r (selector ++ (codes "._domainkey." ++ domain)) rec_
  unfolding check_dkim published_dkim
  check_dkim-Publishes domain selector key_pem k =
      let c = start (codes "dkim") (codes "DKIM") fail in
      let name = selector ++ (codes "._domainkey." ++ domain) in
      elim (Bool-cases (str_eq selector [])) [
        | inl e ↦ cc (rw e at k)
        | inr e ↦
            let k' = rw e at k in
            elim (Bool-cases (str_eq (trim_space key_pem) [])) [
              | inl blank ↦
                  absurd
                    ((published_in-pass name [] (r.lookup_txt name) c refl (rw blank at k')).0 refl)
              | inr given ↦ with_key-Publishes name (derive key_pem) c refl (rw given at k')
            ]
      ]
