-- ===== src/Config/Seeds/Allowed.antt =====
-- internal/config/config.go: normalizeExtraAllowed gives a list that it leaves as it is.
use carteiro.Common.{
  All, All-append, Bytes, List, [], any, append-nil, append_assoc, arith, false, if_lem,
  if◌then◌else◌, refl, str_eq, subst, sym, ◌++◌, ◌||◌, ◌∙◌, ◌∷◌, ◌≡◌,
}
use carteiro.Text.{normalize, normalize_idem}
use carteiro.Storage.Accounts.{add_allowed}
use carteiro.Storage.Accounts.Allowed.{IsDistinct, append-IsDistinct, any-append, str_eq-swap}
use carteiro.Config.Seeds.{normalize_extra_allowed}

-- An address in normal form that is not blank.
abbrev IsAddress : Bytes → Type 0
IsAddress f = (normalize f ≡ f) × (str_eq f [] ≡ false)

abbrev IsClean : List Bytes → Type 0
IsClean fs = IsDistinct fs × All IsAddress fs

add_allowed-IsClean : (extra out : List Bytes) → IsClean out → IsClean (add_allowed extra out)
unfolding add_allowed
add_allowed-IsClean [] out c = c
add_allowed-IsClean (f ∷ extra) out c =
    let f' = normalize f in
    add_allowed-IsClean extra _ (
      if_lem IsClean (str_eq f' [] || any (str_eq f') out) _ _ (λ _. c)
        λ new. (
          append-IsDistinct out f' (ground arith) c.0,
          All-append IsAddress out (f' ∷ []) c.1 ((normalize_idem f, ground arith), tt),
        ))

-- No address of the second list is in the first.
abbrev Apart : List Bytes → List Bytes → Type 0
Apart out fs = All (λ f. any (str_eq f) out ≡ false) fs

Apart-snoc :
    (out fs : List Bytes) (f : Bytes)
    → Apart out fs
    → any (str_eq f) fs ≡ false
    → Apart (out ++ f ∷ []) fs
Apart-snoc out [] f a n = tt
Apart-snoc out (g ∷ fs) f a n = (
  ground (arith, any-append g f out, str_eq-swap g f, a.0),
  Apart-snoc out fs f a.1 (ground arith),
)

add_allowed_fixed :
    (fs out : List Bytes) → IsClean fs → Apart out fs → add_allowed fs out ≡ out ++ fs
unfolding add_allowed
add_allowed_fixed [] out c a = sym (append-nil out)
add_allowed_fixed (f ∷ fs) out c a =
    subst
      (λ n.
        add_allowed fs (if str_eq n [] || any (str_eq n) out then out else out ++ n ∷ [])
        ≡ out ++ f ∷ fs)
      (sym c.1.0.0)
      (rw (c.1.0.1, a.0)
        (add_allowed_fixed fs (out ++ f ∷ []) (c.0.1, c.1.1) (Apart-snoc out fs f a.1 c.0.0)
          ∙ append_assoc out (f ∷ []) fs))

pub normalize_extra_allowed_idem :
    (extra : List Bytes)
    → normalize_extra_allowed (normalize_extra_allowed extra) ≡ normalize_extra_allowed extra
unfolding normalize_extra_allowed
normalize_extra_allowed_idem extra =
    let c = add_allowed-IsClean extra [] (tt, tt) in
    add_allowed_fixed (add_allowed extra []) [] c (apart_nil _)
  where
    apart_nil : (fs : List Bytes) → Apart [] fs
    apart_nil [] = tt
    apart_nil (f ∷ fs) = (refl, apart_nil fs)
