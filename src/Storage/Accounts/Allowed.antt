-- ===== src/Storage/Accounts/Allowed.antt =====
-- `normalizeAllowed`: which senders an account may use.
use carteiro.Common.{
  Bool-cases, Bytes, In, List, [], any, arith, false, if◌then◌else◌, inl, inr, map, refl, str_eq,
  str_eq_complete, str_eq_sound, subst, sym, true, ◌++◌, ◌||◌, ◌↔◌, ◌∙◌, ◌∷◌, ◌≡◌, ◌≢◌, ◌⊎◌,
}
use carteiro.Text.{normalize}
use carteiro.Storage.Accounts.{add_allowed, normalize_allowed}

-- No address stands twice.
abbrev pub IsDistinct : List Bytes → Type 0
IsDistinct [] = Unit
IsDistinct (f ∷ fs) = (any (str_eq f) fs ≡ false) × IsDistinct fs

pub In-any : (f : Bytes) (fs : List Bytes) → In f fs → any (str_eq f) fs ≡ true
In-any f [] i = absurd i.1
In-any f (g ∷ fs) (inl e) = ground (arith, str_eq_complete f g e)
In-any f (g ∷ fs) (inr i) = ground (arith, In-any f fs i)

pub any-In : (f : Bytes) (fs : List Bytes) → any (str_eq f) fs ≡ true → In f fs
any-In f [] h = cc
any-In f (g ∷ fs) h = elim (Bool-cases (str_eq f g)) [
  | inl e ↦ inl (str_eq_sound f g e)
  | inr e ↦ inr (any-In f fs (ground arith))
]

pub any-append :
    (f g : Bytes) (fs : List Bytes)
    → any (str_eq f) (fs ++ g ∷ []) ≡ (any (str_eq f) fs || str_eq f g)
any-append f g [] = ground arith
any-append f g (h ∷ fs) = ground (arith, any-append f g fs)

pub str_eq-swap : (a b : Bytes) → str_eq a b ≡ true → str_eq b a ≡ true
str_eq-swap a b h = str_eq_complete b a (sym (str_eq_sound a b h))

pub append-IsDistinct :
    (fs : List Bytes) (g : Bytes)
    → any (str_eq g) fs ≡ false
    → IsDistinct fs
    → IsDistinct (fs ++ g ∷ [])
append-IsDistinct [] g h d = (refl, tt)
append-IsDistinct (f ∷ fs) g h d =
    ground (arith, any-append f g fs, append-IsDistinct fs g, str_eq-swap f g)

-- One round of the loop.
abbrev next_allowed : Bytes → List Bytes → List Bytes
next_allowed f out =
    let f' = normalize f in if str_eq f' [] || any (str_eq f') out then out else out ++ f' ∷ []

next_allowed-IsDistinct :
    (f : Bytes) (out : List Bytes) → IsDistinct out → IsDistinct (next_allowed f out)
next_allowed-IsDistinct f out d = ground (arith, append-IsDistinct out (normalize f))

add_allowed-IsDistinct :
    (extra out : List Bytes) → IsDistinct out → IsDistinct (add_allowed extra out)
unfolding add_allowed
add_allowed-IsDistinct [] out d = d
add_allowed-IsDistinct (f ∷ extra) out d =
    add_allowed-IsDistinct extra (next_allowed f out) (next_allowed-IsDistinct f out d)

abbrev Reaches : Bytes → List Bytes → List Bytes → Type 0
Reaches a extra out = In a out ⊎ ((a ≢ []) × In a (map normalize extra))

In-append : (a g : Bytes) (fs : List Bytes) → In a (fs ++ g ∷ []) ↔ (In a fs ⊎ (a ≡ g))
In-append a g fs = (fore fs, back fs)
  where
    fore : (fs : List Bytes) → In a (fs ++ g ∷ []) → In a fs ⊎ (a ≡ g)
    fore [] (inl e) = inr e
    fore [] (inr i) = absurd i.1
    fore (f ∷ fs) (inl e) = inl (inl e)
    fore (f ∷ fs) (inr i) = elim (fore fs i) [ inl j ↦ inl (inr j) | inr e ↦ inr e ]

    back : (fs : List Bytes) → In a fs ⊎ (a ≡ g) → In a (fs ++ g ∷ [])
    back [] (inl i) = absurd i.1
    back [] (inr e) = inl e
    back (f ∷ fs) (inl (inl e)) = inl e
    back (f ∷ fs) (inl (inr i)) = inr (back fs (inl i))
    back (f ∷ fs) (inr e) = inr (back fs (inr e))

next_allowed-In :
    (a f : Bytes) (out : List Bytes)
    → In a (next_allowed f out) ↔ (In a out ⊎ ((a ≢ []) × (a ≡ normalize f)))
next_allowed-In a f out = elim (Bool-cases (str_eq (normalize f) [])) [
  | inl empty ↦
      let e = str_eq_sound (normalize f) [] empty in
      rw empty (inl, elim [ inl i ↦ i | inr p ↦ absurd (p.0 (p.1 ∙ e)) ])
  | inr some' ↦ elim (Bool-cases (any (str_eq (normalize f)) out)) [
    | inl old ↦
        let i = any-In (normalize f) out old in
        rw (some', old) (inl, elim [ inl j ↦ j | inr p ↦ subst (λ x. In x out) (sym p.1) i ])
    | inr new ↦
        let filled = λ (e : normalize f ≡ []).
          absurd {A = ⊥} (cc (str_eq_complete (normalize f) [] e, some')) in
        let both = In-append a (normalize f) out in
        rw (some', new)
          (
            λ i. elim (both.0 i) [ inl j ↦ inl j | inr e ↦ inr (λ none. filled (sym e ∙ none), e) ],
            elim [ inl j ↦ both.1 (inl j) | inr p ↦ both.1 (inr p.1) ],
          )
  ]
]

add_allowed-In :
    (a : Bytes) (extra out : List Bytes) → In a (add_allowed extra out) ↔ Reaches a extra out
unfolding add_allowed
add_allowed-In a [] out = (inl, elim [ inl i ↦ i | inr p ↦ absurd p.1.1 ])
add_allowed-In a (f ∷ extra) out =
    let rest = add_allowed-In a extra (next_allowed f out) in
    let one = next_allowed-In a f out in
    (
      λ i. elim (rest.0 i) [
        | inl j ↦ elim (one.0 j) [ inl k ↦ inl k | inr p ↦ inr (p.0, inl p.1) ]
        | inr p ↦ inr (p.0, inr p.1)
      ],
      elim [
        | inl i ↦ rest.1 (inl (one.1 (inl i)))
        | inr p ↦ elim p.1 [
          | inl e ↦ rest.1 (inl (one.1 (inr (p.0, e))))
          | inr i ↦ rest.1 (inr (p.0, i))
        ]
      ],
    )

-- The list has no address twice, and holds the account's own address and the extra ones that are
-- not blank, trimmed and in lower case, and no other.
pub normalize_allowed_lem :
    (email : Bytes) (extra : List Bytes)
    → IsDistinct (normalize_allowed email extra)
      × ((a : Bytes)
          → In a (normalize_allowed email extra)
            ↔ ((a ≡ email) ⊎ ((a ≢ []) × In a (map normalize extra))))
unfolding normalize_allowed
normalize_allowed_lem email extra = (
  add_allowed-IsDistinct extra (email ∷ []) (refl, tt),
  λ a. (
    λ i. elim ((add_allowed-In a extra (email ∷ [])).0 i) [
      | inl (inl e) ↦ inl e
      | inl (inr j) ↦ absurd j.1
      | inr p ↦ inr p
    ],
    elim [
      | inl e ↦ (add_allowed-In a extra (email ∷ [])).1 (inl (inl e))
      | inr p ↦ (add_allowed-In a extra (email ∷ [])).1 (inr p)
    ],
  ),
)
