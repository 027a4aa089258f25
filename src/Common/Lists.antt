-- ===== src/Common/Lists.antt =====
-- Lists measured by native numbers, predicates on lists by recursion, and Boolean searches.
use Prim.Native.Nat.{ℕ, zero, suc, ◌+◌, ◌-◌, ◌≤◌, min}
use mathlib.Core.Path.{◌≡◌, refl, sym, subst}
use mathlib.Core.Logic.{◌≢◌, ◌⊎◌, inl, inr}
use mathlib.Core.Bool.{Bool, true, false, ◌&&◌, ◌||◌}
use mathlib.Core.List.{List, [], ◌∷◌, ◌++◌}
use native.Mathlib.Omega.{arith}
use carteiro.Common.Tests.{if◌then◌else◌}

module _ {ℓ} {A : Type ℓ} where
  abbrev pub length : List A → ℕ
  length [] = 0
  length (x ∷ xs) = suc (length xs)

  abbrev pub take : ℕ → List A → List A
  take zero xs = []
  take (suc n) [] = []
  take (suc n) (x ∷ xs) = x ∷ take n xs

  abbrev pub drop : ℕ → List A → List A
  drop zero xs = xs
  drop (suc n) [] = []
  drop (suc n) (x ∷ xs) = drop n xs

  -- `xs` without what fails the test.
  abbrev pub filter : (A → Bool) → List A → List A
  filter p [] = []
  filter p (x ∷ xs) = if p x then x ∷ filter p xs else filter p xs

  abbrev pub any : (A → Bool) → List A → Bool
  any p [] = false
  any p (x ∷ xs) = p x || any p xs

  -- How many elements pass the test.
  abbrev pub count : (A → Bool) → List A → ℕ
  count p [] = 0
  count p (x ∷ xs) = (if p x then 1 else 0) + count p xs

  pub length-append : (xs ys : List A) → length (xs ++ ys) ≡ length xs + length ys
  length-append [] ys = omega arith
  length-append (x ∷ xs) ys = omega (arith, length-append xs ys)

  pub length-take : (n : ℕ) (xs : List A) → length (take n xs) ≡ min n (length xs)
  length-take zero xs = omega arith
  length-take (suc n) [] = omega arith
  length-take (suc n) (x ∷ xs) = omega (arith, length-take n xs)

  pub count-append : (p : A → Bool) (xs ys : List A) → count p (xs ++ ys) ≡ count p xs + count p ys
  count-append p [] ys = omega arith
  count-append p (x ∷ xs) ys = omega (arith, count-append p xs ys)

module _ {ℓ κ} {A : Type ℓ} where
  -- The predicate holds of every element.
  abbrev pub All : (A → Type κ) → List A → Type κ
  All P [] = Unit
  All P (x ∷ xs) = P x × All P xs

  -- The predicate holds of some element, and the place is known.
  abbrev pub Any : (A → Type κ) → List A → Type κ
  Any P [] = ∥ ⊥ ∥₁ × Unit
  Any P (x ∷ xs) = P x ⊎ Any P xs

  pub All-append : (P : A → Type κ) (xs ys : List A) → All P xs → All P ys → All P (xs ++ ys)
  All-append P [] ys hx hy = hy
  All-append P (x ∷ xs) ys hx hy = (hx.0, All-append P xs ys hx.1 hy)

  pub All-map : (P Q : A → Type κ) → ((a : A) → P a → Q a) → (xs : List A) → All P xs → All Q xs
  All-map P Q f [] h = tt
  All-map P Q f (x ∷ xs) h = (f x h.0, All-map P Q f xs h.1)

module _ {ℓ} {A : Type ℓ} where
  -- Membership that can be taken apart.
  abbrev pub In : A → List A → Type ℓ
  In a [] = Unit × ⊥
  In a (x ∷ xs) = (a ≡ x) ⊎ In a xs

  pub filter_congr :
      (p q : A → Bool) → ((a : A) → p a ≡ q a) → (xs : List A) → filter p xs ≡ filter q xs
  filter_congr p q h [] = refl
  filter_congr p q h (x ∷ xs) = ground (arith, h x, filter_congr p q h xs)

  pub filter-filter :
      (p q : A → Bool) (xs : List A) → filter p (filter q xs) ≡ filter (λ a. q a && p a) xs
  filter-filter p q [] = refl
  filter-filter p q (x ∷ xs) = ground (arith, filter-filter p q xs)

  pub In-filter : (p : A → Bool) (a : A) (xs : List A) → p a ≡ true → In a xs → In a (filter p xs)
  In-filter p a [] h i = i
  In-filter p a (x ∷ xs) h (inl e) = ground arith
  In-filter p a (x ∷ xs) h (inr i) = ground (arith, In-filter p a xs h i)

  pub In-unfilter :
      (p : A → Bool) (a : A) (xs : List A) → In a (filter p xs) → (p a ≡ true) × In a xs
  In-unfilter p a [] i = absurd i.1
  In-unfilter p a (x ∷ xs) i = ground (arith, In-unfilter p a xs)

  pub In-All {κ} : (P : A → Type κ) (a : A) (xs : List A) → All P xs → In a xs → P a
  In-All P a [] h i = absurd i.1
  In-All P a (x ∷ xs) h (inl e) = subst P (sym e) h.0
  In-All P a (x ∷ xs) h (inr i) = In-All P a xs h.1 i

  -- An element stands among the first `n`, or behind them.
  pub In-take-drop : (n : ℕ) (a : A) (xs : List A) → In a xs → In a (take n xs) ⊎ In a (drop n xs)
  In-take-drop zero a xs i = inr i
  In-take-drop (suc n) a [] i = absurd i.1
  In-take-drop (suc n) a (x ∷ xs) (inl e) = inl (inl e)
  In-take-drop (suc n) a (x ∷ xs) (inr i) = elim (In-take-drop n a xs i) [
    | inl l ↦ inl (inr l)
    | inr r ↦ inr r
  ]

  pub In-take : (n : ℕ) (a : A) (xs : List A) → In a (take n xs) → In a xs
  In-take zero a xs i = absurd i.1
  In-take (suc n) a [] i = i
  In-take (suc n) a (x ∷ xs) (inl e) = inl e
  In-take (suc n) a (x ∷ xs) (inr i) = inr (In-take n a xs i)

  pub length-drop : (n : ℕ) (xs : List A) → length (drop n xs) ≡ length xs - n
  length-drop zero xs = omega arith
  length-drop (suc n) [] = omega arith
  length-drop (suc n) (x ∷ xs) = omega (arith, length-drop n xs)

  pub count-take-drop :
      (p : A → Bool) (n : ℕ) (xs : List A) → count p (take n xs) + count p (drop n xs) ≡ count p xs
  count-take-drop p zero xs = omega arith
  count-take-drop p (suc n) [] = omega arith
  count-take-drop p (suc n) (x ∷ xs) = omega (arith, count-take-drop p n xs)

  pub count-le-length : (p : A → Bool) (xs : List A) → count p xs ≤ length xs
  count-le-length p [] = omega arith
  count-le-length p (x ∷ xs) = ground (arith, count-le-length p xs)

  pub count-filter :
      (p q : A → Bool) (xs : List A) → count p (filter q xs) ≡ count (λ a. q a && p a) xs
  count-filter p q [] = refl
  count-filter p q (x ∷ xs) = ground (arith, count-filter p q xs)

  pub length-filter : (p : A → Bool) (xs : List A) → length (filter p xs) ≡ count p xs
  length-filter p [] = refl
  length-filter p (x ∷ xs) = ground (arith, length-filter p xs)

  pub count_none : (p : A → Bool) (xs : List A) → All (λ a. p a ≡ false) xs → count p xs ≡ 0
  count_none p [] h = refl
  count_none p (x ∷ xs) h = ground (arith, count_none p xs)

  pub count_congr :
      (p q : A → Bool) → ((a : A) → p a ≡ q a) → (xs : List A) → count p xs ≡ count q xs
  count_congr p q h [] = refl
  count_congr p q h (x ∷ xs) = ground (arith, h x, count_congr p q h xs)

  pub All-any : (p : A → Bool) (xs : List A) → any p xs ≡ false → All (λ a. p a ≡ false) xs
  All-any p [] h = tt
  All-any p (x ∷ xs) h = ground (arith, All-any p xs)

  pub count-In : (p : A → Bool) (a : A) (xs : List A) → In a xs → p a ≡ true → count p xs ≢ 0
  count-In p a [] i h = absurd i.1
  count-In p a (x ∷ xs) (inl e) h = ground arith
  count-In p a (x ∷ xs) (inr i) h = ground (arith, count-In p a xs i h)
