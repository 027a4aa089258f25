-- ===== src/Storage/Db/Order.antt =====
-- `ORDER BY`: the order is a permutation of the rows, and is sorted.
use carteiro.Common.{
  All, All-map, Bool, Bool-cases, In, List, [], any, ap, arith, count, drop, false, if◌then◌else◌,
  inl, inr, length, refl, suc, take, true, zero, ℕ, ◌+◌, ◌||◌, ◌∙◌, ◌∷◌, ◌≡◌, ◌⊎◌,
}
use carteiro.Storage.Db.{insert_by, order_by}

module _ {A : Type 0} (le : A → A → Bool) where
  pub count-insert_by :
      (p : A → Bool) (x : A) (xs : List A)
      → count p (insert_by le x xs) ≡ (if p x then 1 else 0) + count p xs
  unfolding insert_by
  count-insert_by p x [] = refl
  count-insert_by p x (y ∷ ys) = ground (arith, count-insert_by p x ys)

  pub count-order_by : (p : A → Bool) (xs : List A) → count p (order_by le xs) ≡ count p xs
  unfolding order_by
  count-order_by p [] = refl
  count-order_by p (x ∷ xs) =
      omega (arith, count-insert_by p x (order_by le xs), count-order_by p xs)

  length-insert_by : (x : A) (xs : List A) → length (insert_by le x xs) ≡ suc (length xs)
  unfolding insert_by
  length-insert_by x [] = refl
  length-insert_by x (y ∷ ys) = ground (arith, length-insert_by x ys)

  any-insert_by :
      (p : A → Bool) (x : A) (ys : List A) → any p (insert_by le x ys) ≡ (p x || any p ys)
  unfolding insert_by
  any-insert_by p x [] = refl
  any-insert_by p x (y ∷ ys) = ground (arith, any-insert_by p x ys)

  pub any-order_by : (p : A → Bool) (xs : List A) → any p (order_by le xs) ≡ any p xs
  unfolding order_by
  any-order_by p [] = refl
  any-order_by p (x ∷ xs) =
      any-insert_by p x (order_by le xs) ∙ ap (λ b. p x || b) (any-order_by p xs)

  pub length-order_by : (xs : List A) → length (order_by le xs) ≡ length xs
  unfolding order_by
  length-order_by [] = refl
  length-order_by (x ∷ xs) = omega (arith, length-insert_by x (order_by le xs), length-order_by xs)

  pub All-insert_by {κ} :
      (P : A → Type κ) (x : A) (xs : List A) → P x → All P xs → All P (insert_by le x xs)
  unfolding insert_by
  All-insert_by P x [] px h = (px, tt)
  All-insert_by P x (y ∷ ys) px h = elim (Bool-cases (le x y)) [
    | inl e ↦ rw e (px, h)
    | inr e ↦ rw e (h.0, All-insert_by P x ys px h.1)
  ]

  pub All-order_by {κ} : (P : A → Type κ) (xs : List A) → All P xs → All P (order_by le xs)
  unfolding order_by
  All-order_by P [] h = tt
  All-order_by P (x ∷ xs) h = All-insert_by P x (order_by le xs) h.0 (All-order_by P xs h.1)

  In-insert_by : (a x : A) (xs : List A) → (a ≡ x) ⊎ In a xs → In a (insert_by le x xs)
  unfolding insert_by
  In-insert_by a x [] (inl e) = inl e
  In-insert_by a x [] (inr i) = inr i
  In-insert_by a x (y ∷ ys) i = ground (arith, In-insert_by a x ys)

  pub In-order_by : (a : A) (xs : List A) → In a xs → In a (order_by le xs)
  unfolding order_by
  In-order_by a [] i = i
  In-order_by a (x ∷ xs) (inl e) = In-insert_by a x (order_by le xs) (inl e)
  In-order_by a (x ∷ xs) (inr i) = In-insert_by a x (order_by le xs) (inr (In-order_by a xs i))

  -- Every element may stand before all that are behind it.
  abbrev pub IsSorted : List A → Type 0
  IsSorted [] = Unit
  IsSorted (x ∷ xs) = All (λ y. le x y ≡ true) xs × IsSorted xs

  pub take-le-drop :
      (n : ℕ) (xs : List A)
      → IsSorted xs
      → All (λ x. All (λ y. le x y ≡ true) (drop n xs)) (take n xs)
  take-le-drop zero xs s = tt
  take-le-drop (suc n) [] s = tt
  take-le-drop (suc n) (x ∷ xs) s = (All-drop n xs s.0, take-le-drop n xs s.1)
    where
      All-drop :
          (k : ℕ) (ys : List A) → All (λ y. le x y ≡ true) ys → All (λ y. le x y ≡ true) (drop k ys)
      All-drop zero ys h = h
      All-drop (suc k) [] h = tt
      All-drop (suc k) (y ∷ ys) h = All-drop k ys h.1

module _ {A : Type 0} (le : A → A → Bool) (total : (x y : A) → le x y ≡ false → le y x ≡ true)
    (trans : (x y z : A) → le x y ≡ true → le y z ≡ true → le x z ≡ true) where
  insert_by-IsSorted : (x : A) (xs : List A) → IsSorted le xs → IsSorted le (insert_by le x xs)
  unfolding insert_by
  insert_by-IsSorted x [] s = (tt, tt)
  insert_by-IsSorted x (y ∷ ys) s = elim (Bool-cases (le x y)) [
    | inl e ↦
        rw e ((e, All-map (λ z. le y z ≡ true) (λ z. le x z ≡ true) (λ z. trans x y z e) ys s.0), s)
    | inr e ↦
        rw e (
          All-insert_by le (λ z. le y z ≡ true) x ys (total x y e) s.0,
          insert_by-IsSorted x ys s.1,
        )
  ]

  pub order_by-IsSorted : (xs : List A) → IsSorted le (order_by le xs)
  unfolding order_by
  order_by-IsSorted [] = tt
  order_by-IsSorted (x ∷ xs) = insert_by-IsSorted x (order_by le xs) (order_by-IsSorted xs)
