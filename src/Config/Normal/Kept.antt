-- ===== src/Config/Normal/Kept.antt =====
-- internal/config/config.go: the loops over the seeds keep what holds of each.
use carteiro.Common.{
  All, Bytes, List, [], any, false, if_lem, refl, str_eq, subst, sym, ◌∙◌, ◌∷◌, ◌≡◌,
}
use carteiro.Config.Types.{Result}
use carteiro.Config.Seeds.{dedupe, each, put_seed}
use carteiro.Config.Seeds.Last.{HasDistinctKeys}
use carteiro.Config.Normal.Ensures.{Ensures, Ensures-bind, Ensures-map}

pub each-Ensures :
    {A : Type 0} (P Q : A → Type 0) (f : A → Result A)
    → ((a : A) → Q a → Ensures P (f a))
    → (xs : List A) → All Q xs
    → Ensures (All P) (each f xs)
unfolding each
each-Ensures P Q f h [] q = tt
each-Ensures P Q f h (x ∷ xs) q = Ensures-bind P (All P) (f x) _ (h x q.0) λ y py.
    Ensures-bind (All P) (All P) (each f xs) _ (each-Ensures P Q f h xs q.1) λ ys pys. (py, pys)

-- The check keeps the keys of the seeds.
pub each-HasDistinctKeys :
    {A : Type 0} (key : A → Bytes) (f : A → Result A)
    → ((a : A) → Ensures (λ b. key b ≡ key a) (f a))
    → (xs : List A) → HasDistinctKeys key xs
    → Ensures (HasDistinctKeys key) (each f xs)
unfolding each
each-HasDistinctKeys {A = A} key f h xs d =
    Ensures-map
      (λ ys.
        ((k : Bytes) → any (λ y. str_eq (key y) k) ys ≡ any (λ y. str_eq (key y) k) xs)
        × HasDistinctKeys key ys)
      (HasDistinctKeys key) (each f xs) (λ ys p. p.1) (go xs d)
  where
    go :
        (xs : List A)
        → HasDistinctKeys key xs
        → Ensures
            (λ ys.
              ((k : Bytes) → any (λ y. str_eq (key y) k) ys ≡ any (λ y. str_eq (key y) k) xs)
              × HasDistinctKeys key ys)
            (each f xs)
    go [] d = ((λ k. refl), tt)
    go (x ∷ xs) d =
        Ensures-bind (λ y. key y ≡ key x) _ (f x) _ (h x)
          λ y same.
            Ensures-bind
              (λ ys.
                ((k : Bytes) → any (λ y. str_eq (key y) k) ys ≡ any (λ y. str_eq (key y) k) xs)
                × HasDistinctKeys key ys)
              _ (each f xs) _ (go xs d.1)
              λ ys p. (
                (λ k. rw (same, p.0 k) refl),
                (
                  p.0 (key y) ∙ subst (λ k. any (λ z. str_eq (key z) k) xs ≡ false) (sym same) d.0,
                  p.1,
                ),
              )

All-put_seed :
    {A : Type 0} (key : A → Bytes) (P : A → Type 0) (x : A) (uniq : List A)
    → P x
    → All P uniq
    → All P (put_seed key x uniq)
unfolding put_seed
All-put_seed key P x [] px p = (px, tt)
All-put_seed key P x (y ∷ uniq) px p =
    if_lem (All P) (str_eq (key y) (key x)) _ _ (λ _. (px, p.1))
      (λ _. (p.0, All-put_seed key P x uniq px p.1))

pub All-dedupe :
    {A : Type 0} (key : A → Bytes) (P : A → Type 0) (norm : A → A)
    → ((a : A) → P (norm a))
    → (xs uniq : List A) → All P uniq
    → All P (dedupe key norm xs uniq)
unfolding dedupe
All-dedupe key P norm h [] uniq p = p
All-dedupe key P norm h (x ∷ xs) uniq p =
    All-dedupe key P norm h xs (put_seed key (norm x) uniq)
      (All-put_seed key P (norm x) uniq (h x) p)
