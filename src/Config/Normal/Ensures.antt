-- ===== src/Config/Normal/Ensures.antt =====
-- internal/config/config.go: properties of what the checks return.
use carteiro.Common.{Bool, false, refl, subst, true, ◌≡◌}
use carteiro.Config.Types.{Result, ok, err, panics, ◌>>=◌, ◌>>◌, require, Error}

-- The predicate holds of the result, if there is one.
abbrev pub Ensures : {A : Type 0} → (A → Type 0) → Result A → Type 0
Ensures P (ok a) = P a
Ensures P (err e) = Unit
Ensures P panics = Unit

pub Ensures-bind :
    {A B : Type 0} (Q : A → Type 0) (P : B → Type 0) (m : Result A) (f : A → Result B)
    → Ensures Q m
    → ((a : A) → Q a → Ensures P (f a))
    → Ensures P (m >>= f)
Ensures-bind Q P (ok a) f h k = k a h
Ensures-bind Q P (err e) f h k = tt
Ensures-bind Q P panics f h k = tt

pub Ensures-require :
    {B : Type 0} (P : B → Type 0) (b : Bool) (e : Error) (m : Result B)
    → (b ≡ true → Ensures P m)
    → Ensures P (require b e >> m)
Ensures-require P true e m k = k refl
Ensures-require P false e m k = tt

pub Ensures-ok : {A : Type 0} (P : A → Type 0) (m : Result A) (a : A) → Ensures P m → m ≡ ok a → P a
Ensures-ok P m a h e = subst (Ensures P) e h

pub Ensures-map :
    {A : Type 0} (P Q : A → Type 0) (m : Result A)
    → ((a : A) → P a → Q a)
    → Ensures P m
    → Ensures Q m
Ensures-map P Q (ok a) f h = f a h
Ensures-map P Q (err e) f h = tt
Ensures-map P Q panics f h = tt

pub Ensures-both :
    {A : Type 0} (P Q : A → Type 0) (m : Result A)
    → Ensures P m
    → Ensures Q m
    → Ensures (λ a. P a × Q a) m
Ensures-both P Q (ok a) p q = (p, q)
Ensures-both P Q (err e) p q = tt
Ensures-both P Q panics p q = tt
