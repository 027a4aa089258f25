-- ===== src/Config/Normal/Again.antt =====
-- internal/config/config.go: a check of one part leaves a part in normal form as it is.
use carteiro.Common.{
  All, Bool, Bool-cases, Bytes, List, Option, [], any, ap, append-nil, append_assoc, arith, codes,
  false, inl, inr, none, not, refl, some, str_eq, str_eq_iff, str_eq_sound, subst, sym, true, ◌++◌,
  ◌||◌, ◌∙◌, ◌∷◌, ◌≡◌, ◌≢◌,
}
use carteiro.Config.Types.{
  Tls, Storage, Api, Web, Outside, Result, ok, ◌>>=◌, ◌>>◌, require, Error, Account, DkimKey,
}
use carteiro.Config.Env.{one_of}
use carteiro.Config.Seeds.{each, put_seed, dedupe, check_account, check_key, valid_email}
use carteiro.Config.Seeds.Last.{HasDistinctKeys}
use carteiro.Config.Normal.{tls_mode, check_tls, check_storage, check_api, is_listen, or_listen}
use carteiro.Config.Listen.{normalize_listen}
use carteiro.Text.{trim_space}
use carteiro.Config.Normal.Shape.{IsAccount, IsTls, IsStorage, IsApi, IsListen, IsKey}

-- A step that is known to succeed.
pub bind-eq :
    {A B : Type 0} (m : Result A) (f : A → Result B) (a : A) (r : Result B)
    → m ≡ ok a
    → f a ≡ r
    → (m >>= f) ≡ r
bind-eq m f a r e h = rw e h

pub require-eq :
    {B : Type 0} (b : Bool) (e : Error) (m r : Result B) → b ≡ true → m ≡ r → (require b e >> m) ≡ r
require-eq true e m r h k = k
require-eq false e m r h k = cc

ne-str_eq : (a b : Bytes) → a ≢ b → str_eq a b ≡ false
ne-str_eq a b n = elim (Bool-cases (str_eq a b)) [
  | inl e ↦ absurd (n (str_eq_sound a b e))
  | inr e ↦ e
]

module _ {A : Type 0} (key : A → Bytes) (norm : A → A) where
  put_seed_new :
      (x : A) (out : List A)
      → any (λ y. str_eq (key y) (key x)) out ≡ false
      → put_seed key x out ≡ out ++ x ∷ []
  unfolding put_seed
  put_seed_new x [] h = refl
  put_seed_new x (y ∷ out) h = ground (arith, put_seed_new x out)

  -- No key of the second list is in the first.
  abbrev Apart : List A → List A → Type 0
  Apart out xs = All (λ x. any (λ y. str_eq (key y) (key x)) out ≡ false) xs

  any-snoc : (p : A → Bool) (out : List A) (x : A) → any p (out ++ x ∷ []) ≡ (any p out || p x)
  any-snoc p [] x = ground arith
  any-snoc p (y ∷ out) x = ground (arith, any-snoc p out x)

  Apart-snoc :
      (out xs : List A) (x : A)
      → Apart out xs
      → any (λ y. str_eq (key y) (key x)) xs ≡ false
      → Apart (out ++ x ∷ []) xs
  Apart-snoc out [] x a h = tt
  Apart-snoc out (z ∷ xs) x a h = (
    ground (
      arith,
      any-snoc (λ y. str_eq (key y) (key z)) out x,
      str_eq_iff (key x) (key z),
      str_eq_iff (key z) (key x),
      a.0,
    ),
    Apart-snoc out xs x a.1 (ground arith),
  )

  pub dedupe_fixed :
      (xs out : List A)
      → HasDistinctKeys key xs
      → All (λ x. norm x ≡ x) xs
      → Apart out xs
      → dedupe key norm xs out ≡ out ++ xs
  unfolding dedupe
  dedupe_fixed [] out d n a = sym (append-nil out)
  dedupe_fixed (x ∷ xs) out d n a =
      subst (λ z. dedupe key norm xs (put_seed key z out) ≡ out ++ x ∷ xs) (sym n.0)
        (rw (put_seed_new x out a.0) (
          dedupe_fixed xs (out ++ x ∷ []) d.1 n.1 (Apart-snoc out xs x a.1 d.0)
          ∙ append_assoc out (x ∷ []) xs))

  pub Apart-nil : (xs : List A) → Apart [] xs
  Apart-nil [] = tt
  Apart-nil (x ∷ xs) = (refl, Apart-nil xs)

pub each_fixed :
    {A : Type 0} (f : A → Result A) (xs : List A) → All (λ x. f x ≡ ok x) xs → each f xs ≡ ok xs
unfolding each
each_fixed f [] h = refl
each_fixed f (x ∷ xs) h = rw (h.0, each_fixed f xs h.1) refl

tls_mode_names :
    (tls_mode (codes "starttls") ≡ ok (codes "starttls"))
    × (tls_mode (codes "implicit") ≡ ok (codes "implicit"))
unfolding tls_mode str_eq
tls_mode_names = (refl, refl)

tls_mode_fixed :
    (mode : Bytes)
    → one_of mode (codes "starttls" ∷ codes "implicit" ∷ []) ≡ true
    → tls_mode mode ≡ ok mode
tls_mode_fixed mode h = elim (Bool-cases (str_eq mode (codes "starttls"))) [
  | inl e ↦ subst (λ m. tls_mode m ≡ ok m) (sym (str_eq_sound mode _ e)) tls_mode_names.0
  | inr e ↦
      subst (λ m. tls_mode m ≡ ok m) (sym (str_eq_sound mode (codes "implicit") (ground arith)))
        tls_mode_names.1
]

pub check_tls_fixed : (o : Outside) (t : Option Tls) → IsTls o t → check_tls o t ≡ ok t
unfolding check_tls
check_tls_fixed o none h = refl
check_tls_fixed o (some t) h = bind-eq (tls_mode t.mode) _ t.mode _ (tls_mode_fixed t.mode h.0) (
    require-eq _ _ _ _ (rw (ne-str_eq _ _ h.1.0, ne-str_eq _ _ h.1.1) refl)
      (require-eq _ _ _ _ h.2 refl))

pub check_storage_fixed : (st : Option Storage) → IsStorage st → check_storage st ≡ ok st
unfolding check_storage str_eq
check_storage_fixed none h = absurd h
check_storage_fixed (some st) (inl e) =
    subst (λ k. check_storage (some (record st { kind = k })) ≡ ok (some (record st { kind = k })))
      (sym e) refl
check_storage_fixed (some st) (inr (e, full)) =
    subst (λ k. check_storage (some (record st { kind = k })) ≡ ok (some (record st { kind = k })))
      (sym e) (rw (ne-str_eq (trim_space st.dsn) [] full) refl)

or_listen_fixed :
    (v default : Bytes)
    → IsListen v
    → trim_space v ≢ []
    → or_listen (normalize_listen v) default ≡ v
or_listen_fixed v default h n =
    subst (λ x. or_listen x default ≡ v) (sym h.0) (rw (ne-str_eq (trim_space v) [] n) refl)

pub check_api_fixed : (a : Option Api) (w : Option Web) → IsApi a w → check_api a w ≡ ok (a, w)
unfolding check_api
check_api_fixed none none h = refl
check_api_fixed none (some w) h = absurd h
check_api_fixed (some a) none h = absurd h
check_api_fixed (some a) (some w) h =
    let al = or_listen_fixed a.listen (codes "127.0.0.1:9090") h.1.0 h.1.1 in
    let wl = or_listen_fixed w.listen (codes ":8080") h.2.0 h.2.1 in
    require-eq _ _ _ _
      (subst (λ t. not (str_eq t []) ≡ true) (sym h.0.1) (rw (ne-str_eq _ _ h.0.0) refl))
      (require-eq _ _ _ _ (subst (λ v. is_listen v ≡ true) (sym al) h.1.0.1) (
        require-eq _ _ _ _ (subst (λ v. is_listen v ≡ true) (sym wl) h.2.0.1) (cc (al, wl, h.0.1))))

valid_email-ne : (s : Bytes) → valid_email s ≡ true → s ≢ []
unfolding valid_email
valid_email-ne [] h e = cc h
valid_email-ne (c ∷ s) h e = cc e

pub check_account_fixed : (a : Account) → IsAccount a → check_account a ≡ ok a
unfolding check_account
check_account_fixed a h =
    rw (ne-str_eq _ _ (valid_email-ne a.email h.1), h.1, ne-str_eq _ _ h.2)
      (ap (λ l. ok (record a { allowed_from = l })) h.3)

pub check_key_fixed :
    (o : Outside) (k : DkimKey) → IsKey o k → k.selector ≢ [] → check_key o k ≡ ok k
unfolding check_key
check_key_fixed o k h s =
    rw (ne-str_eq _ _ h.0.1, ne-str_eq _ _ s, ne-str_eq _ _ h.2, h.3)
      (ap (λ l. ok (record k { selector = l })) h.1)
