-- ===== src/Storage/Accounts/Stored.antt =====
-- What an upsert of one seed stores, and that a second one with the same seed changes nothing.
use carteiro.Common.{
  Bool-cases, Bytes, List, Option, [], arith, false, inl, inr, none, refl, some, str_eq,
  str_eq_self, str_eq_sound, true, ℕ, ◌∙◌, ◌∷◌, ◌≡◌,
}
use carteiro.Text.{normalize, normalize_idem}
use carteiro.Storage.Types.{Account, AccountSeed, UpsertSummary, Store}
use carteiro.Storage.Db.{done, failed, bind, Outcome, spend, return, exec_, query}
use carteiro.Storage.Db.Rules.{exec_-cases}
use carteiro.Storage.Bcrypt.{Bcrypt}
use carteiro.Storage.Accounts.{
  find_account, put_account, upsert_one, json_equal, verify_password, store_seed, save_account,
  normalize_allowed, note_unchanged, upsert_found, is_current, get_account,
}
use carteiro.Storage.Accounts.Invariant.{hash_password-cases, upsert_one-cases}

find-put :
    (a : Account) (accounts : List Account) → find_account a.email (put_account a accounts) ≡ some a
find-put a [] = ground (arith, str_eq_self a.email)
find-put a (x ∷ accounts) = ground (arith, str_eq_self a.email, find-put a accounts)

json_equal_sound : (xs ys : List Bytes) → json_equal xs ys ≡ true → xs ≡ ys
unfolding json_equal
json_equal_sound [] [] h = refl
json_equal_sound (x ∷ xs) (y ∷ ys) h = ground (arith, str_eq_sound x y, json_equal_sound xs ys)
json_equal_sound _ _ h = cc

json_equal_self : (xs : List Bytes) → json_equal xs xs ≡ true
unfolding json_equal
json_equal_self [] = refl
json_equal_self (x ∷ xs) = ground (arith, str_eq_self x, json_equal_self xs)

module _ (b : Bcrypt) where
  -- The account is stored: its password verifies, and its senders are the given list.
  abbrev pub Stored : Bytes → Bytes → List Bytes → Store → Type 0
  Stored email password allowed s =
      (a : Account) × (find_account email s.accounts ≡ some a)
      × (verify_password b a.password_hash password ≡ true)
      × (a.allowed_from ≡ allowed)

  abbrev Stores : {A : Type 0} → Bytes → Bytes → List Bytes → Outcome A → Type 0
  Stores email password allowed (done u s) = Stored email password allowed s
  Stores email password allowed (failed e s) = Unit

  Stores-return :
      {A B : Type 0} (email password : Bytes) (allowed : List Bytes) (o : Outcome A) (x : B)
      → Stores email password allowed o
      → Stores email password allowed (bind o (λ _. return x))
  Stores-return email password allowed (done a s) x h = h
  Stores-return email password allowed (failed e s) x h = h

  store_seed-Stores :
      (salt : ℕ) (email password : Bytes) (allowed : List Bytes) (s : Store)
      → Stores email password allowed (store_seed b salt email password allowed s)
  unfolding store_seed
  store_seed-Stores salt email password allowed s =
      let saved = λ (hash : Bytes).
        save_account (record { email = email; password_hash = hash; allowed_from = allowed }) in
      hash_password-cases b
        (λ o. Stores email password allowed (bind o (λ hash. exec_ (saved hash)))) salt password s
        (λ e. tt)
        λ hash e. exec_-cases (Stores email password allowed) s (saved hash) tt (
          record { email = email; password_hash = hash; allowed_from = allowed },
          find-put _ s.accounts,
          unfold verify_password in b.generate-compare_hash salt password hash e,
          refl,
        )

  upsert_found-Stores :
      (salt : ℕ) (email password : Bytes) (allowed : List Bytes) (u : UpsertSummary)
      (found : Option Account) (s : Store)
      → find_account email s.accounts ≡ found
      → Stores email password allowed (upsert_found b salt email password allowed u found s)
  unfolding upsert_found
  upsert_found-Stores salt email password allowed u none s e =
      Stores-return email password allowed (store_seed b salt email password allowed s) _
        (store_seed-Stores salt email password allowed s)
  upsert_found-Stores salt email password allowed u (some a) s e =
      elim (Bool-cases (is_current b password allowed a)) [
        | inl current ↦
            rw current
              (a, e, (split current).0, json_equal_sound a.allowed_from allowed (split current).1)
        | inr other ↦ rw other (
            Stores-return email password allowed (store_seed b salt email password allowed s) _
              (store_seed-Stores salt email password allowed s))
      ]
    where
      split :
          is_current b password allowed a ≡ true
          → (verify_password b a.password_hash password ≡ true)
            × (json_equal a.allowed_from allowed ≡ true)
      split h = unfold is_current verify_password in (ground arith, ground arith)

  upsert_one-Stores :
      (salt : ℕ) (seed : AccountSeed) (u : UpsertSummary) (s : Store)
      → let email = normalize seed.email in
        Stores email seed.password
          (normalize_allowed email seed.allowed_from)
          (upsert_one b salt seed u s)
  upsert_one-Stores salt seed u s =
      let email = normalize seed.email in
      let allowed = normalize_allowed email seed.allowed_from in
      upsert_one-cases b (Stores email seed.password allowed) salt seed u s (λ e t _. tt)
        λ _.
          upsert_found-Stores salt email seed.password allowed u (find_account email s.accounts)
            (spend s) refl

  upsert_one_accepts :
      (salt : ℕ) (seed : AccountSeed) (u v : UpsertSummary) (s t : Store)
      → upsert_one b salt seed u s ≡ done v t
      → (str_eq (normalize seed.email) [] ≡ false) × (str_eq seed.password [] ≡ false)
  unfolding upsert_one
  upsert_one_accepts salt seed u v s t h = elim (Bool-cases (str_eq (normalize seed.email) [])) [
    | inl e ↦ cc (rw (e, upsert_one) at h)
    | inr e ↦ elim (Bool-cases (str_eq seed.password [])) [
      | inl e' ↦ cc (rw (e, e', upsert_one) at h)
      | inr e' ↦ (e, e')
    ]
  ]

  upsert_one_finds :
      (salt : ℕ) (seed : AccountSeed) (u : UpsertSummary) (a : Account) (t : Store)
      → let email = normalize seed.email in
        str_eq email [] ≡ false
        → str_eq seed.password [] ≡ false
        → t.faults ≡ []
        → find_account email t.accounts ≡ some a
        → upsert_one b salt seed u t
          ≡ upsert_found b salt email seed.password
              (normalize_allowed email seed.allowed_from)
              u
              (some a)
              (record t { faults = [] })
  unfolding upsert_one get_account query
  upsert_one_finds salt seed u a t e e' ok found =
      rw (e, e', upsert_one, normalize_idem seed.email, ok, found)

  current_found :
      (salt : ℕ) (email password : Bytes) (allowed : List Bytes) (u : UpsertSummary) (a : Account)
      (s : Store)
      → verify_password b a.password_hash password ≡ true
      → a.allowed_from ≡ allowed
      → upsert_found b salt email password allowed u (some a) s ≡ done (note_unchanged email u) s
  unfolding upsert_found
  current_found salt email password allowed u a s v same =
      let current : is_current b password allowed a ≡ true =
        unfold is_current verify_password in rw (v, same) (json_equal_self allowed) in
      rw current

  -- A successful upsert of a seed leaves an account under the seed's normal address that verifies
  -- the seed's password and may use the seed's normal list of senders; and then, if no statement
  -- fails, an upsert of the seed with any salt reports it unchanged and changes nothing.
  pub upsert_one_twice :
      (salt salt' : ℕ) (seed : AccountSeed) (u u' v : UpsertSummary) (s t : Store)
      → upsert_one b salt seed u s ≡ done v t
      → t.faults ≡ []
      → let email = normalize seed.email in
        Stored email seed.password (normalize_allowed email seed.allowed_from) t
        × (upsert_one b salt' seed u' t ≡ done (note_unchanged email u') (record t { faults = [] }))
  upsert_one_twice salt salt' seed u u' v s t e ok =
      let email = normalize seed.email in
      let stored = rw e at (upsert_one-Stores salt seed u s) in
      let (accepted, set) = upsert_one_accepts salt seed u v s t e in
      let (a, found, verifies, senders) = stored in
      (
        stored,
        upsert_one_finds salt' seed u' a t accepted set ok found
            ∙ current_found salt' email seed.password (normalize_allowed email seed.allowed_from) u'
                a (record t { faults = [] }) verifies senders,
      )
