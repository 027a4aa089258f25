-- ===== src/Config/Normal/Parts.antt =====
-- internal/config/config.go: the checks of the certificate, the store and the listen addresses.
use carteiro.Common.{
  Bool, Bytes, Option, [], arith, codes, false, if_lem, inl, inr, none, not, refl, some, str_eq,
  str_eq_self, str_eq_sound, true, ◌||◌, ◌∷◌, ◌≡◌, ◌≢◌,
}
use carteiro.Text.{trim_space}
use carteiro.Config.Types.{Tls, Storage, Api, Web, Outside}
use carteiro.Config.Env.{one_of}
use carteiro.Config.Listen.{normalize_listen, normalize_listen_idem}
use carteiro.Config.Normal.{
  is_listen, tls_mode, check_tls, check_storage, check_api, or_listen, web_listen,
}
use carteiro.Text.Ascii.{trim_space_idem}
use carteiro.Config.Normal.Ensures.{Ensures, Ensures-bind, Ensures-require}
use carteiro.Config.Normal.Shape.{IsApi, IsListen, IsStorage, IsTls, str_eq-ne}

tls_mode-Ensures :
    (mode : Bytes)
    → Ensures (λ m. one_of m (codes "starttls" ∷ codes "implicit" ∷ []) ≡ true) (tls_mode mode)
unfolding tls_mode
tls_mode-Ensures mode =
    let P = λ (m : Bytes). one_of m (codes "starttls" ∷ codes "implicit" ∷ []) ≡ true in
    if_lem (Ensures P) (one_of mode ([] ∷ codes "starttls" ∷ [])) _ _
      (λ _. rw (str_eq_self (codes "starttls")) refl)
      λ _. if_lem (Ensures P) (str_eq mode (codes "implicit")) _ _ (λ e. ground arith) (λ _. tt)

neither : (b c : Bool) → not (b || c) ≡ true → (b ≡ false) × (c ≡ false)
neither b c h = ground arith

pub check_tls-Ensures : (o : Outside) (t : Option Tls) → Ensures (IsTls o) (check_tls o t)
unfolding check_tls
check_tls-Ensures o none = tt
check_tls-Ensures o (some t) =
    let P = IsTls o in
    Ensures-bind (λ m. one_of m (codes "starttls" ∷ codes "implicit" ∷ []) ≡ true) P
      (tls_mode t.mode) _ (tls_mode-Ensures t.mode)
      λ mode good. Ensures-require P (not (str_eq t.cert_pem [] || str_eq t.key_pem [])) _ _ λ pems.
        Ensures-require P (o.is_key_pair t.cert_pem t.key_pem) _ _ λ pair. (
          good,
          (
            str_eq-ne t.cert_pem [] (neither (str_eq t.cert_pem []) _ pems).0,
            str_eq-ne t.key_pem [] (neither (str_eq t.cert_pem []) _ pems).1,
          ),
          pair,
        )

pub check_storage-Ensures : (st : Option Storage) → Ensures IsStorage (check_storage st)
unfolding check_storage
check_storage-Ensures none = tt
check_storage-Ensures (some st) =
    if_lem (Ensures IsStorage) (one_of st.kind ([] ∷ codes "sqlite" ∷ [])) _ _ (λ _. inl refl)
      λ _.
        if_lem (Ensures IsStorage) (str_eq st.kind (codes "mysql")) _ _
          (λ e.
            if_lem (Ensures IsStorage) (str_eq (trim_space st.dsn) []) _ _ (λ _. tt)
              (λ full. inr (str_eq_sound st.kind (codes "mysql") e, str_eq-ne _ _ full)))
          (λ _. tt)

or_listen-IsListen :
    (v default : Bytes)
    → IsListen default
    → trim_space default ≢ []
    → is_listen (or_listen (normalize_listen v) default) ≡ true
    → IsListen (or_listen (normalize_listen v) default)
      × (trim_space (or_listen (normalize_listen v) default) ≢ [])
or_listen-IsListen v default d n h =
    let n' = normalize_listen v in
    let P = λ (x : Bytes). is_listen x ≡ true → IsListen x × (trim_space x ≢ []) in
    if_lem P (str_eq (trim_space n') []) _ _ (λ _ _. (d, n))
      (λ full good. ((normalize_listen_idem v, good), str_eq-ne _ _ full)) h

api_default : IsListen (codes "127.0.0.1:9090") × (trim_space (codes "127.0.0.1:9090") ≢ [])
unfolding normalize_listen is_listen trim_space
api_default = ((refl, refl), λ e. cc e)

web_default : IsListen (codes ":8080") × (trim_space (codes ":8080") ≢ [])
unfolding normalize_listen is_listen trim_space
web_default = ((refl, refl), λ e. cc e)

pub check_api-Ensures :
    (a : Option Api) (w : Option Web)
    → Ensures (λ (r : Option Api × Option Web). IsApi r.0 r.1) (check_api a w)
unfolding check_api
check_api-Ensures none none = tt
check_api-Ensures none (some w) = tt
check_api-Ensures (some a) w =
    let P = λ (r : Option Api × Option Web). IsApi r.0 r.1 in
    Ensures-require P (not (str_eq (trim_space a.token) [])) _ _ λ token.
      Ensures-require P (is_listen (or_listen (normalize_listen a.listen) (codes "127.0.0.1:9090")))
        _ _
        λ l.
          Ensures-require P
            (is_listen (or_listen (normalize_listen (web_listen w)) (codes ":8080"))) _ _
            λ m. (
              (str_eq-ne _ _ (ground arith), trim_space_idem a.token),
              or_listen-IsListen a.listen _ api_default.0 api_default.1 l,
              or_listen-IsListen (web_listen w) _ web_default.0 web_default.1 m,
            )
