-- ===== src/Config/Normal/Fixed.antt =====
-- internal/config/config.go: normalizeAndValidate leaves its own results as they are.
use carteiro.Common.{All, All-map, List, [], ap, subst, sym, true, ◌∙◌, ◌∷◌, ◌≡◌, ◌≢◌}
use carteiro.Config.Types.{Outside, ok, Account, DkimKey, Config}
use carteiro.Config.Seeds.{
  each, check_account, check_key, dedupe_accounts, dedupe_dkim, email_of, domain_of, lower_domain,
  lower_email,
}
use carteiro.Config.Seeds.Last.{HasDistinctKeys}
use carteiro.Config.Normal.{check_tls, check_storage, check_api, is_listen, normalize_and_validate}
use carteiro.Config.Normal.Valid.{normalize_and_validate-IsNormal}
use carteiro.Config.Normal.Shape.{IsAccount, IsKey, IsNormal}
use carteiro.Config.Normal.Again.{
  Apart-nil, bind-eq, check_account_fixed, check_api_fixed, check_key_fixed, check_storage_fixed,
  check_tls_fixed, dedupe_fixed, each_fixed, require-eq,
}

accounts_fixed :
    (accounts : List Account)
    → HasDistinctKeys email_of accounts
    → All IsAccount accounts
    → each check_account (dedupe_accounts accounts) ≡ ok accounts
unfolding dedupe_accounts
accounts_fixed accounts d h =
    ap (each check_account) (
      dedupe_fixed email_of lower_email accounts [] d
        (All-map IsAccount (λ a. lower_email a ≡ a) (λ a v. ap (λ e. record a { email = e }) v.0)
          accounts h)
        (Apart-nil email_of lower_email accounts))
    ∙ each_fixed check_account accounts
        (All-map IsAccount (λ a. check_account a ≡ ok a) check_account_fixed accounts h)

All-both :
    {A : Type 0} (P Q : A → Type 0) (xs : List A) → All P xs → All Q xs → All (λ x. P x × Q x) xs
All-both P Q [] p q = tt
All-both P Q (x ∷ xs) p q = ((p.0, q.0), All-both P Q xs p.1 q.1)

keys_fixed :
    (o : Outside) (keys : List DkimKey)
    → HasDistinctKeys domain_of keys
    → All (IsKey o) keys
    → All (λ k. k.selector ≢ []) keys
    → each (check_key o) (dedupe_dkim keys) ≡ ok keys
unfolding dedupe_dkim
keys_fixed o keys d h s =
    ap (each (check_key o)) (
      dedupe_fixed domain_of lower_domain keys [] d
        (All-map (IsKey o) (λ k. lower_domain k ≡ k)
          (λ k v. ap (λ e. record k { domain = e }) v.0.0) keys h)
        (Apart-nil domain_of lower_domain keys))
    ∙ each_fixed (check_key o) keys (
        All-map (λ k. IsKey o k × (k.selector ≢ [])) (λ k. check_key o k ≡ ok k)
          (λ k v. check_key_fixed o k v.0 v.1) keys
          (All-both (IsKey o) (λ k. k.selector ≢ []) keys h s))

IsNormal-fixed :
    (o : Outside) (c : Config)
    → IsNormal o c
    → All (λ k. k.selector ≢ []) c.dkim
    → normalize_and_validate o c ≡ ok c
unfolding normalize_and_validate
IsNormal-fixed o c n s =
    require-eq _ _ _ _ (subst (λ v. is_listen v ≡ true) (sym n.listens.0) n.listens.1) (
      bind-eq (check_tls o c.tls) _ c.tls _ (check_tls_fixed o c.tls n.encrypts) (
        require-eq _ _ _ _ n.sizes.0 (
          require-eq _ _ _ _ n.sizes.1 (
            require-eq _ _ _ _ n.keeps.0 (
              require-eq _ _ _ _ n.keeps.1 (
                bind-eq (check_storage c.storage) _ c.storage _
                  (check_storage_fixed c.storage n.stores)
                  (bind-eq (check_api c.api c.web) _ (c.api, c.web) _
                    (check_api_fixed c.api c.web n.serves)
                    (bind-eq (each check_account (dedupe_accounts c.accounts)) _ c.accounts _
                      (accounts_fixed c.accounts n.seeds.0 n.seeds.1)
                      (bind-eq (each (check_key o) (dedupe_dkim c.dkim)) _ c.dkim _
                        (keys_fixed o c.dkim n.signs.0 n.signs.1 s)
                        (require-eq _ _ _ _ n.delivers.0 (
                          require-eq _ _ _ _ n.delivers.1 (
                            require-eq _ _ _ _ n.logs
                              (ap (λ v. ok (record c { listen = v })) n.listens.0)))))))))))))

-- What normalizeAndValidate gives, it accepts again and leaves as it is, if no selector of a DKIM key
-- in it is empty.
pub normalize_and_validate_idem :
    (o : Outside) (c c' : Config)
    → normalize_and_validate o c ≡ ok c'
    → All (λ k. k.selector ≢ []) c'.dkim
    → normalize_and_validate o c' ≡ ok c'
normalize_and_validate_idem o c c' e s =
    IsNormal-fixed o c' (normalize_and_validate-IsNormal o c c' e) s
