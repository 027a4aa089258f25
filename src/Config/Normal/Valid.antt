-- ===== src/Config/Normal/Valid.antt =====
-- internal/config/config.go: what normalizeAndValidate accepts.
use carteiro.Common.{All, List, Option, [], arith, if_lem, not, refl, str_eq, ◌||◌, ◌≡◌, at_least}
use carteiro.Text.{normalize, to_lower, normalize_idem}
use carteiro.Config.Types.{Config, Api, Web, Account, DkimKey, Outside, ok}
use carteiro.Config.Env.{one_of}
use carteiro.Config.Listen.{normalize_listen, normalize_listen_idem}
use carteiro.Config.Seeds.{
  email_of, domain_of, valid_email, dedupe, check_key, check_account, each, dedupe_accounts,
  lower_email, dedupe_dkim, lower_domain,
}
use carteiro.Config.Seeds.Last.{HasDistinctKeys, dedupe-HasDistinctKeys}
use carteiro.Config.Normal.{
  is_listen, check_tls, check_storage, check_api, log_levels, normalize_and_validate,
}
use carteiro.Text.Ascii.{trim_space_idem}
use carteiro.Config.Seeds.Allowed.{normalize_extra_allowed_idem}
use carteiro.Config.Normal.Ensures.{
  Ensures, Ensures-bind, Ensures-both, Ensures-ok, Ensures-require,
}
use carteiro.Config.Normal.Shape.{IsAccount, IsApi, IsKey, IsNormal, IsStorage, IsTls, str_eq-ne}
use carteiro.Config.Normal.Parts.{check_api-Ensures, check_storage-Ensures, check_tls-Ensures}
use carteiro.Config.Normal.Kept.{All-dedupe, each-Ensures, each-HasDistinctKeys}

check_account-Ensures :
    (a : Account) → normalize a.email ≡ a.email → Ensures IsAccount (check_account a)
unfolding check_account
check_account-Ensures a n =
    if_lem (Ensures IsAccount) (str_eq a.email [] || not (valid_email a.email)) _ _ (λ _. tt)
      λ good.
        if_lem (Ensures IsAccount) (str_eq a.password []) _ _ (λ _. tt)
          λ given.
            (n, ground arith, str_eq-ne _ _ given, normalize_extra_allowed_idem a.allowed_from)

check_key-Ensures :
    (o : Outside) (k : DkimKey) → normalize k.domain ≡ k.domain → Ensures (IsKey o) (check_key o k)
unfolding check_key
check_key-Ensures o k n =
    if_lem (Ensures (IsKey o)) (str_eq k.domain [] || str_eq k.selector []) _ _ (λ _. tt)
      λ named.
        if_lem (Ensures (IsKey o)) (str_eq k.key_data []) _ _ (λ _. tt)
          λ given.
            if_lem (Ensures (IsKey o)) (o.is_signer k.key_data) _ _
              (λ signer. (
                (n, str_eq-ne _ _ (ground arith)),
                trim_space_idem k.selector,
                str_eq-ne _ _ given,
                signer,
              ))
              (λ _. tt)

check_account-email : (a : Account) → Ensures (λ b. b.email ≡ a.email) (check_account a)
unfolding check_account
check_account-email a =
    let P = λ (b : Account). b.email ≡ a.email in
    if_lem (Ensures P) (str_eq a.email [] || not (valid_email a.email)) _ _ (λ _. tt)
      λ _. if_lem (Ensures P) (str_eq a.password []) _ _ (λ _. tt) (λ _. refl)

check_key-domain : (o : Outside) (k : DkimKey) → Ensures (λ b. b.domain ≡ k.domain) (check_key o k)
unfolding check_key
check_key-domain o k =
    let P = λ (b : DkimKey). b.domain ≡ k.domain in
    if_lem (Ensures P) (str_eq k.domain [] || str_eq k.selector []) _ _ (λ _. tt)
      λ _.
        if_lem (Ensures P) (str_eq k.key_data []) _ _ (λ _. tt)
          λ _. if_lem (Ensures P) (o.is_signer k.key_data) _ _ (λ _. refl) (λ _. tt)

accounts-Ensures :
    (accounts : List Account)
    → Ensures
        (λ r. HasDistinctKeys email_of r × All IsAccount r)
        (each check_account (dedupe_accounts accounts))
unfolding dedupe_accounts
accounts-Ensures accounts =
    let uniq = dedupe email_of lower_email accounts [] in
    let normal = λ (a : Account). normalize a.email ≡ a.email in
    Ensures-both (HasDistinctKeys email_of) (All IsAccount) (each check_account uniq)
      (each-HasDistinctKeys email_of check_account check_account-email uniq
        (dedupe-HasDistinctKeys email_of lower_email accounts [] tt))
      (each-Ensures IsAccount normal check_account check_account-Ensures uniq
        (All-dedupe email_of normal lower_email (λ a. normalize_idem a.email) accounts [] tt))

keys-Ensures :
    (o : Outside) (keys : List DkimKey)
    → Ensures
        (λ r. HasDistinctKeys domain_of r × All (IsKey o) r)
        (each (check_key o) (dedupe_dkim keys))
unfolding dedupe_dkim
keys-Ensures o keys =
    let uniq = dedupe domain_of lower_domain keys [] in
    let normal = λ (k : DkimKey). normalize k.domain ≡ k.domain in
    Ensures-both (HasDistinctKeys domain_of) (All (IsKey o)) (each (check_key o) uniq)
      (each-HasDistinctKeys domain_of (check_key o) (check_key-domain o) uniq
        (dedupe-HasDistinctKeys domain_of lower_domain keys [] tt))
      (each-Ensures (IsKey o) normal (check_key o) (check_key-Ensures o) uniq
        (All-dedupe domain_of normal lower_domain (λ k. normalize_idem k.domain) keys [] tt))

normalize_and_validate-Ensures :
    (o : Outside) (c : Config) → Ensures (IsNormal o) (normalize_and_validate o c)
unfolding normalize_and_validate
normalize_and_validate-Ensures o c =
    let P = IsNormal o in
    Ensures-require P (is_listen (normalize_listen c.listen)) _ _ λ listens.
      Ensures-bind (IsTls o) P (check_tls o c.tls) _ (check_tls-Ensures o c.tls) λ tls encrypts.
        Ensures-require P (at_least 1 c.max_message_size) _ _ λ size.
          Ensures-require P (at_least 1 c.max_recipients) _ _ λ recipients.
            Ensures-require P (at_least 0 c.dead_max) _ _ λ dead.
              Ensures-require P (at_least 0 c.send_history_days) _ _ λ days.
                Ensures-bind IsStorage P (check_storage c.storage) _
                  (check_storage-Ensures c.storage)
                  λ storage stores.
                    Ensures-bind (λ (r : Option Api × Option Web). IsApi r.0 r.1) P
                      (check_api c.api c.web) _ (check_api-Ensures c.api c.web)
                      λ listeners serves.
                        Ensures-bind (λ r. HasDistinctKeys email_of r × All IsAccount r) P
                          (each check_account (dedupe_accounts c.accounts)) _
                          (accounts-Ensures c.accounts)
                          λ accounts seeds.
                            Ensures-bind (λ r. HasDistinctKeys domain_of r × All (IsKey o) r) P
                              (each (check_key o) (dedupe_dkim c.dkim)) _ (keys-Ensures o c.dkim)
                              λ keys signs.
                                Ensures-require P (at_least 1 c.delivery.max_attempts) _ _
                                  λ attempts.
                                    Ensures-require P (at_least 1 c.delivery.concurrency) _ _
                                      λ workers.
                                        Ensures-require P (one_of (to_lower c.log_level) log_levels)
                                          _ _
                                          λ logs. record {
                                            listens = (normalize_listen_idem c.listen, listens);
                                            encrypts = encrypts;
                                            sizes = (size, recipients);
                                            keeps = (dead, days);
                                            stores = stores;
                                            serves = serves;
                                            seeds = seeds;
                                            signs = signs;
                                            delivers = (attempts, workers);
                                            logs = logs;
                                          }

-- What normalizeAndValidate accepts, it brings to a normal form that the program can run with: the
-- addresses to listen on, the certificate, the sizes, the store, the API with its token and the
-- panel, seeds with distinct, valid addresses and passwords, and keys for distinct domains.
pub normalize_and_validate-IsNormal :
    (o : Outside) (c c' : Config) → normalize_and_validate o c ≡ ok c' → IsNormal o c'
normalize_and_validate-IsNormal o c c' e =
    Ensures-ok (IsNormal o) (normalize_and_validate o c) c' (normalize_and_validate-Ensures o c) e
