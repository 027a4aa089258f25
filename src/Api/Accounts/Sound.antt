-- ===== src/Api/Accounts/Sound.antt =====
-- internal/api/api.go: the handlers of the accounts keep the store coherent.
use carteiro.Common.{
  Bytes, Option, [], any, codes, if_lem, none, not, option_lem, refl, some, str_eq, subst, sym,
  ◌&&◌, ◌||◌, ◌∷◌, ◌≡◌,
}
use carteiro.Text.{normalize, contains_byte}
use carteiro.Storage.Types.{Store}
use carteiro.Storage.Accounts.{
  upsert_accounts, list_accounts, empty_summary, get_account, delete_account, find_account,
  by_email, update_account,
}
use carteiro.Storage.Accounts.Frame.{
  upsert_accounts-SameQueue, delete_account-SameQueue, update_account-SameQueue,
}
use carteiro.Storage.Accounts.Invariant.{upsert_accounts-IsAccounts, update_account-IsAccounts}
use carteiro.Storage.Queue.Soundness.{IsQueue}
use carteiro.Api.Types.{
  Services, CreateAccount, Response, UpdateAccount, State, write_json, write_error,
}
use carteiro.Api.Sound.{
  Handles, IsCoherent, call-Handles, error-Handles, failure-Handles, same-Preserves, Preserves,
}
use carteiro.Api.Accounts.{
  handle_list_accounts, create_account, draw, handle_create_account, handle_update_account,
  handle_delete_account, update_existing, update_found, Account, or_empty_text, or_old, is_none,
  trim_space,
}
use carteiro.Storage.Accounts.Table.{IsAccounts}
use carteiro.Storage.Db.Rules.{query-cases}
use carteiro.Storage.Db.{after, order_by, M}
use carteiro.Storage.Accounts.Owned.{delete_account-IsAccounts}

abbrev Good : Response × State → Type 0
Good o = IsCoherent o.1.store

accounts-Preserves :
    {A : Type 0} (m : M A)
    → ((s : Store) → (after (m s)).queue ≡ s.queue)
    → ((s : Store) → IsAccounts s.accounts → IsAccounts (after (m s)).accounts)
    → Preserves m
accounts-Preserves m same h s c = (subst IsQueue (sym (same s)) c.0, h s c.1)

list_accounts-Preserves : Preserves list_accounts
unfolding list_accounts
list_accounts-Preserves = same-Preserves list_accounts λ s.
    query-cases (λ o. ((after o).accounts ≡ s.accounts) × ((after o).queue ≡ s.queue)) s
      (λ t. order_by by_email t.accounts) (refl, refl) (refl, refl)

get_account-Preserves : (email : Bytes) → Preserves (get_account email)
unfolding get_account
get_account-Preserves email = same-Preserves (get_account email) λ s.
    query-cases (λ o. ((after o).accounts ≡ s.accounts) × ((after o).queue ≡ s.queue)) s
      (λ t. find_account (normalize email) t.accounts) (refl, refl) (refl, refl)

pub handle_list_accounts-Handles : Handles handle_list_accounts
unfolding handle_list_accounts write_json
handle_list_accounts-Handles =
    call-Handles list_accounts _ _ list_accounts-Preserves (failure-Handles 500) (λ a t k. k)

create_account-Handles :
    (services : Services) (req : CreateAccount) → Handles (create_account services req)
unfolding create_account write_json write_error
create_account-Handles services req s c =
    let b = services.bcrypt in
    let email = normalize req.email in
    let seeds =
      (s.drawn, record { email = email; password = req.password; allowed_from = req.allowed_from })
      ∷ [] in
    if_lem Good (str_eq email [] || not (contains_byte email b'@')) _ _ (λ _. c)
      λ _.
        if_lem Good (str_eq req.password []) _ _ (λ _. c)
          λ _.
            call-Handles (upsert_accounts b seeds empty_summary) _ _
              (accounts-Preserves (upsert_accounts b seeds empty_summary)
                (upsert_accounts-SameQueue b seeds empty_summary)
                (upsert_accounts-IsAccounts b seeds empty_summary))
              (failure-Handles 500) (λ sum t k. k) (draw s) c

pub handle_create_account-Handles :
    (services : Services) (body : Bytes) → Handles (handle_create_account services body)
unfolding handle_create_account
handle_create_account-Handles services body =
    option_lem Handles (services.decode_create_account body) _ _
      (λ _. error-Handles 400 (codes "invalid JSON body"))
      (λ req _. create_account-Handles services req)

pub handle_delete_account-Handles : (email : Bytes) → Handles (handle_delete_account email)
unfolding handle_delete_account write_json
handle_delete_account-Handles email =
    call-Handles (delete_account (normalize email)) _ _
      (accounts-Preserves (delete_account (normalize email))
        (delete_account-SameQueue (normalize email)) (delete_account-IsAccounts (normalize email)))
      (failure-Handles 500) (λ _ t k. k)

update_existing-Handles :
    (services : Services) (email : Bytes) (req : UpdateAccount) (acc : Account)
    → Handles (update_existing services email req acc)
unfolding update_existing write_json write_error
update_existing-Handles services email req acc s c =
    let b = services.bcrypt in
    let password = or_empty_text req.password in
    let allowed = or_old req.allowed_from acc.allowed_from in
    if_lem Good (is_none req.allowed_from && str_eq password []) _ _ (λ _. c)
      λ _.
        if_lem Good (any (λ f. str_eq (trim_space f) []) allowed) _ _ (λ _. c)
          λ _.
            call-Handles (update_account b s.drawn email allowed password) _ _
              (accounts-Preserves (update_account b s.drawn email allowed password)
                (update_account-SameQueue b s.drawn email allowed password)
                (update_account-IsAccounts b s.drawn email allowed password))
              (failure-Handles 500) (λ _ t k. k) (draw s) c

update_found-Handles :
    (services : Services) (email : Bytes) (req : UpdateAccount) (found : Option Account)
    → Handles (update_found services email req found)
unfolding update_found
update_found-Handles services email req none = error-Handles 404 (codes "account not found")
update_found-Handles services email req (some acc) = update_existing-Handles services email req acc

pub handle_update_account-Handles :
    (services : Services) (email body : Bytes) → Handles (handle_update_account services email body)
unfolding handle_update_account
handle_update_account-Handles services email body =
    option_lem Handles (services.decode_update_account body) _ _
      (λ _. error-Handles 400 (codes "invalid JSON body"))
      λ req _.
        call-Handles (get_account (normalize email)) _ _ (get_account-Preserves (normalize email))
          (failure-Handles 500) (update_found-Handles services (normalize email) req)
