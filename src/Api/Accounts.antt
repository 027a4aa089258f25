-- ===== src/Api/Accounts.antt =====
-- internal/api/api.go: the handlers of accounts.
pub mod Sound
use carteiro.Common.{
  Bool, Bytes, List, Option, [], any, codes, false, if◌then◌else◌, length, map, none, not, some,
  str_eq, true, ℕ, ◌&&◌, ◌+◌, ◌==◌, ◌||◌, ◌∷◌,
}
use carteiro.Text.{normalize, contains_byte, trim_space}
use carteiro.Storage.Types.{Account, UpsertSummary}
use carteiro.Storage.Accounts.{
  list_accounts, upsert_accounts, delete_account, get_account, update_account, empty_summary,
}
use carteiro.Api.Types.{
  Services, CreateAccount, UpdateAccount, Handler, State, write_json, write_error, write_failure,
  call, account_views, upserted, deleted, updated,
}

unfoldable pub handle_list_accounts : Handler
unfolding call list_accounts write_json write_failure
handle_list_accounts = call list_accounts (write_failure 500) λ accounts.
    write_json 200 (account_views (map (λ (a : Account). (a.email, a.allowed_from)) accounts))

abbrev pub was_created : UpsertSummary → Bool
was_created sum = length sum.created == 1

abbrev pub created_code : Bool → ℕ
created_code created = if created then 201 else 200

-- A salt was drawn.
abbrev pub draw : State → State
draw s = record s { drawn = s.drawn + 1 }

create_account : Services → CreateAccount → Handler
unfolding call upsert_accounts write_json write_error write_failure normalize contains_byte str_eq
create_account services req s =
    let email = normalize req.email in
    if str_eq email [] || not (contains_byte email b'@')
    then write_error 400 (codes "email must be a valid address") s
    else if str_eq req.password []
    then write_error 400 (codes "password must not be empty") s
    else call
        (upsert_accounts services.bcrypt
          ((
            s.drawn,
            record { email = email; password = req.password; allowed_from = req.allowed_from },
          )
            ∷ [])
          empty_summary)
        (write_failure 500)
        (λ sum. write_json (created_code (was_created sum)) (upserted email (was_created sum)))
        (draw s)

unfoldable pub handle_create_account : Services → Bytes → Handler
unfolding create_account write_error
handle_create_account services body = elim (services.decode_create_account body) [
  | none ↦ write_error 400 (codes "invalid JSON body")
  | some req ↦ create_account services req
]

unfoldable pub handle_delete_account : Bytes → Handler
unfolding call delete_account write_json write_failure normalize
handle_delete_account path_email =
    call (delete_account (normalize path_email)) (write_failure 500)
      λ _. write_json 200 (deleted (normalize path_email))

abbrev pub or_empty_text : Option Bytes → Bytes
or_empty_text none = []
or_empty_text (some p) = p

abbrev is_none : Option (List Bytes) → Bool
is_none none = true
is_none (some l) = false

abbrev or_old : Option (List Bytes) → List Bytes → List Bytes
or_old none old = old
or_old (some new) old = new

-- The checks of the fields and the write, once the account is known to exist.
update_existing : Services → Bytes → UpdateAccount → Account → Handler
unfolding call update_account write_json write_error write_failure trim_space str_eq
update_existing services email req acc s =
    let new_password = or_empty_text req.password in
    let allowed = or_old req.allowed_from acc.allowed_from in
    if is_none req.allowed_from && str_eq new_password []
    then write_error 400 (codes "nothing to update (send allowed_from, a new password, or both)") s
    else if any (λ f. str_eq (trim_space f) []) allowed
    then write_error 400 (codes "allowed_from must not contain empty addresses") s
    else call (update_account services.bcrypt s.drawn email allowed new_password)
        (write_failure 500)
        (λ _. write_json 200 (updated email allowed (not (str_eq new_password [])))) (draw s)

update_found : Services → Bytes → UpdateAccount → Option Account → Handler
unfolding update_existing write_error
update_found services email req none = write_error 404 (codes "account not found")
update_found services email req (some acc) = update_existing services email req acc

unfoldable pub handle_update_account : Services → Bytes → Bytes → Handler
unfolding call get_account update_found write_error write_failure normalize
handle_update_account services path_email body = elim (services.decode_update_account body) [
  | none ↦ write_error 400 (codes "invalid JSON body")
  | some req ↦
      call (get_account (normalize path_email)) (write_failure 500)
        (update_found services (normalize path_email) req)
]
