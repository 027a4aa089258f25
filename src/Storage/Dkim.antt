-- ===== src/Storage/Dkim.antt =====
-- internal/storage/dkim.go: the DKIM keys.
pub mod Frame
use carteiro.Common.{
  Bool, Bytes, List, Option, [], if◌then◌else◌, none, some, str_eq, ◌&&◌, ◌||◌, ◌∷◌,
}
use carteiro.Text.{normalize}
use carteiro.Text.Ascii.{trim_space}
use carteiro.Storage.Types.{DkimKey, UpsertSummary, Store}
use carteiro.Storage.Db.{
  M, ◌>>=◌, ◌>>◌, return, fail, query, exec_, dkim_required, delete_where, order_by,
}
use carteiro.Storage.Accounts.{note_created, note_updated, note_unchanged, text_le}

abbrev pub has_domain : Bytes → DkimKey → Bool
has_domain domain k = str_eq k.domain domain

abbrev pub find_key : Bytes → List DkimKey → Option DkimKey
find_key domain [] = none
find_key domain (k ∷ keys) = if has_domain domain k then some k else find_key domain keys

unfoldable pub get_dkim : Bytes → M (Option DkimKey)
unfolding query normalize
get_dkim domain = query (λ s. find_key (normalize domain) s.dkim_keys)

unfoldable pub list_dkim : M (List DkimKey)
unfolding query order_by text_le
list_dkim = query (λ s. order_by (λ a b. text_le a.domain b.domain) s.dkim_keys)

abbrev pub put_key : DkimKey → List DkimKey → List DkimKey
put_key k [] = k ∷ []
put_key k (x ∷ keys) = if has_domain k.domain x then k ∷ keys else x ∷ put_key k keys

abbrev pub save_key : DkimKey → Store → Store
save_key k s = record s { dkim_keys = put_key k s.dkim_keys }

-- The stored key is the seed's.
unfoldable pub is_same_key : DkimKey → DkimKey → Bool
is_same_key k x = str_eq x.selector k.selector && str_eq x.key_data k.key_data

upsert_found : DkimKey → UpsertSummary → Option DkimKey → M UpsertSummary
unfolding exec_ is_same_key
upsert_found k summary none = do exec_ (save_key k); return (note_created k.domain summary)
upsert_found k summary (some x) =
    if is_same_key k x
    then return (note_unchanged k.domain summary)
    else (do exec_ (save_key k); return (note_updated k.domain summary))

unfoldable pub upsert_key : DkimKey → UpsertSummary → M UpsertSummary
unfolding get_dkim upsert_found normalize trim_space
upsert_key k summary =
    let domain = normalize k.domain in
    if str_eq domain [] || str_eq k.selector [] || str_eq (trim_space k.key_data) []
    then fail dkim_required
    else (do found ← get_dkim domain; upsert_found (record k { domain = domain }) summary found)

-- The partial summary that an error comes with is dropped.
unfoldable pub upsert_dkim : List DkimKey → UpsertSummary → M UpsertSummary
unfolding upsert_key
upsert_dkim [] summary = return summary
upsert_dkim (k ∷ keys) summary = do u ← upsert_key k summary; upsert_dkim keys u

unfoldable pub delete_dkim : Bytes → M (Unit {0})
unfolding exec_ normalize
delete_dkim domain =
    exec_ (λ s. record s { dkim_keys = delete_where (has_domain (normalize domain)) s.dkim_keys })
