-- ===== src/Tests/Accounts.antt =====
-- The theorems on internal/storage/accounts.go at a table with one account.
use mathlib.Core.Logic.{◌↔◌}
use carteiro.Common.{Bytes, In, [], codes, false, map, none, refl, str_eq, ◌∷◌, ◌≡◌, ◌≢◌, ◌⊎◌}
use carteiro.Text.{normalize}
use carteiro.Storage.Types.{Account, AccountSeed, Store, sqlite}
use carteiro.Storage.Db.{done}
use carteiro.Storage.Bcrypt.{toy_bcrypt}
use carteiro.Storage.Accounts.{
  normalize_allowed, upsert_one, empty_summary, note_created, note_unchanged,
}
use carteiro.Storage.Accounts.Table.{IsAccounts}
use carteiro.Storage.Accounts.Allowed.{IsDistinct, normalize_allowed_lem}
use carteiro.Storage.Accounts.Invariant.{upserts, call, call-IsAccounts}
use carteiro.Storage.Accounts.Stored.{Stored, upsert_one_twice}

abbrev bare : Store
bare = record {
  accounts = [];
  dkim_keys = [];
  queue = [];
  sends_log = [];
  counters = none;
  dialect = sqlite;
  instance_id = codes "w";
  dead_max = 0;
  notify = false;
  clock = 0;
  faults = [];
}

abbrev seed : AccountSeed
seed = record {
  email = codes " Ann@X.org";
  password = codes "pw";
  allowed_from = codes "Sales@x.org " ∷ codes "ann@x.org" ∷ [];
}

abbrev ann : Account
ann = record {
  email = codes "ann@x.org";
  password_hash = 7 ∷ codes "pw";
  allowed_from = codes "ann@x.org" ∷ codes "sales@x.org" ∷ [];
}

-- The store after the seed was stored.
abbrev seeded : Store
seeded = record bare { accounts = ann ∷ [] }

bare-IsAccounts : IsAccounts bare.accounts
bare-IsAccounts = record { unique = tt; each = tt }

normalize_allowed_lem_example :
    IsDistinct (normalize_allowed (codes "ann@x.org") (codes "Ann@x.org" ∷ codes "" ∷ []))
    × ((a : Bytes)
        → In a (normalize_allowed (codes "ann@x.org") (codes "Ann@x.org" ∷ codes "" ∷ [])) ↔ (
            (a ≡ codes "ann@x.org")
            ⊎ ((a ≢ []) × In a (map normalize (codes "Ann@x.org" ∷ codes "" ∷ [])))))
normalize_allowed_lem_example =
    normalize_allowed_lem (codes "ann@x.org") (codes "Ann@x.org" ∷ codes "" ∷ [])

call-IsAccounts_example :
    IsAccounts (call toy_bcrypt (upserts ((7, seed) ∷ (8, seed) ∷ [])) bare).accounts
call-IsAccounts_example =
    call-IsAccounts toy_bcrypt (upserts ((7, seed) ∷ (8, seed) ∷ [])) bare bare-IsAccounts

stores_seed :
    upsert_one toy_bcrypt 7 seed empty_summary bare
    ≡ done (note_created (codes "ann@x.org") empty_summary) seeded
unfolding upsert_one toy_bcrypt str_eq
stores_seed = refl

upsert_one_twice_example :
    Stored toy_bcrypt
      (normalize seed.email)
      seed.password
      (normalize_allowed (normalize seed.email) seed.allowed_from)
      seeded
    × (upsert_one toy_bcrypt 9 seed empty_summary seeded
        ≡ done
            (note_unchanged (normalize seed.email) empty_summary)
            (record seeded { faults = [] }))
upsert_one_twice_example =
    upsert_one_twice toy_bcrypt 7 9 seed empty_summary empty_summary
      (note_created (codes "ann@x.org") empty_summary) bare seeded stores_seed refl
