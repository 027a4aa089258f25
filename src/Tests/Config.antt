-- ===== src/Tests/Config.antt =====
-- The theorems on internal/config for a small configuration.
use carteiro.Common.{All, List, [], codes, none, refl, some, true, ◌∷◌, ◌≡◌, ◌≢◌}
use carteiro.Config.Types.{Config, DkimKey, Outside, Result, ok, err, panics}
use carteiro.Config.Seeds.{dedupe_dkim, domain_of}
use carteiro.Config.Seeds.Last.{find_seed, or_else}
use carteiro.Config.Load.{defaults, merge_dkim}
use carteiro.Config.Load.Override.{last_key, dedupe_dkim-Overrides}
use carteiro.Config.Env.{apply_env}
use carteiro.Config.Normal.{normalize_and_validate}
use carteiro.Config.Normal.Valid.{normalize_and_validate-IsNormal}
use carteiro.Config.Normal.Fixed.{normalize_and_validate_idem}
use Prim.Native.String.{String}
use carteiro.Config.Normal.Shape.{IsNormal}

abbrev outside : Outside
outside = record {
  lookup_env = λ k. none;
  parse_duration = λ v. none;
  is_key_pair = λ c k. true;
  is_signer = λ k. true;
  hostname = codes "mx";
}

abbrev key : String → String → DkimKey
key domain text = record { domain = codes domain; selector = codes "mail"; key_data = codes text }

abbrev given : Config
given = record (defaults (codes "mx")) {
  listen = codes "2525 ";
  api = some (record { listen = []; token = codes " t " });
  accounts =
      record { email = codes "Ann@x"; password = codes "old"; allowed_from = [] }
      ∷ record { email = codes "ann@x"; password = codes "new"; allowed_from = codes "B@y" ∷ [] }
      ∷ [];
  dkim = key "X" "1" ∷ [];
}

abbrev normal : Config
normal = elim (normalize_and_validate outside given) [ ok c ↦ c | err e ↦ given | panics ↦ given ]

accepted : normalize_and_validate outside given ≡ ok normal
unfolding normalize_and_validate defaults
accepted = refl

normalize_and_validate-IsNormal_example : IsNormal outside normal
normalize_and_validate-IsNormal_example =
    normalize_and_validate-IsNormal outside given normal accepted

selectors_given : All (λ k. k.selector ≢ []) normal.dkim
unfolding normalize_and_validate defaults
selectors_given = ((λ e. cc e), tt)

normalize_and_validate_idem_example : normalize_and_validate outside normal ≡ ok normal
normalize_and_validate_idem_example =
    normalize_and_validate_idem outside given normal accepted selectors_given

-- A selector of blanks is accepted, and becomes empty.
abbrev blank_selector : Config
blank_selector = record given {
  dkim = record { domain = codes "x"; selector = codes " "; key_data = codes "1" } ∷ [];
}

abbrev keys_of : Result Config → List DkimKey
keys_of (ok c) = c.dkim
keys_of (err e) = []
keys_of panics = []

selector_lost :
    keys_of (normalize_and_validate outside blank_selector)
    ≡ record { domain = codes "x"; selector = []; key_data = codes "1" } ∷ []
unfolding normalize_and_validate defaults
selector_lost = refl

-- A file that sets `storage` to null makes Load panic.
null_storage : apply_env outside (record given { storage = none }) ≡ panics
unfolding apply_env
null_storage = refl

dedupe_dkim-Overrides_example :
    find_seed domain_of
      (codes "x")
      (dedupe_dkim (merge_dkim (key "x" "file" ∷ key "y" "file" ∷ []) (key "X" "env" ∷ [])))
    ≡ or_else
        (last_key (codes "x") (key "X" "env" ∷ []))
        (last_key (codes "x") (key "x" "file" ∷ key "y" "file" ∷ []))
dedupe_dkim-Overrides_example =
    dedupe_dkim-Overrides (key "x" "file" ∷ key "y" "file" ∷ []) (key "X" "env" ∷ []) (codes "x")
