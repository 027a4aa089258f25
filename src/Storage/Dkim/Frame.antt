-- ===== src/Storage/Dkim/Frame.antt =====
-- The operations on DKIM keys leave the accounts and the queue alone.
use carteiro.Common.{List, Option, [], if_lem, none, refl, some, str_eq, ◌||◌, ◌∙◌, ◌∷◌, ◌≡◌}
use carteiro.Text.{normalize, trim_space}
use carteiro.Storage.Types.{Store, DkimKey, UpsertSummary}
use carteiro.Storage.Db.{M, Outcome, after, bind, done, failed, exec_}
use carteiro.Storage.Db.Rules.{query-cases, exec_-cases}
use carteiro.Storage.Dkim.{
  upsert_found, upsert_dkim, upsert_key, get_dkim, find_key, is_same_key, save_key,
}

abbrev SameRows {ℓ} : {A : Type ℓ} → Store → Outcome A → Type 0
SameRows s o = ((after o).accounts ≡ s.accounts) × ((after o).queue ≡ s.queue)

bind-SameRows :
    {A B : Type 0} (s : Store) (o : Outcome A) (f : A → M B)
    → SameRows s o
    → ((a : A) (t : Store) → SameRows t (f a t))
    → SameRows s (bind o f)
bind-SameRows s (done a t) f h k = ((k a t).0 ∙ h.0, (k a t).1 ∙ h.1)
bind-SameRows s (failed e t) f h k = h

save_key-SameRows : (k : DkimKey) (s : Store) → SameRows s (exec_ (save_key k) s)
save_key-SameRows k s = exec_-cases (SameRows s) s (save_key k) (refl, refl) (refl, refl)

upsert_found-SameRows :
    (k : DkimKey) (u : UpsertSummary) (found : Option DkimKey) (s : Store)
    → SameRows s (upsert_found k u found s)
unfolding upsert_found
upsert_found-SameRows k u none s =
    bind-SameRows s (exec_ (save_key k) s) _ (save_key-SameRows k s) (λ _ t. (refl, refl))
upsert_found-SameRows k u (some x) s =
    if_lem (λ (m : M UpsertSummary). SameRows s (m s)) (is_same_key k x) _ _ (λ _. (refl, refl))
      (λ _. bind-SameRows s (exec_ (save_key k) s) _ (save_key-SameRows k s) (λ _ t. (refl, refl)))

upsert_key-SameRows : (k : DkimKey) (u : UpsertSummary) (s : Store) → SameRows s (upsert_key k u s)
unfolding upsert_key get_dkim
upsert_key-SameRows k u s =
    let domain = normalize k.domain in
    if_lem (λ (m : M UpsertSummary). SameRows s (m s))
      (str_eq domain [] || str_eq k.selector [] || str_eq (trim_space k.key_data) []) _ _
      (λ _. (refl, refl))
      λ _.
        bind-SameRows s (get_dkim domain s) _
          (query-cases (SameRows s) s (λ t. find_key (normalize domain) t.dkim_keys) (refl, refl)
            (refl, refl))
          (λ found t. upsert_found-SameRows (record k { domain = domain }) u found t)

pub upsert_dkim-SameRows :
    (keys : List DkimKey) (u : UpsertSummary) (s : Store)
    → ((after (upsert_dkim keys u s)).accounts ≡ s.accounts)
      × ((after (upsert_dkim keys u s)).queue ≡ s.queue)
unfolding upsert_dkim
upsert_dkim-SameRows [] u s = (refl, refl)
upsert_dkim-SameRows (k ∷ keys) u s =
    bind-SameRows s (upsert_key k u s) _ (upsert_key-SameRows k u s)
      (λ v t. upsert_dkim-SameRows keys v t)
