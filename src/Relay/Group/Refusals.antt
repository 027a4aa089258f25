-- ===== src/Relay/Group/Refusals.antt =====
-- internal/relay/deliver.go: the reasons that a group collects.
use carteiro.Common.{
  All, Bool, Bool-cases, Bytes, List, [], arith, inl, inr, str_eq, str_eq_self, str_eq_sound, subst,
  sym, true, ◌||◌, ◌∷◌, ◌≡◌,
}
use carteiro.Storage.Types.{Reasons}
use carteiro.Relay.Group.{elem, has_reason, GroupResult, settled, retry, set_reason, refuse_all}

-- The recipient was delivered to, or it has a reason.
abbrev pub decided : List Bytes → Reasons → Bytes → Bool
decided delivered perm a = elem a delivered || has_reason a perm

abbrev pub Decides : List Bytes → GroupResult → Type 0
Decides rcpts (retry e) = Unit
Decides rcpts (settled delivered perm) = All (λ a. decided delivered perm a ≡ true) rcpts

pub All-elem :
    {P : Bytes → Type 0} (rcpts : List Bytes)
    → ((a : Bytes) → elem a rcpts ≡ true → P a)
    → All P rcpts
All-elem [] h = tt
All-elem {P = P} (x ∷ rcpts) h =
    (h x (ground (arith, str_eq_self x)), All-elem {P = P} rcpts (λ a e. h a (ground (arith, e))))

pub has_reason-set :
    (a reason : Bytes) (perm : Reasons) → has_reason a (set_reason a reason perm) ≡ true
unfolding set_reason
has_reason-set a reason [] = ground (arith, str_eq_self a)
has_reason-set a reason ((b, r) ∷ perm) =
    ground (arith, str_eq_self a, has_reason-set a reason perm)

pub has_reason-set_kept :
    (a b reason : Bytes) (perm : Reasons)
    → has_reason a perm ≡ true
    → has_reason a (set_reason b reason perm) ≡ true
unfolding set_reason
has_reason-set_kept a b reason [] h = cc
has_reason-set_kept a b reason ((c, r) ∷ perm) h =
    ground (arith, has_reason-set_kept a b reason perm, str_eq_sound c b)

pub has_reason-refuse_kept :
    (a reason : Bytes) (rcpts : List Bytes) (perm : Reasons)
    → has_reason a perm ≡ true
    → has_reason a (refuse_all reason rcpts perm) ≡ true
unfolding refuse_all
has_reason-refuse_kept a reason [] perm h = h
has_reason-refuse_kept a reason (b ∷ rcpts) perm h =
    has_reason-refuse_kept a reason rcpts (set_reason b reason perm)
      (has_reason-set_kept a b reason perm h)

pub has_reason-refuse :
    (a reason : Bytes) (rcpts : List Bytes) (perm : Reasons)
    → elem a rcpts ≡ true
    → has_reason a (refuse_all reason rcpts perm) ≡ true
unfolding refuse_all
has_reason-refuse a reason [] perm h = cc
has_reason-refuse a reason (b ∷ rcpts) perm h = elim (Bool-cases (str_eq a b)) [
  | inl e ↦ has_reason-refuse_kept a reason rcpts (set_reason b reason perm) (
      subst (λ x. has_reason x (set_reason b reason perm) ≡ true) (sym (str_eq_sound a b e))
        (has_reason-set b reason perm))
  | inr e ↦ has_reason-refuse a reason rcpts (set_reason b reason perm) (ground arith)
]
