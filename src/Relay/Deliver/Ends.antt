-- ===== src/Relay/Deliver/Ends.antt =====
-- internal/relay/deliver.go: the loop of `deliver` comes to an end, and how.
use mathlib.Core.List.{append-nil}
use carteiro.Common.{
  Bytes, In, In-All, List, [], ap, arith, inl, inr, length, length-append, refl, suc, zero, ℕ, ◌++◌,
  ◌<◌, ◌∙◌, ◌∷◌, ◌≡◌, ◌≢◌, ◌≤◌,
}
use carteiro.Storage.Types.{Message, Reasons}
use carteiro.Relay.Group.{Network, GroupResult, settled, retry, group_result}
use carteiro.Relay.Group.Decides.{group_result-Decides}
use carteiro.Relay.Deliver.{
  Progress, Run, finished, postponed, left_over, settle, run_groups, after_group, run_remaining,
  run_group, count_attempt,
}
use carteiro.Relay.Domains.{split_by_domain, domain_of, split_by_domain-Parts}
use carteiro.Relay.Group.Refusals.{Decides}

left_over-none :
    (group delivered : List Bytes) (perm : Reasons)
    → Decides group (settled delivered perm)
    → left_over group delivered perm ≡ []
unfolding left_over
left_over-none [] delivered perm h = refl
left_over-none (a ∷ group) delivered perm h =
    ground (arith, h.0, left_over-none group delivered perm h.1)

settle-remaining :
    (m : Message) (group keep delivered : List Bytes) (perm : Reasons) (p : Progress)
    → Decides group (settled delivered perm)
    → (settle m group keep delivered perm p).remaining ≡ keep
unfolding settle
settle-remaining m group keep delivered perm p h =
    ap (λ rest. keep ++ rest) (left_over-none group delivered perm h) ∙ append-nil keep

-- With no recipient left, or with one or more to try again.
abbrev pub Ends : Run → Type 0
Ends (finished p) = p.remaining ≡ []
Ends (postponed e p) = 1 ≤ length p.remaining

after_group-Ends :
    (next : Progress → Run) (m : Message) (group keep : List Bytes) (p : Progress) (r : GroupResult)
    → 1 ≤ length group
    → Decides group r
    → ((q : Progress) → q.remaining ≡ keep → Ends (next q))
    → Ends (after_group next m group keep p r)
unfolding after_group
after_group-Ends next m group keep p (settled delivered perm) some_one h ends =
    ends (settle m group keep delivered perm p) (settle-remaining m group keep delivered perm p h)
after_group-Ends next m group keep p (retry e) some_one h ends =
    omega (arith, some_one, length-append keep group)

In-length : (a : Bytes) (xs : List Bytes) → In a xs → 1 ≤ length xs
In-length a [] i = absurd i.1
In-length a (x ∷ xs) i = omega arith

-- The group of the first recipient's domain has it, and so the rest is shorter.
own_group :
    (a : Bytes) (addrs : List Bytes)
    → let p = split_by_domain (a ∷ addrs) (domain_of a) in
      (1 ≤ length p.0) × (length p.1 ≤ length addrs)
own_group a addrs =
    let (len, inside, outside, found) = split_by_domain-Parts (a ∷ addrs) (domain_of a) in
    let p = split_by_domain (a ∷ addrs) (domain_of a) in
    elim (found a (inl refl)) [
      | inl i ↦ (In-length a p.0 i, omega (arith, len, In-length a p.0 i))
      | inr i ↦ absurd (In-All (λ b. domain_of b ≢ domain_of a) a p.1 outside i refl)
    ]

run_remaining-Ends :
    (next : Progress → Run) (net : Network) (m : Message) (p : Progress) (remaining : List Bytes)
    → p.remaining ≡ remaining
    → ((q : Progress) → length q.remaining < length remaining → Ends (next q))
    → Ends (run_remaining next net m p remaining)
unfolding run_remaining run_group count_attempt
run_remaining-Ends next net m p [] e ends = e
run_remaining-Ends next net m p (a ∷ addrs) e ends =
    let (group, keep) = split_by_domain (a ∷ addrs) (domain_of a) in
    let (some_one, shorter) = own_group a addrs in
    after_group-Ends next m group keep (count_attempt p) (group_result net (domain_of a) group)
      some_one (group_result-Decides net (domain_of a) group)
      (λ q left. ends q (omega (arith, shorter, ap (length {A = Bytes}) left)))

-- Whatever the servers answer, with one more round than there are recipients the loop of `deliver`
-- either comes to a group that asks for a retry, and then some recipient remains, or goes on until no
-- recipient remains.
pub run_groups-Ends :
    (fuel : ℕ) (net : Network) (m : Message) (p : Progress)
    → length p.remaining < fuel
    → Ends (run_groups fuel net m p)
unfolding run_groups
run_groups-Ends zero net m p short = absurd (omega (arith, short))
run_groups-Ends (suc fuel) net m p short =
    run_remaining-Ends (run_groups fuel net m) net m p p.remaining refl
      (λ q less. run_groups-Ends fuel net m q (omega (arith, short, less)))
