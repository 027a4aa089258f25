-- ===== src/Relay/Backoff.antt =====
-- internal/relay/deliver.go: `backoff`, in 64-bit two's complement. Durations are nanoseconds and
-- not negative.
use native.Mathlib.Nat.{one-le-pow}
use carteiro.Common.{
  Bool, ap, arith, if◌then◌else◌, leb, ltb, suc, zero, ℕ, ◌%◌, ◌*◌, ◌<◌, ◌==◌, ◌^◌, ◌||◌, ◌∙◌, ◌≡◌,
  ◌≤◌,
}

-- `delay <= 0 || delay > max` for the bits of a `Duration`.
abbrev pub is_out_of_range : ℕ → ℕ → Bool
is_out_of_range delay max = delay == 0 || leb (2 ^ 63) delay || ltb max delay

abbrev pub in_range : ℕ → ℕ → ℕ
in_range delay max = if is_out_of_range delay max then max else delay

-- For `attempt` 0 the shift is by more than the width, which gives 0.
unfoldable pub backoff : ℕ → ℕ → ℕ → ℕ
backoff base max zero = max
backoff base max (suc n) =
    let delay = base * 2 ^ (if ltb 62 n then 62 else n) % 2 ^ 64 in in_range delay max

in_range-max : (delay max : ℕ) → in_range delay max ≤ max
in_range-max delay max = ground arith

-- The delay is never longer than the maximum.
pub backoff-max : (base max attempt : ℕ) → backoff base max attempt ≤ max
unfolding backoff
backoff-max base max zero = omega arith
backoff-max base max (suc n) = in_range-max (base * 2 ^ (if ltb 62 n then 62 else n) % 2 ^ 64) max

in_range-fits :
    (v max : ℕ) → 1 ≤ v → v < 2 ^ 63 → in_range (v % 2 ^ 64) max ≡ (if ltb max v then max else v)
in_range-fits v max positive fits = ground arith

shift_small : (n : ℕ) → n ≤ 62 → (if ltb 62 n then 62 else n) ≡ n
shift_small n h = ground arith

-- For a positive base and at most 62 doublings: as long as the doubled base fits 63 bits, the
-- delay is the base doubled with each attempt, up to the maximum.
pub backoff-doubles :
    (base max n : ℕ)
    → 1 ≤ base
    → n ≤ 62
    → base * 2 ^ n < 2 ^ 63
    → backoff base max (suc n) ≡ (if ltb max (base * 2 ^ n) then max else base * 2 ^ n)
unfolding backoff
backoff-doubles base max n positive shift fits =
    ap (λ k. in_range (base * 2 ^ k % 2 ^ 64) max) (shift_small n shift)
    ∙ in_range-fits (base * 2 ^ n) max (grind (arith, one-le-pow n 2 (omega arith))) fits
