-- ===== src/Smtpd/Lines/Data.antt =====
-- internal/smtpd/session.go: what `readData` gives back.
use carteiro.Common.{
  Bool, Bytes, List, [], ap, arith, codes, false, if_lem, if◌then◌else◌, inl, inr, length,
  length-append, ltb, refl, str_eq, suc, true, zero, ℕ, ◌++◌, ◌+◌, ◌<◌, ◌∷◌, ◌≡◌, ◌≤◌,
}
use carteiro.Smtpd.Lines.{
  Slice, LineRead, got, bad, data_round, read_data_on, read_data_from, DataRead, unstuff, read_data,
  read_data_line, message, data_error, no_line, eof,
}
use carteiro.Smtpd.Lines.Limits.{Shrinks, read_data_line-Shrinks}

-- Two calls of the next rounds that agree on shorter inputs.
round_congr :
    (f g : ℕ → Bool → Bytes → List Slice → DataRead) (limit n : ℕ) (over : Bool) (out : Bytes)
    (size : ℕ) (r : LineRead)
    → ((m : ℕ) (b : Bool) (o : Bytes) (rest : List Slice)
        → length rest < size
        → f m b o rest ≡ g m b o rest)
    → Shrinks size r
    → data_round f limit n over out r ≡ data_round g limit n over out r
unfolding data_round
round_congr f g limit n over out size (bad e rest) same h = refl
round_congr f g limit n over out size (got text rest) same h =
    let n' = n + length text + 1 in
    let over' = if ltb limit n' then true else over in
    let skip = same n' over' out rest h in
    let keep = same n' over' (out ++ unstuff text ++ b'\n' ∷ []) rest h in cc

-- The loop of `readData` ends: with more fuel than there are slices left it gives the same message or
-- error, whatever answer stands for fuel that has run out, and with any other such fuel.
pub read_data_on-fuel :
    (spent other : List Slice → DataRead) (fuel more limit n : ℕ) (over : Bool) (out : Bytes)
    (input : List Slice)
    → length input < fuel
    → length input < more
    → read_data_on spent fuel limit n over out input
      ≡ read_data_on other more limit n over out input
unfolding read_data_on
read_data_on-fuel spent other zero more limit n over out input h k = absurd (omega arith)
read_data_on-fuel spent other (suc fuel) zero limit n over out input h k = absurd (omega arith)
read_data_on-fuel spent other (suc fuel) (suc more) limit n over out input h k =
    round_congr (read_data_on spent fuel limit) (read_data_on other more limit) limit n over out
      (length input) (read_data_line over input)
      (λ m b o rest short.
        read_data_on-fuel spent other fuel more limit m b o rest (omega arith) (omega arith))
      (read_data_line-Shrinks over input)

-- With its fuel `read_data_from` equals one round of itself, whatever was read before.
pub read_data_from_loop :
    (limit n : ℕ) (over : Bool) (out : Bytes) (input : List Slice)
    → read_data_from limit n over out input
      ≡ data_round (read_data_from limit) limit n over out (read_data_line over input)
unfolding read_data_from read_data_on
read_data_from_loop limit n over out input =
    round_congr (read_data_on (data_error (no_line eof)) (length input) limit)
      (read_data_from limit) limit n over out (length input) (read_data_line over input)
      (λ m b o rest short.
        read_data_on-fuel (data_error (no_line eof)) (data_error (no_line eof)) (length input)
          (suc (length rest)) limit m b o rest short (omega arith))
      (read_data_line-Shrinks over input)

-- The bytes that a message keeps fit the limit.
abbrev pub Fits : ℕ → DataRead → Type 0
Fits limit (message text true rest) = Unit
Fits limit (message text false rest) = length text ≤ limit
Fits limit (data_error e rest) = Unit

-- While the limit is not passed, the buffer holds at most the bytes counted, and these fit.
abbrev Counted : ℕ → ℕ → Bool → Bytes → Type 0
Counted limit n true out = Unit
Counted limit n false out = (length out ≤ n) × (n ≤ limit)

unstuff-length : (text : Bytes) → length (unstuff text) ≤ length text
unfolding unstuff
unstuff-length [] = ground arith
unstuff-length (c ∷ text) = ground arith

line_added :
    (out text : Bytes) → length (out ++ unstuff text ++ b'\n' ∷ []) ≤ length out + length text + 1
line_added out text = omega (
  arith,
  length-append (out ++ unstuff text) (b'\n' ∷ []),
  length-append out (unstuff text),
  unstuff-length text,
)

Counted-more :
    (limit n k : ℕ) (over : Bool) (out more : Bytes)
    → length more ≤ length out + k + 1
    → Counted limit n over out
    → Counted limit (n + k + 1) (if ltb limit (n + k + 1) then true else over) more
Counted-more limit n k true out more short h = ground arith
Counted-more limit n k false out more short h = ground arith

Fits-over :
    (limit n : ℕ) (over : Bool) (out : Bytes) (rest : List Slice)
    → Counted limit n over out
    → Fits limit (message out over rest)
Fits-over limit n true out rest h = tt
Fits-over limit n false out rest h = omega (arith, h.0, h.1)

round-Fits :
    (again : ℕ → Bool → Bytes → List Slice → DataRead) (limit n : ℕ) (over : Bool) (out : Bytes)
    (r : LineRead)
    → ((m : ℕ) (b : Bool) (o : Bytes) (rest : List Slice)
        → Counted limit m b o
        → Fits limit (again m b o rest))
    → Counted limit n over out
    → Fits limit (data_round again limit n over out r)
unfolding data_round
round-Fits again limit n over out (bad e rest) fits h = tt
round-Fits again limit n over out (got text rest) fits h =
    let n' = n + length text + 1 in
    let over' = if ltb limit n' then true else over in
    let skipped : Counted limit n' over' out =
      Counted-more limit n (length text) over out out (omega arith) h in
    let kept : Counted limit n' over' (out ++ unstuff text ++ b'\n' ∷ []) =
      Counted-more limit n (length text) over out (out ++ unstuff text ++ b'\n' ∷ [])
        (line_added out text) h in
    if_lem (Fits limit) (str_eq text (codes ".")) (message out over' rest)
      (if over'
        then again n' over' out rest
        else again n' over' (out ++ unstuff text ++ b'\n' ∷ []) rest)
      (λ _. Fits-over limit n' over' out rest skipped)
      (λ _.
        if_lem (Fits limit) over' (again n' over' out rest)
          (again n' over' (out ++ unstuff text ++ b'\n' ∷ []) rest)
          (λ _. fits n' over' out rest skipped)
          (λ _. fits n' over' (out ++ unstuff text ++ b'\n' ∷ []) rest kept))

on-Fits :
    (fuel limit n : ℕ) (over : Bool) (out : Bytes) (input : List Slice)
    → Counted limit n over out
    → Fits limit (read_data_on (data_error (no_line eof)) fuel limit n over out input)
unfolding read_data_on
on-Fits zero limit n over out input h = tt
on-Fits (suc fuel) limit n over out input h =
    round-Fits (read_data_on (data_error (no_line eof)) fuel limit) limit n over out
      (read_data_line over input) (on-Fits fuel limit) h

-- A message that is not reported as over the limit has at most `limit` bytes.
pub read_data-Fits : (limit : ℕ) (input : List Slice) → Fits limit (read_data limit input)
unfolding read_data read_data_from
read_data-Fits limit input =
    on-Fits (suc (length input)) limit 0 false [] input (omega arith, omega arith)

-- What `readData` leaves of the input is no longer than the input.
abbrev pub Leaves : ℕ → DataRead → Type 0
Leaves n (message text over rest) = length rest ≤ n
Leaves n (data_error e rest) = length rest ≤ n

round-Leaves :
    (again : ℕ → Bool → Bytes → List Slice → DataRead) (limit n : ℕ) (over : Bool) (out : Bytes)
    (size : ℕ) (r : LineRead)
    → ((m : ℕ) (b : Bool) (o : Bytes) (rest : List Slice)
        → length rest < size
        → Leaves size (again m b o rest))
    → Shrinks size r
    → Leaves size (data_round again limit n over out r)
unfolding data_round
round-Leaves again limit n over out size (bad e rest) leaves (inl h) = omega (arith, h)
round-Leaves again limit n over out size (bad e rest) leaves (inr (ended, none_left)) =
    omega (arith, ap (length {A = Slice}) none_left)
round-Leaves again limit n over out size (got text rest) leaves h =
    let n' = n + length text + 1 in
    let over' = if ltb limit n' then true else over in
    let keep = again n' over' (out ++ unstuff text ++ b'\n' ∷ []) rest in
    if_lem (Leaves size) (str_eq text (codes ".")) (message out over' rest)
      (if over' then again n' over' out rest else keep) (λ _. omega (arith, h))
      (λ _.
        if_lem (Leaves size) over' (again n' over' out rest) keep (λ _. leaves n' over' out rest h)
          (λ _. leaves n' over' (out ++ unstuff text ++ b'\n' ∷ []) rest h))

Leaves-more : (n m : ℕ) (r : DataRead) → n ≤ m → Leaves n r → Leaves m r
Leaves-more n m (message text over rest) h l = omega (arith, h, l)
Leaves-more n m (data_error e rest) h l = omega (arith, h, l)

on-Leaves :
    (fuel limit n : ℕ) (over : Bool) (out : Bytes) (input : List Slice)
    → Leaves (length input) (read_data_on (data_error (no_line eof)) fuel limit n over out input)
unfolding read_data_on
on-Leaves zero limit n over out input = omega arith
on-Leaves (suc fuel) limit n over out input =
    round-Leaves (read_data_on (data_error (no_line eof)) fuel limit) limit n over out
      (length input) (read_data_line over input)
      (λ m b o rest short.
        Leaves-more (length rest) (length input)
          (read_data_on (data_error (no_line eof)) fuel limit m b o rest) (omega (arith, short))
          (on-Leaves fuel limit m b o rest))
      (read_data_line-Shrinks over input)

pub read_data-Leaves :
    (limit : ℕ) (input : List Slice) → Leaves (length input) (read_data limit input)
unfolding read_data read_data_from
read_data-Leaves limit input = on-Leaves (suc (length input)) limit 0 false [] input
