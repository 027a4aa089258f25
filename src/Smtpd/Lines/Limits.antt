-- ===== src/Smtpd/Lines/Limits.antt =====
-- internal/smtpd/session.go: how much of a line `readRaw` keeps, and how much of the input it uses.
use carteiro.Common.{
  Bool, Bool-cases, Bytes, List, [], arith, inl, inr, length, length-append, refl, suc, ℕ, ◌<◌, ◌∷◌,
  ◌≡◌, ◌≤◌, ◌⊎◌,
}
use carteiro.Smtpd.Lines.{
  Slice, found, full, cut_off, Read, line, stopped, line_too_long, ReadMode, limited, read_raw,
  LineRead, got, bad, append_frag, end_line, is_too_long, as_line, too_long, no_line,
  read_data_line, read_line, max_command_line, eof, data_mode,
}

-- A result with at most `n` bytes of text, which is not `line_too_long`.
abbrev Within : ℕ → Read → Type 0
Within n (line buf) = length buf ≤ n
Within n (stopped buf e) = length buf ≤ n
Within n line_too_long = ⊥

append_frag-limit :
    (n : ℕ) (buf frag : Bytes) → length buf ≤ n → length (append_frag (limited n) buf frag) ≤ n
append_frag-limit n buf frag h = ground (arith, length-append buf frag)

end_line-Within : (n : ℕ) (buf : Bytes) → length buf ≤ n → Within n (end_line (limited n) buf)
end_line-Within n buf h = ground arith

-- With a limit, and from a buffer within it, `read_raw` holds at most that many bytes at the end
-- of a line or of the input, and it never reports that a line is too long.
read_raw-Within :
    (n : ℕ) (buf : Bytes) (input : List Slice)
    → length buf ≤ n
    → Within n (read_raw (limited n) buf input).0
unfolding read_raw
read_raw-Within n buf [] h = h
read_raw-Within n buf (found frag ∷ rest) h =
    end_line-Within n (append_frag (limited n) buf frag) (append_frag-limit n buf frag h)
read_raw-Within n buf (full frag ∷ rest) h =
    read_raw-Within n (append_frag (limited n) buf frag) rest (append_frag-limit n buf frag h)
read_raw-Within n buf (cut_off frag e ∷ rest) h = append_frag-limit n buf frag h

-- What a read that gives a line leaves of the input is shorter, and nothing but the end of
-- the input leaves as much.
abbrev pub Shrinks : ℕ → LineRead → Type 0
Shrinks n (got text rest) = length rest < n
Shrinks n (bad e rest) = (length rest < n) ⊎ ((e ≡ no_line eof) × (rest ≡ []))

end_line-Shrinks :
    (mode : ReadMode) (buf : Bytes) (rest : List Slice)
    → Shrinks (suc (length rest)) (as_line (end_line mode buf, rest))
end_line-Shrinks mode buf rest = elim (Bool-cases (is_too_long mode buf)) [
  | inl h ↦ ground arith
  | inr h ↦ ground arith
]

Shrinks-later : (n : ℕ) (r : LineRead) → Shrinks n r → Shrinks (suc n) r
Shrinks-later n (got text rest) h = ground arith
Shrinks-later n (bad e rest) h = ground arith

pub read_raw-Shrinks :
    (mode : ReadMode) (buf : Bytes) (input : List Slice)
    → Shrinks (length input) (as_line (read_raw mode buf input))
unfolding read_raw
read_raw-Shrinks mode buf [] = inr (refl, refl)
read_raw-Shrinks mode buf (found frag ∷ rest) =
    end_line-Shrinks mode (append_frag mode buf frag) rest
read_raw-Shrinks mode buf (full frag ∷ rest) =
    Shrinks-later (length rest) (as_line (read_raw mode (append_frag mode buf frag) rest))
      (read_raw-Shrinks mode (append_frag mode buf frag) rest)
read_raw-Shrinks mode buf (cut_off frag e ∷ rest) = ground arith

pub read_line-Shrinks : (input : List Slice) → Shrinks (length input) (read_line input)
unfolding read_line
read_line-Shrinks input = read_raw-Shrinks (limited max_command_line) [] input

pub read_data_line-Shrinks :
    (over : Bool) (input : List Slice) → Shrinks (length input) (read_data_line over input)
unfolding read_data_line
read_data_line-Shrinks over input = read_raw-Shrinks (data_mode over) [] input

as_line_short :
    (n : ℕ) (r : Read × List Slice)
    → Within n r.0
    → (rest : List Slice) → ¬ (as_line r ≡ bad too_long rest)
as_line_short n (line buf, rest') h rest e = cc
as_line_short n (stopped buf x, rest') h rest e = cc
as_line_short n (line_too_long, rest') h rest e = absurd h

-- `read_line` never fails with `too_long`, however long the line is.
pub read_line-never_long : (input rest : List Slice) → ¬ (read_line input ≡ bad too_long rest)
unfolding read_line
read_line-never_long input rest =
    as_line_short max_command_line (read_raw (limited max_command_line) [] input)
      (read_raw-Within max_command_line [] input (omega arith)) rest
