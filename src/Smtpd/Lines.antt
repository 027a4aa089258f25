-- ===== src/Smtpd/Lines.antt =====
-- internal/smtpd/session.go: `readRaw`, `readLine`, `readDataLine` and `readData`, on what the
-- connection's `bufio.Reader` gives.
pub mod Limits
pub mod Data
pub mod Stuffing
use carteiro.Common.{
  Bool, Bytes, List, [], codes, drop, false, if◌then◌else◌, leb, length, ltb, map, refl, str_eq,
  suc, true, zero, ℕ, ◌++◌, ◌+◌, ◌-◌, ◌==◌, ◌||◌, ◌∷◌, ◌≡◌,
}
use carteiro.Text.{trim_right, has_prefix}

pub data ReadError : Type 0 where
  eof timed_out broken : ReadError

-- What arrives: a byte, or an error at that place. Beyond the list stands the end of the stream.
pub data Event : Type 0 where
  octet : ℕ → Event
  failure : ReadError → Event

-- The result of one `ReadSlice('\n')`: a text up to and with the newline, the whole buffer with no
-- newline in it (`ErrBufferFull`), or what stands before an error.
pub data Slice : Type 0 where
  found full : Bytes → Slice
  cut_off : Bytes → ReadError → Slice

-- The size of a buffer that `bufio.NewReader` makes.
abbrev pub buffer_size : ℕ
buffer_size = 4096

-- The results of the calls to come. `space` is the room left in the buffer, less one, and `frag`
-- what the current call has seen.
slices_from : ℕ → Bytes → List Event → List Slice
slices_from space frag [] = cut_off frag eof ∷ []
slices_from space frag (failure e ∷ events) =
    cut_off frag e ∷ slices_from (buffer_size - 1) [] events
slices_from space frag (octet c ∷ events) =
    let frag' = frag ++ c ∷ [] in
    let ended = found frag' ∷ slices_from (buffer_size - 1) [] events in
    let chunk = full frag' ∷ slices_from (buffer_size - 1) [] events in
    let more = slices_from (space - 1) frag' events in
    if c == b'\n' then ended else if space == 0 then chunk else more

unfoldable pub slices : List Event → List Slice
unfolding slices_from
slices = slices_from (buffer_size - 1) []

-- The parameter of `readRaw`: negative, zero, or a limit.
pub data ReadMode : Type 0 where
  accumulate discard : ReadMode
  limited : ℕ → ReadMode

pub data Read : Type 0 where
  line : Bytes → Read
  stopped : Bytes → ReadError → Read
  line_too_long : Read

-- `mode < 0 || (mode > 0 && len(buf)+len(frag) <= mode)`.
abbrev pub takes : ReadMode → Bytes → Bytes → Bool
takes accumulate buf frag = true
takes discard buf frag = false
takes (limited n) buf frag = leb (length buf + length frag) n

abbrev pub append_frag : ReadMode → Bytes → Bytes → Bytes
append_frag mode buf frag = if takes mode buf frag then buf ++ frag else buf

-- `mode > 0 && len(buf) > mode`.
abbrev pub is_too_long : ReadMode → Bytes → Bool
is_too_long accumulate buf = false
is_too_long discard buf = false
is_too_long (limited n) buf = ltb n (length buf)

abbrev pub end_line : ReadMode → Bytes → Read
end_line mode buf = if is_too_long mode buf then line_too_long else line buf

-- The loop of `readRaw` with its buffer, and the slices that are left.
unfoldable pub read_raw : ReadMode → Bytes → List Slice → Read × List Slice
read_raw mode buf [] = (stopped buf eof, [])
read_raw mode buf (found frag ∷ rest) = (end_line mode (append_frag mode buf frag), rest)
read_raw mode buf (full frag ∷ rest) = read_raw mode (append_frag mode buf frag) rest
read_raw mode buf (cut_off frag e ∷ rest) = (stopped (append_frag mode buf frag) e, rest)

abbrev pub is_line_end : ℕ → Bool
is_line_end c = c == b'\r' || c == b'\n'

unfoldable pub trim_line : Bytes → Bytes
unfolding trim_right
trim_line = trim_right is_line_end

pub data LineError : Type 0 where
  too_long : LineError
  no_line : ReadError → LineError

pub data LineRead : Type 0 where
  got : Bytes → List Slice → LineRead
  bad : LineError → List Slice → LineRead

abbrev pub as_line : Read × List Slice → LineRead
as_line (line buf, rest) = got (trim_line buf) rest
as_line (line_too_long, rest) = bad too_long rest
as_line (stopped buf e, rest) = bad (no_line e) rest

-- `maxCommandLine`.
abbrev pub max_command_line : ℕ
max_command_line = 8192

unfoldable pub read_line : List Slice → LineRead
unfolding read_raw
read_line input = as_line (read_raw (limited max_command_line) [] input)

abbrev pub data_mode : Bool → ReadMode
data_mode over = if over then discard else accumulate

unfoldable pub read_data_line : Bool → List Slice → LineRead
unfolding read_raw
read_data_line over input = as_line (read_raw (data_mode over) [] input)

pub data DataRead : Type 0 where
  -- The message, and whether the limit was passed.
  message : Bytes → Bool → List Slice → DataRead
  data_error : LineError → List Slice → DataRead

-- Dot-unstuffing of a line.
unfoldable pub unstuff : Bytes → Bytes
unfolding has_prefix
unstuff text = if has_prefix text (codes ".") then drop 1 text else text

-- One round of the loop of `readData`, with the call of the next rounds as a function.
unfoldable pub data_round :
    (ℕ → Bool → Bytes → List Slice → DataRead) → ℕ → ℕ → Bool → Bytes → LineRead → DataRead
unfolding str_eq unstuff
data_round again limit n over out (bad e rest) = data_error e rest
data_round again limit n over out (got text rest) =
    let n' = n + length text + 1 in
    let over' = if ltb limit n' then true else over in
    let skip = again n' over' out rest in
    let keep = again n' over' (out ++ unstuff text ++ b'\n' ∷ []) rest in
    if str_eq text (codes ".") then message out over' rest else if over' then skip else keep

-- On fuel, with the answer that stands for fuel that has run out. `n` counts bytes, `out` is the
-- buffer.
unfoldable pub read_data_on :
    (List Slice → DataRead) → ℕ → ℕ → ℕ → Bool → Bytes → List Slice → DataRead
unfolding data_round read_data_line
read_data_on spent zero limit n over out input = spent input
read_data_on spent (suc fuel) limit n over out input =
    data_round (read_data_on spent fuel limit) limit n over out (read_data_line over input)

-- Each round reads a slice or stops, so a round more than there are slices is enough.
unfoldable pub read_data_from : ℕ → ℕ → Bool → Bytes → List Slice → DataRead
unfolding read_data_on
read_data_from limit n over out input =
    read_data_on (data_error (no_line eof)) (suc (length input)) limit n over out input

unfoldable pub read_data : ℕ → List Slice → DataRead
unfolding read_data_from
read_data limit input = read_data_from limit 0 false [] input

abbrev pub octets : Bytes → List Event
octets = map octet

read_data_runs :
    (read_data 100 (slices (octets (codes "Hi\r\n..x\r\n.\r\nQUIT\r\n")))
      ≡ message (codes "Hi\n.x\n") false (slices (octets (codes "QUIT\r\n"))))
    × (read_line (slices (octets (codes "NOOP\r\n"))) ≡ got (codes "NOOP") (slices []))
unfolding read_data read_line slices trim_line
read_data_runs = (refl, refl)
