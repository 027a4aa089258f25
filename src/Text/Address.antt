-- ===== src/Text/Address.antt =====
-- `net.SplitHostPort` and `net.JoinHostPort`.
use carteiro.Common.{
  Bool, Bytes, Option, [], codes, drop, if◌then◌else◌, none, not, refl, some, take, ℕ, ◌++◌, ◌+◌,
  ◌==◌, ◌||◌, ◌∷◌, ◌≡◌,
}
use carteiro.Text.Search.{contains_byte, index_byte, last_index_byte}

-- Brackets that stand where none may: `[` from `j` on, or `]` from `k` on.
abbrev stray : Bytes → ℕ → ℕ → Bool
stray s j k = contains_byte (drop j s) b'[' || contains_byte (drop k s) b']'

-- The last colon stands at `i`.
bracketed : Bytes → ℕ → Option (Bytes × Bytes)
unfolding index_byte contains_byte
bracketed s i = elim (index_byte s b']') [
  | none ↦ none
  | some end ↦
      if not (end + 1 == i) || stray s 1 (end + 1)
      then none
      else some (drop 1 (take end s), drop (i + 1) s)
]

plain : Bytes → ℕ → Option (Bytes × Bytes)
unfolding contains_byte
plain s i =
    if contains_byte (take i s) b':' || stray s 0 0 then none else some (take i s, drop (i + 1) s)

-- `none` where `SplitHostPort` fails.
unfoldable pub split_host_port : Bytes → Option (Bytes × Bytes)
unfolding last_index_byte bracketed plain
split_host_port [] = none
split_host_port (c ∷ s) = elim (last_index_byte (c ∷ s) b':') [
  | none ↦ none
  | some i ↦ if c == b'[' then bracketed (c ∷ s) i else plain (c ∷ s) i
]

unfoldable pub join_host_port : Bytes → Bytes → Bytes
unfolding contains_byte
join_host_port host port =
    if contains_byte host b':' || contains_byte host b'%'
    then codes "[" ++ (host ++ (codes "]:" ++ port))
    else host ++ (codes ":" ++ port)

split_host_port_runs :
    (split_host_port (codes ":587") ≡ some ([], codes "587"))
    × (split_host_port (codes "[::1]:25") ≡ some (codes "::1", codes "25"))
    × (split_host_port (codes "::1:25") ≡ none)
unfolding split_host_port
split_host_port_runs = (refl, refl, refl)
