-- ===== src/Text/Fields.antt =====
-- `strings.Fields`: the runs of bytes between white space.
use carteiro.Common.{Bytes, List, [], if◌then◌else◌, ◌++◌, ◌∷◌}
use carteiro.Text.Ascii.{is_space}

flush : Bytes → List Bytes → List Bytes
flush [] rest = rest
flush (c ∷ cur) rest = (c ∷ cur) ∷ rest

-- `cur` is the field that is being read.
scan : Bytes → Bytes → List Bytes
unfolding flush
scan [] cur = flush cur []
scan (c ∷ s) cur =
    let stop = flush cur (scan s []) in
    let go = scan s (cur ++ c ∷ []) in if is_space c then stop else go

unfoldable pub fields : Bytes → List Bytes
unfolding scan is_space
fields s = scan s []
