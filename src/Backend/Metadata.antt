-- ===== src/Backend/Metadata.antt =====
-- cmd/server/main.go: `parseMetadata` and its helpers. The data is a list of bytes.
use synurang.Common.{
  ℕ, zero, suc, Bytes, Map, List, [], ◌∷◌, ◌++◌, Option, none, some, insert, bytes_eq, str, nat_beq,
  bytes_beq, if◌then◌else◌, take, drop,
}

-- `data[start:i]` is `line`; the bytes after it are still to be read.
unfoldable pub split_from : Bytes → Bytes → List Bytes
split_from [] [] = []
split_from (c ∷ line) [] = (c ∷ line) ∷ []
split_from line (b ∷ rest) =
    let here = line ∷ split_from [] rest in
    let on = split_from (line ++ b ∷ []) rest in if nat_beq b 10 then here else on

unfoldable pub split_lines : Bytes → List Bytes
unfolding split_from
split_lines = split_from []

-- `indexOf`, with `none` for -1.
unfoldable pub index_from : ℕ → Bytes → ℕ → Option ℕ
index_from i [] ch = none
index_from i (b ∷ bs) ch = let on = index_from (suc i) bs ch in if nat_beq b ch then some i else on

unfoldable pub index_of : Bytes → ℕ → Option ℕ
unfolding index_from
index_of = index_from 0

abbrev pub timeout_key : Bytes
timeout_key = str "__timeout_ms"

-- The timeout is read by the standard library's `Sscanf` with "%d": `scan` gives the number, or
-- nothing where the value does not begin with one, and the timeout keeps its value.
module _ {ℓ} {T : Type ℓ} (scan : Bytes → Option T) where
  unfoldable pub set_entry : Bytes → Bytes → Map Bytes Bytes × T → Map Bytes Bytes × T
  set_entry key value (meta, timeout) =
      if bytes_beq key timeout_key
      then (elim (scan value) [ none ↦ (meta, timeout) | some n ↦ (meta, n) ])
      else (insert key value meta, timeout)

  -- A line with no `=`, or with one in front, is skipped; the empty line is one of these.
  unfoldable pub parse_line : Bytes → Map Bytes Bytes × T → Map Bytes Bytes × T
  unfolding index_of set_entry
  parse_line line m = elim (index_of line b'=') [
    | none ↦ m
    | some zero ↦ m
    | some (suc i) ↦ set_entry (take (suc i) line) (drop (suc (suc i)) line) m
  ]

  unfoldable pub parse_lines : List Bytes → Map Bytes Bytes × T → Map Bytes Bytes × T
  unfolding parse_line
  parse_lines [] m = m
  parse_lines (l ∷ ls) m = parse_lines ls (parse_line l m)

  -- `zero_ms` is the 0 that the timeout starts from. No data gives a nil map, here [].
  unfoldable pub parse_metadata : T → Bytes → Map Bytes Bytes × T
  unfolding split_lines parse_lines
  parse_metadata zero_ms bs = parse_lines (split_lines bs) ([], zero_ms)
