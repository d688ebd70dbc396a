-- ===== src/Backend/MetadataLaws.antt =====
-- What `parseMetadata` of cmd/server/main.go reads from a map that is written as "key=value\n", the
-- format of the headers and trailers of pkg/service/stream_handler.go.
use mathlib.Core.List.{append_assoc, append-nil}
use synurang.Common.{
  ℕ, suc, ◌+◌, ◌≡◌, ◌≢◌, refl, ap, Bytes, Map, [], ◌∷◌, ◌++◌, Option, none, some, insert, lookup,
  lookup-insert, bytes_eq, nat_beq, bytes_beq_iff, if◌then◌else◌, take, drop, length, All, arith,
}
use synurang.Session.Encoding.{encode_pairs}
use synurang.Backend.Metadata.{
  split_from, split_lines, index_from, timeout_key, parse_line, parse_lines, parse_metadata,
}

abbrev Without : ℕ → Bytes → Type 0
Without c = All (λ b. b ≢ c)

-- A key that the format can carry, and a value.
pub record IsClean (e : Bytes × Bytes) : Type 0 where
  pub named : e.0 ≢ []
  pub key_line : Without 10 e.0
  pub key_sign : Without b'=' e.0
  pub value_line : Without 10 e.1
  pub plain : e.0 ≢ timeout_key

-- One byte of `splitLines`.
split_from-cons :
    (line : Bytes) (b : ℕ) (rest : Bytes)
    → split_from line (b ∷ rest)
      ≡ (if nat_beq b 10 then line ∷ split_from [] rest else split_from (line ++ b ∷ []) rest)
unfolding split_from
split_from-cons [] b rest = refl
split_from-cons (c ∷ line) b rest = refl

split_from-line :
    (line xs rest : Bytes)
    → Without 10 xs
    → split_from line (xs ++ 10 ∷ rest) ≡ (line ++ xs) ∷ split_from [] rest
split_from-line line [] rest h = rw (split_from-cons line 10 rest, append-nil line)
split_from-line line (x ∷ xs) rest h = ground (
  arith,
  split_from-cons line x (xs ++ 10 ∷ rest),
  split_from-line (line ++ x ∷ []) xs rest h.1,
  append_assoc line (x ∷ []) xs,
)

index_from-sign :
    (i : ℕ) (k v : Bytes) (c : ℕ) → Without c k → index_from i (k ++ c ∷ v) c ≡ some (i + length k)
unfolding index_from
index_from-sign i [] v c h = ground arith
index_from-sign i (x ∷ k) v c h = ground (arith, index_from-sign (suc i) k v c h.1)

take-append : (xs ys : Bytes) → take (length xs) (xs ++ ys) ≡ xs
take-append [] ys = refl
take-append (x ∷ xs) ys = ap (◌∷◌ x) (take-append xs ys)

drop-append : (xs ys : Bytes) (y : ℕ) → drop (suc (length xs)) (xs ++ y ∷ ys) ≡ ys
drop-append [] ys y = refl
drop-append (x ∷ xs) ys y = drop-append xs ys y

Without-append : (c : ℕ) (xs ys : Bytes) → Without c xs → Without c ys → Without c (xs ++ ys)
Without-append c [] ys hx hy = hy
Without-append c (x ∷ xs) ys hx hy = (hx.0, Without-append c xs ys hx.1 hy)

-- The map that a sequence of assignments leaves.
collect : Map Bytes Bytes → Map Bytes Bytes → Map Bytes Bytes
collect acc [] = acc
collect acc ((k, v) ∷ m) = collect (insert k v acc) m

abbrev pub IsDistinct : Map Bytes Bytes → Type 0
IsDistinct [] = Unit
IsDistinct ((k, v) ∷ m) = (lookup k m ≡ none) × IsDistinct m

lookup-collect :
    (q : Bytes) (m acc : Map Bytes Bytes)
    → IsDistinct m
    → lookup q (collect acc m) ≡ elim (lookup q m) [ none ↦ lookup q acc | some v ↦ some v ]
unfolding collect lookup
lookup-collect q [] acc h = refl
lookup-collect q ((k, v) ∷ m) acc h = ground (
  arith,
  lookup-collect q m (insert k v acc) h.1,
  lookup-insert k q v acc,
  bytes_beq_iff k q,
  h.0,
)

split_lines-pair :
    (k v rest : Bytes)
    → IsClean (k, v)
    → split_lines (k ++ b'=' ∷ (v ++ 10 ∷ rest)) ≡ (k ++ b'=' ∷ v) ∷ split_lines rest
unfolding split_lines
split_lines-pair k v rest h = rw (← append_assoc k (b'=' ∷ v) (10 ∷ rest)) (
    split_from-line [] (k ++ b'=' ∷ v) rest
      (Without-append 10 k (b'=' ∷ v) h.key_line (omega arith, h.value_line)))

module _ {ℓ} {T : Type ℓ} (scan : Bytes → Option T) where
  parse_line-pair :
      (k v : Bytes) (m : Map Bytes Bytes) (t : T)
      → IsClean (k, v)
      → parse_line scan (k ++ b'=' ∷ v) (m, t) ≡ (insert k v m, t)
  unfolding parse_line
  parse_line-pair [] v m t h = absurd (h.named refl)
  parse_line-pair (x ∷ k) v m t h = ground (
    arith,
    index_from-sign 0 (x ∷ k) v b'=' h.key_sign,
    take-append (x ∷ k) (b'=' ∷ v),
    drop-append (x ∷ k) v b'=',
    bytes_beq_iff (x ∷ k) timeout_key,
    h.plain,
  )

  parse_lines-encode :
      (m acc : Map Bytes Bytes) (t : T)
      → All IsClean m
      → parse_lines scan (split_lines (encode_pairs m)) (acc, t) ≡ (collect acc m, t)
  unfolding parse_lines split_lines encode_pairs collect
  parse_lines-encode [] acc t h = refl
  parse_lines-encode ((k, v) ∷ m) acc t h =
      rw (split_lines-pair k v (encode_pairs m) h.0, parse_lines, parse_line-pair k v acc t h.0)
        (parse_lines-encode m (insert k v acc) t h.1)

  -- `parseMetadata` reads back every map of clean entries with distinct keys that was written as
  -- "key=value\n" in any order of its entries: each key has its value and no other key has one, and
  -- the timeout stays 0.
  pub parse_metadata-encode_pairs :
      (zero_ms : T) (m : Map Bytes Bytes)
      → All IsClean m
      → IsDistinct m
      → ((q : Bytes) → lookup q (parse_metadata scan zero_ms (encode_pairs m)).0 ≡ lookup q m)
        × ((parse_metadata scan zero_ms (encode_pairs m)).1 ≡ zero_ms)
  unfolding parse_metadata lookup
  parse_metadata-encode_pairs zero_ms m clean distinct =
      let e = parse_lines-encode m [] zero_ms clean in
      (λ q. rw e (ground (arith, lookup-collect q m [] distinct)), rw e refl)
