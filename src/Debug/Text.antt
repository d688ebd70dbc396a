-- ===== src/Debug/Text.antt =====
-- pkg/debug/goroutine_tracker.go: the functions of Go's strings and sort packages that it uses, on ASCII.
use synurang.Common.{
  ℕ, zero, suc, ◌-◌, Bool, true, false, Bytes, List, [], ◌∷◌, Option, none, some, nat_beq, ltb,
  length, take, ◌||◌, ◌&&◌, if◌then◌else◌,
}
use synurang.Codegen.Names.{has_prefix}

-- `strings.Split`; `skip` bytes of a separator are still to pass. The separator is not empty.
prepend : ℕ → List Bytes → List Bytes
prepend c [] = (c ∷ []) ∷ []
prepend c (piece ∷ rest) = (c ∷ piece) ∷ rest

unfoldable pub split_from : (separator : Bytes) (skip : ℕ) → Bytes → List Bytes
unfolding has_prefix prepend
split_from separator skip [] = [] ∷ []
split_from separator (suc skip) (c ∷ s) = split_from separator skip s
split_from separator zero (c ∷ s) = elim (has_prefix (c ∷ s) separator) [
  | true ↦ [] ∷ split_from separator (length separator - 1) s
  | false ↦ prepend c (split_from separator zero s)
]

unfoldable pub split : Bytes → (separator : Bytes) → List Bytes
unfolding split_from
split s separator = split_from separator 0 s

-- `strings.Index` and `strings.LastIndex`, of a text that is not empty.
unfoldable pub index : Bytes → Bytes → Option ℕ
unfolding has_prefix
index [] text = none
index (c ∷ s) text =
    let rest = index s text in
    if has_prefix (c ∷ s) text then some 0 else elim rest [ none ↦ none | some i ↦ some (suc i) ]

unfoldable pub last_index_of : Bytes → Bytes → Option ℕ
unfolding has_prefix
last_index_of [] text = none
last_index_of (c ∷ s) text = elim (last_index_of s text) [
  | some i ↦ some (suc i)
  | none ↦ if has_prefix (c ∷ s) text then some 0 else none
]

unfoldable pub contains : Bytes → Bytes → Bool
unfolding index
contains s text = elim (index s text) [ none ↦ false | some i ↦ true ]

-- `if idx > 0 { s = s[:idx] }`
unfoldable pub cut_at : Option ℕ → Bytes → Bytes
cut_at none s = s
cut_at (some zero) s = s
cut_at (some (suc i)) s = take (suc i) s

-- `strings.TrimSpace`
abbrev pub is_space : ℕ → Bool
is_space c = nat_beq c b' ' || (ltb 8 c && ltb c 14)

unfoldable pub trim_left : Bytes → Bytes
trim_left [] = []
trim_left (c ∷ s) = let rest = trim_left s in if is_space c then rest else c ∷ s

unfoldable pub trim_right : Bytes → Bytes
trim_right [] = []
trim_right (c ∷ s) = elim (trim_right s) [
  | [] ↦ if is_space c then [] else c ∷ []
  | d ∷ rest ↦ c ∷ d ∷ rest
]

unfoldable pub trim_space : Bytes → Bytes
unfolding trim_left trim_right
trim_space s = trim_right (trim_left s)

-- `sort.Strings`
unfoldable pub is_less : Bytes → Bytes → Bool
is_less [] [] = false
is_less [] (d ∷ t) = true
is_less (c ∷ s) [] = false
is_less (c ∷ s) (d ∷ t) = ltb c d || (nat_beq c d && is_less s t)

unfoldable pub place : Bytes → List Bytes → List Bytes
unfolding is_less
place s [] = s ∷ []
place s (t ∷ ts) = if is_less t s then t ∷ place s ts else s ∷ t ∷ ts

unfoldable pub sort_strings : List Bytes → List Bytes
unfolding place
sort_strings [] = []
sort_strings (s ∷ ss) = place s (sort_strings ss)
