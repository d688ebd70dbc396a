-- ===== src/Codegen/Casing.antt =====
-- cmd/protoc-gen-synurang-ffi/main.go: `toSnakeCase`.
use synurang.Common.{
  ℕ, ◌+◌, ◌≡◌, refl, true, false, Bytes, [], ◌∷◌, arith, All, select, not, nat_beq, if◌then◌else◌,
  length, drop,
}
use synurang.Codegen.Names.{is_upper, to_lower, split_words, to_snake_case}

-- How many capitals there are.
abbrev pub capitals : Bytes → ℕ
capitals [] = 0
capitals (c ∷ s) = (if is_upper c then 1 else 0) + capitals s

abbrev pub letters : Bytes → Bytes
letters = select (λ c. not (nat_beq c b'_'))

abbrev pub IsLow : Bytes → Type 0
IsLow = All (λ c. is_upper c ≡ false)

to_lower-IsLow : (s : Bytes) → IsLow (to_lower s)
unfolding to_lower
to_lower-IsLow [] = tt
to_lower-IsLow (c ∷ s) = ground (arith, to_lower-IsLow s)

length-to_lower : (s : Bytes) → length (to_lower s) ≡ length s
unfolding to_lower
length-to_lower [] = refl
length-to_lower (c ∷ s) = ground (arith, length-to_lower s)

rest_length : (s : Bytes) → length (split_words false s) ≡ length s + capitals s
unfolding split_words
rest_length [] = refl
rest_length (c ∷ s) = ground (arith, rest_length s)

rest_letters : (s : Bytes) → letters (to_lower (split_words false s)) ≡ to_lower (letters s)
unfolding split_words to_lower
rest_letters [] = refl
rest_letters (c ∷ s) = ground (arith, rest_letters s)

-- A name in snake case has no capitals; without its underscores it is the name without its underscores,
-- in lower case; and it is longer by one underscore for every capital after the first letter.
pub to_snake_case_lem :
    (s : Bytes)
    → IsLow (to_snake_case s)
      × (letters (to_snake_case s) ≡ to_lower (letters s))
      × (length (to_snake_case s) ≡ length s + capitals (drop 1 s))
unfolding to_snake_case
to_snake_case_lem [] = (tt, refl, refl)
to_snake_case_lem (c ∷ s) = (
  to_lower-IsLow (split_words true (c ∷ s)),
  unfold split_words to_lower in ground (arith, rest_letters s),
  unfold split_words in ground (arith, length-to_lower (c ∷ split_words false s), rest_length s),
)
