-- ===== src/Plugin/Platform/Tests.antt =====
-- Answers of a C library on both platforms: an empty one, and one of negative length.
use synurang.Common.{
  ℕ, zero, suc, ◌-◌, ◌+◌, ◌^◌, ◌<◌, ◌≤◌, ◌≡◌, ◌↔◌, ◌≢◌, ◌⊎◌, refl, true, false, Bytes, [], ◌∷◌,
  none, some, Option, str,
}
use synurang.Plugin.Platform.{Answer, unix_invoke, windows_invoke, unix_recv, windows_recv}
use synurang.Plugin.Platform.Agreement.{recv_agrees}

-- The stream numbered 0 ends with an empty response, any other with the length -1.
abbrev answers : ℕ → Answer
answers zero = record { memory = some (λ i. 65 + i); resp_len = 0; status = 1 }
answers (suc n) = record { memory = some (λ i. 65 + i); resp_len = 2 ^ 32 - 1; status = 0 }

abbrev echo : Bytes → Option Bytes → ℕ → Answer
echo method d n = record { memory = some (λ i. 65 + i); resp_len = n + 1; status = 0 }

copied :
    (windows_invoke echo (str "/a/B") (1 ∷ 2 ∷ [])).value
    ≡ (unix_invoke echo (str "/a/B") (1 ∷ 2 ∷ [])).value
unfolding windows_invoke unix_invoke
copied = refl

empty_not_freed : (windows_recv answers 0).freed ≡ false
unfolding windows_recv
empty_not_freed = refl

recv_agrees_example :
    (((unix_recv answers 1).value ≡ (windows_recv answers 1).value)
      ↔ (((answers 1).memory ≡ none) ⊎ ((answers 1).resp_len < 2 ^ 31)))
    × (((unix_recv answers 1).value ≡ none)
        ↔ (((answers 1).memory ≢ none) × (2 ^ 31 ≤ (answers 1).resp_len)))
    × ((windows_recv answers 1).value ≢ none)
    × (((unix_recv answers 1).freed ≡ true)
        ↔ (((answers 1).memory ≢ none) × ((answers 1).resp_len < 2 ^ 31)))
    × (((windows_recv answers 1).freed ≡ true)
        ↔ (((unix_recv answers 1).freed ≡ true) × (0 < (answers 1).resp_len)))
recv_agrees_example = recv_agrees answers 1
