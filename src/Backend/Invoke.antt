-- ===== src/Backend/Invoke.antt =====
-- cmd/server/main.go: `InvokeBackend` and `InvokeBackendWithMeta`. `I` is the service, `invoke` the
-- generated dispatcher with the context's timeout (`InvokeFfi`); `none` is a panic.
use synurang.Common.{
  ℕ, zero, suc, ◌≡◌, ◌≢◌, ◌∙◌, bytes_beq_iff, bytes_eq, refl, Bytes, Map, List, [], ◌∷◌, Option,
  none, some, str, take, length, ℤ, pos, negsuc, arith, All, inl, inr, ◌⊎◌,
}
use synurang.Backend.Metadata.{
  parse_metadata, parse_line, parse_lines, split_lines, index_of, timeout_key,
}
use synurang.Backend.Lifecycle.{milliseconds}

-- `FfiData`: an error has the negated length.
pub record FfiData : Type 0 where
  pub content : Bytes
  pub len : ℤ

abbrev negated : ℕ → ℤ
negated zero = pos 0
negated (suc n) = negsuc n

unfoldable pub answer : Bytes → FfiData
answer d = record { content = d; len = pos (length d) }

unfoldable pub error_answer : Bytes → FfiData
error_answer d = record { content = d; len = negated (length d) }

-- `unsafe.Slice` of the caller's memory; a negative length panics.
unfoldable pub slice : Bytes → ℤ → Option Bytes
slice memory (pos n) = some (take n memory)
slice memory (negsuc n) = none

-- An error of the dispatcher: `details` are those of its status, `none` for one that is no pb.Error, and
-- [] where it has no status; `described` is the pb.Error that is made of its text and code.
pub record Failure {ℓ} (P : Type ℓ) : Type ℓ where
  pub details : List (Option P)
  pub described : P

unfoldable pub pb_error {ℓ} : {P : Type ℓ} → P → List (Option P) → P
pb_error described [] = described
pb_error described (some p ∷ ds) = p
pb_error described (none ∷ ds) = pb_error described ds

-- A line that does not name the timeout.
abbrev pub NamesNone : Bytes → Type 0
NamesNone line = elim (index_of line b'=') [ none ↦ Unit | some i ↦ take i line ≢ timeout_key ]

parse_line-timeout :
    (scan : Bytes → Option ℤ) (line : Bytes) (m : Map Bytes Bytes × ℤ)
    → NamesNone line
    → (parse_line scan line m).1 ≡ m.1
unfolding parse_line
parse_line-timeout scan line m free = grind (arith, bytes_beq_iff)

parse_lines-timeout :
    (scan : Bytes → Option ℤ) (lines : List Bytes) (m : Map Bytes Bytes × ℤ)
    → All NamesNone lines
    → (parse_lines scan lines m).1 ≡ m.1
unfolding parse_lines
parse_lines-timeout scan [] m free = refl
parse_lines-timeout scan (l ∷ ls) m free =
    parse_lines-timeout scan ls (parse_line scan l m) free.1 ∙ parse_line-timeout scan l m free.0

module _ {ℓ κ μ} {I : Type ℓ} {P : Type κ} {W : Type μ} (marshal : P → Bytes)
    (invoke : I → Option ℤ → Bytes → Bytes → W → W × (Bytes ⊎ Failure P)) where
  unfoldable pub ffi_result : Bytes ⊎ Failure P → FfiData
  unfolding answer error_answer pb_error
  ffi_result (inl d) = answer d
  ffi_result (inr f) = error_answer (marshal (pb_error f.described f.details))

  -- The call, once there is a service.
  unfoldable pub dispatch : I → Option ℤ → Bytes → Option Bytes → W → Option (W × FfiData)
  unfolding ffi_result
  dispatch s timeout method none w = none
  dispatch s timeout method (some d) w =
      let (w', r) = invoke s timeout method d w in some (w', ffi_result r)

  unfoldable pub invoke_backend : Option I → Bytes → Bytes → ℤ → W → Option (W × FfiData)
  unfolding dispatch slice error_answer
  invoke_backend none method memory len w =
      some (w, error_answer (str "Server implementation not initialized"))
  invoke_backend (some s) method memory len w = dispatch s none method (slice memory len) w

  -- A context has a deadline only for a positive timeout.
  unfoldable pub timeout_of : ℤ → Option ℤ
  unfolding milliseconds
  timeout_of (pos zero) = none
  timeout_of (pos (suc n)) = some (milliseconds (suc n))
  timeout_of (negsuc n) = none

  -- Metadata of no positive length is none.
  unfoldable pub meta_bytes : Bytes → ℤ → Bytes
  meta_bytes memory (pos n) = take n memory
  meta_bytes memory (negsuc n) = []

  unfoldable pub invoke_backend_with_meta :
      (Bytes → Option ℤ) → Option I → Bytes → Bytes → ℤ → Bytes → ℤ → W → Option (W × FfiData)
  unfolding dispatch slice error_answer parse_metadata timeout_of meta_bytes
  invoke_backend_with_meta scan none method memory len meta meta_len w =
      some (w, error_answer (str "Server implementation not initialized"))
  invoke_backend_with_meta scan (some s) method memory len meta meta_len w =
      let (headers, ms) = parse_metadata scan (pos 0) (meta_bytes meta meta_len) in
      dispatch s (timeout_of ms) method (slice memory len) w

  -- With metadata of which no line has the timeout's key in front of its first `=`, whatever else its lines
  -- are and whatever its length is given as, both exports do the same: the call has no deadline, and the
  -- answer, the error and its sign are those of `InvokeBackend`.
  pub invoke_with_meta-eq :
      (scan : Bytes → Option ℤ) (s : Option I) (method memory : Bytes) (len : ℤ) (meta : Bytes)
      (meta_len : ℤ) (w : W)
      → All NamesNone (split_lines (meta_bytes meta meta_len))
      → invoke_backend_with_meta scan s method memory len meta meta_len w
        ≡ invoke_backend s method memory len w
  unfolding invoke_backend_with_meta invoke_backend parse_metadata
  invoke_with_meta-eq scan none method memory len meta meta_len w free = refl
  invoke_with_meta-eq scan (some s) method memory len meta meta_len w free =
      let lines = split_lines (meta_bytes meta meta_len) in
      ground (arith, parse_lines-timeout scan lines ([], pos 0) free)
