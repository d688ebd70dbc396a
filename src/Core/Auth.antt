-- ===== src/Core/Auth.antt =====
-- pkg/service/server.go: who gets past the interceptors.
use synurang.Common.{
  Bytes, List, [], ◌∷◌, Option, none, some, str, bytes_beq, bytes_beq_iff, beq_refl, ◌≡◌, ◌≢◌, refl,
  arith, ◌⊎◌, inl, inr, Bool-cases, bytes_eq,
}
use synurang.Core.{
  Config, Metadata, Refusal, missing_metadata, missing_token, invalid_token, Reply, handled,
  unauthenticated, bearer, auth_interceptor, stream_auth_interceptor, outgoing,
}

-- The first value under "authorization".
abbrev first : Option Metadata → Option Bytes
first none = none
first (some get) = elim (get (str "authorization")) [ [] ↦ none | t ∷ ts ↦ some t ]

-- A call is let in if there is no token, or its first token is the configured one.
abbrev pub Admitted : Config → Option Metadata → Type 0
Admitted cfg md = (cfg.token ≡ []) ⊎ (first md ≡ some (bearer cfg))

-- Nothing has happened, and the caller has an error.
abbrev pub IsRefused {ℓ κ} : {W : Type ℓ} {A : Type κ} → W → W × Reply A → Type (ℓ ⊔ κ)
IsRefused w r = (e : Refusal) × (r ≡ (w, unauthenticated e))

module _ {ℓ κ} {W : Type ℓ} {A : Type κ} (cfg : Config) (handler : W → W × A) (w : W) where
  abbrev Decides : Option Metadata → W × Reply A → Type (ℓ ⊔ κ)
  Decides md r =
      (Admitted cfg md → r ≡ ((handler w).0, handled (handler w).1))
      × ((Admitted cfg md → ⊥) → IsRefused w r)

  judged :
      (get : Metadata) (ts : List Bytes)
      → cfg.token ≢ []
      → get (str "authorization") ≡ ts
      → Decides (some get) (auth_interceptor cfg (some get) handler w)
  unfolding auth_interceptor
  judged get [] ne e =
      (λ a. absurd (ground arith), λ h. (missing_token, ground (arith, bytes_beq_iff cfg.token [])))
  judged get (t ∷ ts) ne e = elim (Bool-cases (bytes_beq t (bearer cfg))) [
    | inl same ↦ (
      λ a. ground (arith, bytes_beq_iff cfg.token []),
      λ h. absurd (h (inr (ground (arith, bytes_beq_iff t (bearer cfg))))),
    )
    | inr other ↦ (
      λ a. absurd (ground (arith, bytes_beq_iff t (bearer cfg))),
      λ h. (invalid_token, ground (arith, bytes_beq_iff cfg.token [])),
    )
  ]

  guarded : (md : Option Metadata) → cfg.token ≢ [] → Decides md (auth_interceptor cfg md handler w)
  guarded none ne = (
    λ a. absurd (ground arith),
    λ h. (missing_metadata, unfold auth_interceptor in ground (arith, bytes_beq_iff cfg.token [])),
  )
  guarded (some get) ne = judged get (get (str "authorization")) ne refl

  decided : (md : Option Metadata) → Decides md (auth_interceptor cfg md handler w)
  decided md = elim (Bool-cases (bytes_beq cfg.token [])) [
    | inl yes_ ↦ (
      λ a. unfold auth_interceptor in ground arith,
      λ h. absurd (h (inl (ground (arith, bytes_beq_iff cfg.token [])))),
    )
    | inr no_ ↦ guarded md (λ e. ground (arith, bytes_beq_iff cfg.token []))
  ]

  -- Both interceptors run the handler, on the state as it was, exactly when no token is configured or
  -- the first authorization value of the call is "Bearer " and the token; in every other case nothing
  -- has changed and the caller gets an error.
  pub auth_interceptor_lem :
      (md : Option Metadata)
      → Decides md (auth_interceptor cfg md handler w)
        × Decides md (stream_auth_interceptor cfg md handler w)
  unfolding stream_auth_interceptor auth_interceptor
  auth_interceptor_lem md = (decided md, decided md)

  -- A call into another side with the same token, which carries the metadata that `InvokeDart` attaches,
  -- is handled there.
  outgoing-handled :
      auth_interceptor cfg (outgoing cfg) handler w ≡ ((handler w).0, handled (handler w).1)
  unfolding outgoing
  outgoing-handled = elim (Bool-cases (bytes_beq cfg.token [])) [
    | inl yes_ ↦ (decided (outgoing cfg)).0 (inl (ground (arith, bytes_beq_iff cfg.token [])))
    | inr no_ ↦ (decided (outgoing cfg)).0 (inr (ground (arith, beq_refl (str "authorization"))))
  ]
