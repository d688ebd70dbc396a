-- ===== src/Core.antt =====
-- pkg/service/server.go: `CoreServiceServer`. `K` is the cache service, `C` a gRPC connection, `W` what a
-- handler acts on.
pub mod Auth
pub mod Dart
pub mod Grpc
pub mod Bidi
mod Tests
use synurang.Common.{
  Bool, true, false, Bytes, List, [], ◌∷◌, ◌++◌, Option, none, some, str, bytes_beq, ◌&&◌,
  if◌then◌else◌, ℤ, map,
}

-- The settings that the server reads; the timeout is in nanoseconds.
pub record Config : Type 0 where
  pub view_socket_path : Bytes
  pub view_tcp_port : Bytes
  pub token : Bytes
  pub cache_path : Bytes
  pub enable_cache : Bool
  pub stream_timeout : ℤ

pub record Core {ℓ κ} (K : Type ℓ) (C : Type κ) : Type (ℓ ⊔ κ) where
  pub cfg : Config
  pub cache : Option K
  pub dart_conn : Option C

abbrev is_set : Bytes → Bool
is_set s = if bytes_beq s [] then false else true

-- The two functions that may fail, `NewCacheService` and `grpc.Dial`, leave their field nil when they do.
unfoldable pub new_core_service {ℓ κ} :
    {K : Type ℓ} {C : Type κ} → (Bytes → Option K) → (Bytes → Option C) → Config → Core K C
new_core_service open_cache dial cfg = record {
  cfg = cfg;
  cache = if cfg.enable_cache && is_set cfg.cache_path then open_cache cfg.cache_path else none;
  dart_conn =
      if is_set cfg.view_socket_path
      then dial (str "unix://" ++ cfg.view_socket_path)
      else if is_set cfg.view_tcp_port
      then dial (str "localhost:" ++ cfg.view_tcp_port)
      else none;
}

unfoldable pub close_core {ℓ κ μ} :
    {K : Type ℓ} {C : Type κ} {W : Type μ} → (C → W → W) → (K → W → W) → Core K C → W → W
close_core {W = W} close_conn close_cache s w =
    let w' : W = elim s.dart_conn [ none ↦ w | some c ↦ close_conn c w ] in
    elim s.cache [ none ↦ w' | some k ↦ close_cache k w' ]

-- What `NewGrpcServer` registers, in its order, behind the two interceptors.
pub data Registration {ℓ} (R : Type ℓ) : Type ℓ where
  health_service cache_service : Registration R
  custom : R → Registration R

unfoldable pub new_grpc_server {ℓ κ μ} :
    {K : Type ℓ} {C : Type κ} {R : Type μ} → Core K C → List R → List (Registration R)
new_grpc_server {R = R} s registrars =
    let cached : List (Registration R) = elim s.cache [ none ↦ [] | some k ↦ cache_service ∷ [] ] in
    health_service ∷ (cached ++ map custom registrars)

-- Metadata as what `md.Get` answers for a key.
abbrev pub Metadata : Type 0
Metadata = Bytes → List Bytes

pub data Refusal : Type 0 where
  missing_metadata missing_token invalid_token : Refusal

pub data Reply {ℓ} (A : Type ℓ) : Type ℓ where
  handled : A → Reply A
  unauthenticated : Refusal → Reply A

abbrev pub bearer : Config → Bytes
bearer cfg = str "Bearer " ++ cfg.token

-- The interceptors; `md` is the metadata of the call's context. `subtle.ConstantTimeCompare` answers 1
-- for equal bytes.
unfoldable pub auth_interceptor {ℓ κ} :
    {W : Type ℓ} {A : Type κ} → Config → Option Metadata → (W → W × A) → W → W × Reply A
auth_interceptor {W = W} {A = A} cfg md handler w =
    let handle : W × Reply A = let (w', a) = handler w in (w', handled a) in
    if bytes_beq cfg.token [] then handle else elim md [
      | none ↦ (w, unauthenticated missing_metadata)
      | some get ↦ elim (get (str "authorization")) [
        | [] ↦ (w, unauthenticated missing_token)
        | t ∷ ts ↦ if bytes_beq t (bearer cfg) then handle else (w, unauthenticated invalid_token)
      ]
    ]

unfoldable pub stream_auth_interceptor {ℓ κ} :
    {W : Type ℓ} {A : Type κ} → Config → Option Metadata → (W → W × A) → W → W × Reply A
stream_auth_interceptor cfg md handler w =
    if bytes_beq cfg.token [] then (let (w', a) = handler w in (w', handled a)) else elim md [
      | none ↦ (w, unauthenticated missing_metadata)
      | some get ↦ elim (get (str "authorization")) [
        | [] ↦ (w, unauthenticated missing_token)
        | t ∷ ts ↦
            if bytes_beq t (bearer cfg)
            then (let (w', a) = handler w in (w', handled a))
            else (w, unauthenticated invalid_token)
      ]
    ]

-- The outgoing metadata of a call into Dart.
unfoldable pub outgoing : Config → Option Metadata
outgoing cfg =
    if bytes_beq cfg.token []
    then none
    else some (λ k. if bytes_beq k (str "authorization") then bearer cfg ∷ [] else [])
