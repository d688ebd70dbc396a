-- ===== src/Core/Grpc.antt =====
-- pkg/service/server.go: `InvokeDartStream` over a gRPC connection.
use synurang.Common.{
  ℕ, zero, suc, ◌+◌, ◌≡◌, Bytes, List, [], ◌∷◌, ◌++◌, Option, none, some, arith, length,
}
use mathlib.Core.List.{append_assoc, append-nil}
use synurang.Core.{Config, Core, Metadata, outgoing}
use synurang.Core.Dart.{
  World, Dart, grpc_failed, Outcome, returned, fails, running, Turn, invoke_dart_stream,
}

-- A gRPC client stream: what a receive returns; `ended` is io.EOF or an error with the code OK.
pub data Item {ℓ} (M : Type ℓ) : Type ℓ where
  item : M → Item M
  ended broken : Item M

-- The library's functions on a connection and a stream; `none` is an error.
pub record Grpc {ℓ κ μ} (C : Type ℓ) (S : Type κ) (M : Type μ) : Type (ℓ ⊔ κ ⊔ μ) where
  pub new_stream : C → Option Metadata → Bytes → Option S
  pub send : M → S → Option S
  pub close_send : S → Option S
  pub recv : S → S × Item M

module _ {ℓ κ μ} {C : Type ℓ} {S : Type κ} {M : Type μ} (G : Grpc C S M) where
  -- The loop that receives; the fuel is the number of calls of RecvMsg.
  unfoldable pub receive_all : ℕ → List M → S → Outcome (List M)
  receive_all zero acc s = running
  receive_all (suc fuel) acc s =
      let (s', x) = G.recv s in
      elim x [
        | item m ↦ receive_all fuel (acc ++ m ∷ []) s'
        | ended ↦ returned acc
        | broken ↦ fails grpc_failed
      ]

  unfoldable pub grpc_stream : ℕ → Config → C → Bytes → M → Outcome (List M)
  unfolding receive_all outgoing
  grpc_stream fuel cfg c method req = elim (G.new_stream c (outgoing cfg) method) [
    | none ↦ fails grpc_failed
    | some s ↦ elim (G.send req s) [
      | none ↦ fails grpc_failed
      | some s' ↦ elim (G.close_send s') [
        | none ↦ fails grpc_failed
        | some s'' ↦ receive_all fuel [] s''
      ]
    ]
  ]

  -- `InvokeDartStream`, which uses the connection where there is one.
  unfoldable pub invoke_stream {ν} :
      {K : Type ν}
      → (M → Option Bytes)
      → (Bytes → Option M)
      → ℕ
      → Core K C
      → Option Dart
      → List Turn
      → Bytes
      → M
      → World
      → World × Outcome (List M)
  unfolding grpc_stream invoke_dart_stream
  invoke_stream marshal unmarshal fuel s callback turns method req w = elim s.dart_conn [
    | some c ↦ (w, grpc_stream fuel s.cfg c method req)
    | none ↦ invoke_dart_stream marshal unmarshal s.cfg callback turns method req w
  ]

  -- The stream hands over these messages and then ends.
  abbrev pub Yields : List M → S → Type μ
  Yields [] s = (G.recv s).1 ≡ ended
  Yields (m ∷ ms) s = ((G.recv s).1 ≡ item m) × Yields ms (G.recv s).0

  receive_all-Yields :
      (ms acc : List M) (s : S) (extra : ℕ)
      → Yields ms s
      → receive_all (length ms + suc extra) acc s ≡ returned (acc ++ ms)
  unfolding receive_all
  receive_all-Yields [] acc s extra y = ground (arith, append-nil acc)
  receive_all-Yields (m ∷ ms) acc s extra y =
      let next : suc (length ms) + suc extra ≡ suc (length ms + suc extra) = omega arith in
      rw next (
        ground (
          arith,
          y.0,
          receive_all-Yields ms (acc ++ m ∷ []) (G.recv s).0 extra y.1,
          append_assoc acc (m ∷ []) ms,
        ))

  -- Over a connection, once the request has been sent, `InvokeDartStream` returns all messages of a stream
  -- that ends, in order; one call of RecvMsg more than there are messages is enough.
  invoke_stream-Yields {ν} :
      {K : Type ν} (marshal : M → Option Bytes) (unmarshal : Bytes → Option M) (extra : ℕ)
      (x : Core K C) (callback : Option Dart) (turns : List Turn) (method : Bytes) (req : M)
      (w : World) (ms : List M) (c : C) (s s' s'' : S)
      → x.dart_conn ≡ some c
      → G.new_stream c (outgoing x.cfg) method ≡ some s
      → G.send req s ≡ some s'
      → G.close_send s' ≡ some s''
      → Yields ms s''
      → invoke_stream marshal unmarshal (length ms + suc extra) x callback turns method req w
        ≡ (w, returned ms)
  unfolding invoke_stream
  invoke_stream-Yields marshal unmarshal extra x callback turns method req w ms c s s' s'' e e1 e2
        e3 y =
      let all = receive_all-Yields ms [] s'' extra y in ground (arith, e, e1, e2, e3, all)
