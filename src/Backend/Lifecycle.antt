-- ===== src/Backend/Lifecycle.antt =====
-- cmd/server/main.go: `StartGrpcServer` and `StopGrpcServer`, and the goroutines that serve. Each is one
-- step; a nil `char*` is `none`.
use synurang.Common.{
  ℕ, zero, suc, ◌-◌, ◌*◌, ◌%◌, ◌^◌, Bool, true, false, Bytes, List, [], ◌∷◌, ◌++◌, Option, none,
  some, nat_beq, ltb, ◌&&◌, bytes_beq, if◌then◌else◌, ℤ, pos, negsuc, not,
}
use mathlib.Core.Option
use synurang.Core.{Config, Core, new_core_service}

-- `struct CoreArgument`; the numbers are their patterns of 32 and 64 bits.
pub record CoreArgument : Type 0 where
  pub storage_path : Option Bytes
  pub cache_path : Option Bytes
  pub engine_socket_path : Option Bytes
  pub engine_tcp_port : Option Bytes
  pub view_socket_path : Option Bytes
  pub view_tcp_port : Option Bytes
  pub token : Option Bytes
  pub enable_cache : ℕ
  pub stream_timeout : ℕ

-- `service.Config`: what the service reads, and the two addresses to listen on.
pub record Settings : Type 0 where
  pub engine_socket_path : Bytes
  pub engine_tcp_port : Bytes
  pub config : Config

abbrev pub signed64 : ℕ → ℤ
signed64 n = if ltb n (2 ^ 63) then pos n else negsuc (2 ^ 64 - n - 1)

-- `time.Duration(n) * time.Millisecond`, which wraps around.
unfoldable pub milliseconds : ℕ → ℤ
milliseconds n = signed64 ((n * 1_000_000) % 2 ^ 64)

abbrev or_else : Option Bytes → Bytes → Bytes
or_else none default = default
or_else (some s) default = s

abbrev is_set : Bytes → Bool
is_set s = not (bytes_beq s [])

unfoldable pub settings : CoreArgument → Settings
unfolding milliseconds
settings a = record {
  engine_socket_path = or_else a.engine_socket_path (or_else a.storage_path []);
  engine_tcp_port = or_else a.engine_tcp_port [];
  config = record {
    view_socket_path = or_else a.view_socket_path [];
    view_tcp_port = or_else a.view_tcp_port [];
    token = or_else a.token [];
    cache_path = or_else a.cache_path [];
    enable_cache = is_set (or_else a.cache_path []) && nat_beq a.enable_cache 1;
    stream_timeout = milliseconds a.stream_timeout;
  };
}

pub data Listener : Type 0 where
  unix tcp : Bytes → Listener

-- What the functions do outside of their variables, in order.
pub data Effect : Type 0 where
  removed : Bytes → Effect
  listens serves closes : Listener → Effect
  core_closed server_stopped : Effect

-- The variables `srv`, `impl` and `listeners`, and the default timeout of the service package. `pending`
-- are the listeners of the goroutines that have not come to their `srv.Serve` yet, `served` the listeners
-- that the gRPC server has.
pub record Backend {ℓ κ} (K : Type ℓ) (C : Type κ) : Type (ℓ ⊔ κ) where
  pub running : Bool
  pub impl : Option (Core K C)
  pub listeners : List Listener
  pub pending : List Listener
  pub served : List Listener
  pub default_timeout : ℤ
  pub effects : List Effect

-- The machine: whether a path exists, and whether an address can be listened on.
pub record Machine : Type 0 where
  pub exists : Bytes → Bool
  pub can_listen : Listener → Bool

unfoldable pub listen : Machine → Listener → List Listener × List Effect
listen m l = if m.can_listen l then (l ∷ [], listens l ∷ []) else ([], [])

-- The goroutine of the UDS listener: an existing path is removed first.
unfoldable pub listen_unix : Machine → Bytes → List Listener × List Effect
unfolding listen
listen_unix m path =
    let (ls, es) = listen m (unix path) in
    let es' = if m.exists path then removed path ∷ es else es in
    if is_set path then (ls, es') else ([], [])

unfoldable pub listen_tcp : Machine → Bytes → List Listener × List Effect
unfolding listen
listen_tcp m port = if is_set port then listen m (tcp port) else ([], [])

abbrev both :
    List Listener × List Effect → List Listener × List Effect → List Listener × List Effect
both (ls, es) (ls', es') = (ls ++ ls', es ++ es')

-- The two goroutines, in either order.
unfoldable pub open_listeners : Machine → Bool → Settings → List Listener × List Effect
unfolding listen_unix listen_tcp
open_listeners m unix_first s =
    let u = listen_unix m s.engine_socket_path in
    let t = listen_tcp m s.engine_tcp_port in if unix_first then both u t else both t u

-- Each listener is closed, and the path of a UDS listener removed.
unfoldable pub close_listeners : List Listener → List Effect
close_listeners [] = []
close_listeners (unix path ∷ ls) = closes (unix path) ∷ removed path ∷ close_listeners ls
close_listeners (tcp port ∷ ls) = closes (tcp port) ∷ close_listeners ls

abbrev pub close_served : List Listener → List Effect
close_served [] = []
close_served (l ∷ ls) = closes l ∷ close_served ls

abbrev pub pick : ℕ → List Listener → Option (Listener × List Listener)
pick i [] = none
pick zero (l ∷ ls) = some (l, ls)
pick (suc i) (l ∷ ls) = Option.map (λ e. (e.0, l ∷ e.1)) (pick i ls)

module _ {ℓ κ} {K : Type ℓ} {C : Type κ} where
  -- The code that is returned is `true` for 0 and `false` for -1.
  unfoldable pub start_grpc_server :
      (Bytes → Option K)
      → (Bytes → Option C)
      → Machine
      → Bool
      → CoreArgument
      → Backend K C
      → Backend K C × Bool
  unfolding settings open_listeners new_core_service
  start_grpc_server open_cache dial m unix_first a b =
      let s = settings a in
      let (ls, es) = open_listeners m unix_first s in
      if b.running then (b, false) else (
        record {
          running = true;
          impl = some (new_core_service open_cache dial s.config);
          listeners = ls;
          pending = b.pending ++ ls;
          served = [];
          default_timeout = s.config.stream_timeout;
          effects = b.effects ++ es;
        },
        true,
      )

  -- The goroutine of the listener at `i` among the pending ones comes to its `srv.Serve`, with the variable
  -- `srv` as it is then: `none` for the nil dereference of a stopped server.
  unfoldable pub serve : ℕ → Backend K C → Option (Backend K C)
  serve i b = elim (pick i b.pending) [
    | none ↦ some b
    | some (l, ls) ↦
        if b.running
        then some (record b {
          pending = ls;
          served = b.served ++ l ∷ [];
          effects = b.effects ++ serves l ∷ [];
        })
        else none
  ]

  unfoldable pub serve_each : List ℕ → Backend K C → Option (Backend K C)
  unfolding serve
  serve_each [] b = some b
  serve_each (i ∷ is) b = elim (serve i b) [ none ↦ none | some c ↦ serve_each is c ]

  -- `srv.Stop()` closes the listeners that the gRPC server has, as it documents, in an `order` of its own.
  unfoldable pub stop_grpc_server :
      (order : List Listener → List Listener) → Backend K C → Backend K C
  unfolding close_listeners
  stop_grpc_server order b =
      let closing : List Effect = elim b.impl [ none ↦ [] | some s ↦ core_closed ∷ [] ] in
      if b.running
      then record b {
        running = false;
        impl = none;
        listeners = [];
        served = [];
        effects =
            b.effects
            ++ (closing
                ++ server_stopped ∷ (close_served (order b.served) ++ close_listeners b.listeners));
      }
      else b
