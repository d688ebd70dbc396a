-- ===== src/Session/Store.antt =====
-- pkg/service/stream_handler.go: the table of sessions, the handler registries and the dispatchers
-- that the FFI calls. A session is allocated at an address, and goroutines keep that address after
-- the table has dropped it. Each call holds the table's lock as the source does; `none` is a panic.
pub mod Laws
pub mod Dispatch
use synurang.Common.{
  ℕ, ◌+◌, ◌%◌, ◌^◌, Bool, Bytes, Map, List, [], ◌∷◌, ◌++◌, Option, none, some, insert, lookup,
  remove, nat_eq, bytes_eq,
}
use synurang.Session.{
  Session, StreamType, server_stream, client_stream, bidi_stream, Error, not_found, SendResult,
  sent, failed, blocked, crashed, new_session, close_session, close_input, send_to_session,
  signal_ready,
}

-- `registry` is the map `streamSessions` from IDs to addresses, `heap` what stands at an address.
pub record Store : Type 0 where
  pub heap : Map ℕ Session
  pub registry : Map ℕ ℕ
  pub next_id : ℕ
  pub callback : Bool
  pub callback_ffi : Bool

unfoldable pub set_stream_callback : Bool → Store → Store
set_stream_callback cb w = record w { callback = cb }

unfoldable pub set_stream_callback_ffi : Bool → Store → Store
set_stream_callback_ffi cb w = record w { callback_ffi = cb }

-- `atomic.AddInt64(&n, 1)`, on the 64-bit pattern.
abbrev pub add_id : ℕ → ℕ
add_id n = (n + 1) % 2 ^ 64

-- The new session and its address, which is its ID.
unfoldable pub new_stream_session : Bytes → StreamType → Store → Store × ℕ
new_stream_session method kind w =
    let n = add_id w.next_id in
    (
      record w {
        heap = insert n (new_session n method kind w.callback w.callback_ffi) w.heap;
        registry = insert n n w.registry;
        next_id = n;
      },
      n,
    )

unfoldable pub get_stream_session : ℕ → Store → Option Session
get_stream_session n w = elim (lookup n w.registry) [ none ↦ none | some p ↦ lookup p w.heap ]

abbrev put_back : Store → ℕ → Option Session → Option Store
put_back w p none = none
put_back w p (some s) = some (record w { heap = insert p s w.heap })

unfoldable pub close_stream_session : ℕ → Store → Option Store
close_stream_session n w = elim (lookup n w.registry) [
  | none ↦ some w
  | some p ↦
      let w' = record w { registry = remove n w.registry } in
      elim (lookup p w.heap) [ none ↦ some w' | some s ↦ put_back w' p (close_session s) ]
]

-- An operation of a session, found by its ID.
abbrev at : ℕ → Store → (Session → Option Session) → Option Store
at n w f = elim (lookup n w.registry) [
  | none ↦ some w
  | some p ↦ elim (lookup p w.heap) [ none ↦ some w | some s ↦ put_back w p (f s) ]
]

unfoldable pub close_stream_input : ℕ → Store → Option Store
close_stream_input n w = at n w close_input

unfoldable pub signal_stream_ready : ℕ → Store → Option Store
signal_stream_ready n w = at n w (λ s. some (signal_ready s))

pub data Sending : Type 0 where
  delivered : Store → Sending
  refused : Error → Sending
  waits : Sending
  panics : Sending

abbrev sending : Store → ℕ → SendResult → Sending
sending w p (sent s) = delivered (record w { heap = insert p s w.heap })
sending w p (failed e) = refused e
sending w p blocked = waits
sending w p crashed = panics

unfoldable pub send_to_stream : Bool → ℕ → Bytes → Store → Sending
send_to_stream data_first n d w = elim (lookup n w.registry) [
  | none ↦ refused (not_found n)
  | some p ↦ elim (lookup p w.heap) [
    | none ↦ refused (not_found n)
    | some s ↦ sending w p (send_to_session data_first s d)
  ]
]

-- The registries hold functions that make a handler's body, of type `H`; `tasks` are the goroutines
-- that have been started, each with the address of its session.
pub record Service {ℓ} (H : Type ℓ) : Type ℓ where
  pub store : Store
  pub server_handlers : Map Bytes (Bytes → H)
  pub client_handlers : Map Bytes (Unit {0} → H)
  pub bidi_handlers : Map Bytes (Unit {0} → H)
  pub tasks : List (ℕ × H)

module _ {ℓ} {H : Type ℓ} where
  unfoldable pub register_server_stream_handler : Bytes → (Bytes → H) → Service H → Service H
  register_server_stream_handler method h x = record x {
    server_handlers = insert method h x.server_handlers;
  }

  unfoldable pub register_client_stream_handler : Bytes → (Unit {0} → H) → Service H → Service H
  register_client_stream_handler method h x = record x {
    client_handlers = insert method h x.client_handlers;
  }

  unfoldable pub register_bidi_stream_handler : Bytes → (Unit {0} → H) → Service H → Service H
  register_bidi_stream_handler method h x = record x {
    bidi_handlers = insert method h x.bidi_handlers;
  }

  unfoldable pub unregister_all_stream_handlers : Service H → Service H
  unregister_all_stream_handlers x = record x {
    server_handlers = [];
    client_handlers = [];
    bidi_handlers = [];
  }

  -- `StartServerStream`, `StartClientStream` and `StartBidiStream` differ in the stream's type.
  unfoldable pub start_stream : StreamType → Bytes → H → Service H → Service H × ℕ
  start_stream kind method body x =
      let (w, n) = new_stream_session method kind x.store in
      (record x { store = w; tasks = x.tasks ++ (n, body) ∷ [] }, n)

  -- The dispatchers answer -1, here `none`, for a method with no handler.
  abbrev started : Service H × ℕ → Service H × Option ℕ
  started (x, n) = (x, some n)

  unfoldable pub handle_server_stream : Bytes → Bytes → Service H → Service H × Option ℕ
  unfolding start_stream
  handle_server_stream method d x = elim (lookup method x.server_handlers) [
    | none ↦ (x, none)
    | some h ↦ started (start_stream server_stream method (h d) x)
  ]

  unfoldable pub handle_client_stream : Bytes → Service H → Service H × Option ℕ
  unfolding start_stream
  handle_client_stream method x = elim (lookup method x.client_handlers) [
    | none ↦ (x, none)
    | some h ↦ started (start_stream client_stream method (h tt) x)
  ]

  unfoldable pub handle_bidi_stream : Bytes → Service H → Service H × Option ℕ
  unfolding start_stream
  handle_bidi_stream method x = elim (lookup method x.bidi_handlers) [
    | none ↦ (x, none)
    | some h ↦ started (start_stream bidi_stream method (h tt) x)
  ]

  -- The goroutine of a stream: the handler, then the deferred `CloseStreamSession`. `exec` is what a
  -- handler's body does to the table of sessions.
  unfoldable pub run_task : (H → ℕ → Store → Option Store) → ℕ × H → Store → Option Store
  run_task exec (n, body) w = elim (exec body n w) [
    | none ↦ none
    | some w' ↦ close_stream_session n w'
  ]
