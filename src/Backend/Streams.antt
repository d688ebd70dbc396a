-- ===== src/Backend/Streams.antt =====
-- cmd/server/main.go: the exports that open, close and announce streams, and the callbacks that carry a
-- stream's events to Dart. The identifiers cross as patterns of 64 bits.
use synurang.Common.{ℕ, Bool, true, Bytes, [], ◌∷◌, Option, none, some, if◌then◌else◌, length}
use synurang.Session.{Event, msg_code}
use synurang.Session.Store.{
  Store, Service, handle_client_stream, handle_bidi_stream, close_stream_session,
  close_stream_input, signal_stream_ready, set_stream_callback, set_stream_callback_ffi,
}
use synurang.Plugin.Platform.{c_string}

module _ {ℓ} {H : Type ℓ} where
  unfoldable pub invoke_backend_client_stream : Bytes → Service H → Service H × Option ℕ
  unfolding c_string handle_client_stream
  invoke_backend_client_stream method x = handle_client_stream (c_string method) x

  unfoldable pub invoke_backend_bidi_stream : Bytes → Service H → Service H × Option ℕ
  unfolding c_string handle_bidi_stream
  invoke_backend_bidi_stream method x = handle_bidi_stream (c_string method) x

unfoldable pub close_stream : ℕ → Store → Option Store
unfolding close_stream_session
close_stream id w = close_stream_session id w

unfoldable pub close_input : ℕ → Store → Option Store
unfolding close_stream_input
close_input id w = close_stream_input id w

unfoldable pub stream_ready : ℕ → Store → Option Store
unfolding signal_stream_ready
stream_ready id w = signal_stream_ready id w

-- Both of the service's callbacks are set, also where `callback` is nil.
unfoldable pub register_stream_callback : Store → Store
unfolding set_stream_callback set_stream_callback_ffi
register_stream_callback w = set_stream_callback_ffi true (set_stream_callback true w)

-- What Dart is called with: no pointer for empty data.
pub record Call : Type 0 where
  pub stream_id : ℕ
  pub msg_type : ℕ
  pub pointer : Option Bytes
  pub len : ℕ

-- The callback that is set: it does nothing where Dart's is nil.
unfoldable pub stream_callback : (registered : Bool) → Event → Option Call
unfolding msg_code
stream_callback registered e =
    if registered
    then some (record {
      stream_id = e.stream_id;
      msg_type = msg_code e.msg_type;
      pointer = elim e.payload [ [] ↦ none | b ∷ bs ↦ some (b ∷ bs) ];
      len = length e.payload;
    })
    else none
