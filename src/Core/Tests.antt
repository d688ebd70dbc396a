-- ===== src/Core/Tests.antt =====
-- Calls into Dart whose messages are chunks that are not empty.
use synurang.Common.{
  ℕ, ◌≡◌, ◌+◌, refl, true, false, Bytes, [], ◌∷◌, Option, none, some, arith, pos, str, lookup,
  nat_eq,
}
use synurang.Session.{Session, server_stream, bidi_stream}
use synurang.Common.{◌++◌, nat_beq_iff, List}
use synurang.Session.Store.{get_stream_session}
use synurang.Session.Store.Laws.{IsValid}
use synurang.Core.Dart.{timed_out}
use synurang.Core.Bidi.{after_timeout}
use synurang.Core.Bidi.Returning.{looks, after_timeout_returns}
use synurang.Core.{Config, Metadata, handled, auth_interceptor}
use synurang.Core.Auth.{auth_interceptor_lem, Admitted, IsRefused}
use synurang.Core.Dart.{
  World, Dart, returned, data_case, done_case, print_id, open_session, invoke_dart_stream,
  invoke_dart_client_stream,
}
use synurang.Core.Dart.Collecting.{look, Started, stream_truncates}
use synurang.Core.Dart.Releasing.{Free, FreeOnFailure, calls_release}

abbrev config : Config
config = record {
  view_socket_path = [];
  view_tcp_port = [];
  token = str "secret";
  cache_path = [];
  enable_cache = false;
  stream_timeout = pos 0;
}

print_id_test : (print_id 0 ≡ str "0") × (print_id 1207 ≡ str "1207")
unfolding print_id
print_id_test = (refl, refl)

-- A handler that counts.
abbrev counts : ℕ → ℕ × ℕ
counts n = (n + 1, n)

abbrev wrong : Metadata
wrong k = str "Bearer secre" ∷ []

auth_interceptor_lem_example :
    (Admitted config (some wrong) → auth_interceptor config (some wrong) counts 4 ≡ (5, handled 4))
    × ((Admitted config (some wrong) → ⊥)
        → IsRefused 4 (auth_interceptor config (some wrong) counts 4))
auth_interceptor_lem_example = (auth_interceptor_lem config counts 4 (some wrong)).0

abbrev encode : Bytes → Option Bytes
encode [] = none
encode (c ∷ m) = some (c ∷ m)

abbrev empty_world : World
empty_world = record {
  store = record { heap = []; registry = []; next_id = 6; callback = true; callback_ffi = false };
  log = [];
}

-- Session 7 after Dart has sent two chunks and closed the stream.
abbrev ended : Session
ended = record {
  id = 7;
  method = str "/s/M";
  kind = server_stream;
  data_chan = record { buf = str "a" ∷ str "b" ∷ []; cap = 100; closed = true };
  done = true;
  ready = false;
  callback = true;
  callback_ffi = false;
  headers = [];
  headers_sent = false;
  trailers = [];
  closed = true;
  input_closed = true;
}

abbrev after : World
after = record {
  store = record {
    heap = (7, ended) ∷ [];
    registry = [];
    next_id = 7;
    callback = true;
    callback_ffi = false;
  };
  log = [];
}

abbrev sends_two : Dart
sends_two = record { callback = λ method d w. (after, some []); hears = λ e w. w }

abbrev refuses : Dart
refuses = record { callback = λ method d w. (w, none); hears = λ e w. w }

started :
    Started encode encode config sends_two
      (str "/s/M")
      (str "q")
      (str "a" ∷ str "b" ∷ [])
      empty_world
      after
unfolding open_session lookup
started = record {
  body = str "q";
  answer = [];
  marshalled = refl;
  called = refl;
  waits = record { session = ended; found = refl; over = refl; chunks = refl };
}

stream_truncates_example :
    (invoke_dart_stream encode encode config
      (some sends_two)
      (look data_case false ∷ look done_case false ∷ [])
      (str "/s/M")
      (str "q")
      empty_world).1
    ≡ returned (str "a" ∷ [])
stream_truncates_example =
    stream_truncates encode encode config sends_two (str "/s/M") (str "q") (str "a" ∷ str "b" ∷ [])
      empty_world after (false ∷ []) false started (omega arith)

calls_release_example :
    FreeOnFailure
      (open_session (str "/s/M") server_stream empty_world).1
      (invoke_dart_stream encode encode config (some refuses) [] (str "/s/M") (str "q") empty_world)
    × Free (open_session (str "/s/M") bidi_stream empty_world).1 (
        invoke_dart_client_stream encode encode
          (λ m. [])
          config
          (some refuses)
          []
          (str "/s/M")
          (str "q" ∷ [])
          empty_world)
calls_release_example =
    calls_release encode encode config refuses [] (str "/s/M") empty_world (λ m. []) (str "q")
      (str "q" ∷ [])

abbrev live : Session
live = record ended {
  closed = false;
  done = false;
  input_closed = false;
  kind = bidi_stream;
  data_chan = record { buf = []; cap = 100; closed = false };
}

abbrev open_world : World
open_world = record after { store = record after.store { heap = (7, live) ∷ [] } }

-- Session 7 with a chunk and an empty chunk, which is no message.
abbrev busy : Session
busy = record live { data_chan = record { buf = str "a" ∷ [] ∷ []; cap = 100; closed = false } }

abbrev busy_world : World
busy_world = record {
  store = record {
    heap = (7, busy) ∷ [];
    registry = (7, 7) ∷ [];
    next_id = 7;
    callback = true;
    callback_ffi = false;
  };
  log = [];
}

busy-IsValid : IsValid busy_world.store
unfolding lookup
busy-IsValid = record {
  counted = omega arith;
  named = λ n p e. ground (arith, nat_beq_iff 7 n);
  stored = λ n s e. ground (arith, nat_beq_iff 7 n);
  present = λ n e. ground (arith, nat_beq_iff 7 n);
}

after_timeout_returns_example :
    (u : World) × (read : List Bytes) × (unread : List Bytes) × (after_timeout encode encode
        (looks ((data_case, false) ∷ (data_case, true) ∷ (done_case, false) ∷ []))
        7
        (str "z" ∷ [])
        busy_world
      ≡ (u, returned (str "z" ∷ read, some timed_out)))
    × (read ++ unread ≡ str "a" ∷ [])
    × (lookup 7 u.store.registry ≡ none)
unfolding lookup get_stream_session
after_timeout_returns_example =
    after_timeout_returns encode encode 7
      ((data_case, false) ∷ (data_case, true) ∷ (done_case, false) ∷ []) (str "z" ∷ []) busy_world
      busy busy-IsValid refl (omega arith)
