-- ===== src/Backend/Tests.antt =====
-- Runs of cmd/server/main.go, and its theorems at concrete inputs.
use synurang.Common.{
  ℕ, ◌≡◌, refl, Bytes, Map, [], ◌∷◌, Option, none, some, arith, str, lookup, insert, bytes_eq,
  bytes_beq, All,
}
use synurang.Common.{suc, ◌+◌, ◌++◌, Bool, true, false, ℤ, pos, ◌⊎◌, inl, length}
use synurang.Cache.Table.{run}
use synurang.Cache.ListEngine.{list_engine, last_rowid}
use synurang.Cache.Service.{Cache}
use synurang.Backend.Lifecycle.{
  CoreArgument, settings, Machine, Backend, serve, serve_each, start_grpc_server, stop_grpc_server,
}
use synurang.Backend.Restart.{opened, closed, stop-start}
use synurang.Backend.Invoke.{
  Failure, meta_bytes, invoke_backend, invoke_backend_with_meta, invoke_with_meta-eq, answer,
}
use synurang.Backend.Exports.{cache_get, cache_put, cache_get-cache_put}
use synurang.Common.{nat_eq, make_chan, lookup-insert}
use synurang.Requests.{Handler, new_handler, create_request, answered}
use synurang.Backend.Callback.{called, dart_callback, answers, dart_callback-answers, Spares}
use synurang.Session.Encoding.{encode_pairs}
use synurang.Backend.Metadata.{parse_metadata, split_lines, index_of}
use synurang.Backend.MetadataLaws.{IsClean, parse_metadata-encode_pairs}

-- One digit is enough for the tests.
abbrev digit : Bytes → Option ℕ
digit (d ∷ []) = some d
digit _ = none

parse_runs :
    parse_metadata digit 0 (str "a=b=c\n\n=x\n__timeout_ms=7\nk=")
    ≡ ((str "a", str "b=c") ∷ (str "k", []) ∷ [], b'7')
unfolding parse_metadata insert bytes_beq
parse_runs = refl

abbrev sample : Map Bytes Bytes
sample = (str "a", str "1=2") ∷ (str "b", []) ∷ []

sample-IsClean : All IsClean sample
sample-IsClean = ground arith

parse_metadata-encode_pairs_example :
    ((q : Bytes) → lookup q (parse_metadata digit 0 (encode_pairs sample)).0 ≡ lookup q sample)
    × ((parse_metadata digit 0 (encode_pairs sample)).1 ≡ 0)
unfolding lookup bytes_beq
parse_metadata-encode_pairs_example =
    parse_metadata-encode_pairs digit 0 sample sample-IsClean (refl, (refl, tt))

abbrev machine : Machine
machine = record { exists = λ p. true; can_listen = λ l. true }

abbrev stopped : Backend Bytes Bytes
stopped = record {
  running = false;
  impl = none;
  listeners = [];
  pending = [];
  served = [];
  default_timeout = pos 0;
  effects = [];
}

abbrev argument : CoreArgument
argument = record {
  storage_path = some (str "/data");
  cache_path = none;
  engine_socket_path = none;
  engine_tcp_port = some (str "80");
  view_socket_path = none;
  view_tcp_port = none;
  token = none;
  enable_cache = 1;
  stream_timeout = 5;
}

timeout_test : (settings argument).config.stream_timeout ≡ pos 5_000_000
unfolding settings
timeout_test = refl

abbrev started : Backend Bytes Bytes × Bool
unfolding start_grpc_server
started = start_grpc_server some some machine false argument stopped

stop-start_example :
    (started.1 ≡ true)
    × ((c : Backend Bytes Bytes) × (serve_each (1 ∷ []) started.0 ≡ some c)
        × (length c.served + length c.pending ≡ length started.0.listeners + length stopped.pending)
        × (start_grpc_server some some machine false argument c ≡ (c, false))
        × (((stop_grpc_server (λ ls. ls) c).running ≡ false)
            × ((stop_grpc_server (λ ls. ls) c).impl ≡ none)
            × ((stop_grpc_server (λ ls. ls) c).listeners ≡ [])
            × (stop_grpc_server (λ ls. ls) (stop_grpc_server (λ ls. ls) c)
                ≡ stop_grpc_server (λ ls. ls) c)
            × (closed (stop_grpc_server (λ ls. ls) c).effects
                ≡ c.served ++ opened (stop_grpc_server (λ ls. ls) c).effects)
            × ((c.pending ≡ []) ⊎ (serve 0 (stop_grpc_server (λ ls. ls) c) ≡ none))))
unfolding started
stop-start_example =
    stop-start some some machine (λ ls. ls) false argument argument (1 ∷ []) stopped refl refl

-- A service that answers the method's name, with a counter of its calls.
abbrev echo : Unit {0} → Option ℤ → Bytes → Bytes → ℕ → ℕ × (Bytes ⊎ Failure Bytes)
echo s timeout method d n = (suc n, inl method)

-- A line that is given twice, one without a `=`, and one past the length.
abbrev odd_metadata : Bytes
odd_metadata = str "a=b\na=c\n__timeout_ms\n__timeout_ms=7"

invoke_with_meta-eq_example :
    invoke_backend_with_meta
      (λ p. p)
      echo
      (λ v. none)
      (some tt)
      (str "/m")
      (str "abc")
      (pos 2)
      odd_metadata
      (pos 20)
      3
    ≡ invoke_backend (λ p. p) echo (some tt) (str "/m") (str "abc") (pos 2) 3
unfolding meta_bytes split_lines index_of bytes_beq
invoke_with_meta-eq_example =
    invoke_with_meta-eq (λ p. p) echo (λ v. none) (some tt) (str "/m") (str "abc") (pos 2)
      odd_metadata (pos 20) 3 (ground arith, (ground arith, (tt, tt)))

abbrev empty_cache : Cache list_engine
empty_cache = record {
  db = [];
  db_closed = false;
  max_entries = [];
  max_bytes = [];
  access_chan = record { buf = []; cap = 4096; closed = false };
  cancelled = false;
  closed = false;
  paused = false;
  timer = false;
}

abbrev put_cache : Cache list_engine
put_cache = record empty_cache {
  db =
      record {
        rowid = 1;
        store_name = str "s";
        key = str "k";
        value = str "ab";
        expires_at = pos 15;
        accessed_at = 12;
        size = 2;
      }
      ∷ [];
}

put_runs :
    cache_put list_engine 10 12 (str "s") (str "k") (str "abc") (pos 2) (pos 5) (some empty_cache)
    ≡ some (some put_cache, true)
unfolding cache_put run last_rowid
put_runs = refl

cache_get-cache_put_example :
    (cache_get list_engine 14 20 (str "s") (str "k") (some put_cache)).1 ≡ answer (str "ab")
cache_get-cache_put_example =
    cache_get-cache_put list_engine 10 12 14 20 (str "s") (str "k") (str "abc") 2 (pos 5)
      empty_cache put_cache refl put_runs (omega arith) refl

-- Another call's request is made in between.
abbrev other_call : Handler → Handler
other_call h = record h {
  pending = insert 9 9 h.pending;
  channels = insert 9 (make_chan 1) h.channels;
}

other_call-Spares : Spares 1 other_call
other_call-Spares h = (
  ground (arith, lookup-insert 9 1 9 h.pending),
  ground (arith, lookup-insert 9 1 (make_chan 1) h.channels),
)

dart_callback-answers_example :
    (h : Handler) × (dart_callback
        (some (answers other_call other_call (λ d. b'!' ∷ d)))
        false
        false
        (str "/m")
        (str "x")
        new_handler
      ≡ called h (answered (str "!x")))
    × (lookup 1 h.pending ≡ none)
unfolding create_request new_handler
dart_callback-answers_example =
    dart_callback-answers other_call other_call (λ d. b'!' ∷ d) false (str "/m") (str "x")
      new_handler other_call-Spares other_call-Spares
