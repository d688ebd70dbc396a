-- ===== src/Files/Calls/Tests.antt =====
-- A file of three bytes that is sent to Dart, and one that Dart echoes.
use synurang.Common.{
  ℕ, ◌+◌, ◌≡◌, refl, true, false, Bytes, List, [], ◌∷◌, Option, none, some, str, length, pos,
  lookup, insert, bytes_beq,
}
use synurang.Session.{Session, client_stream, send_from_stream, close_send, event}
use synurang.Session.Store.{new_stream_session, close_stream_session}
use synurang.Core.{Config}
use synurang.Core.Dart.{
  World, Dart, returned, Turn, data_case, open_session, deferred, close_then, method_with_id,
  print_id, digits, send_end, await_response, wait_data, poll_data, poll_timer,
}
use synurang.Files.{send_chunks, read_into, block, make_buf}
use synurang.Files.Chunks.{joined}
use synurang.Files.Transfer.{file_chunks}
use synurang.Files.Calls.{
  Report, call_dart_upload_file, upload_to_dart, after_chunks, dart_send, hear_all,
}
use synurang.Files.Calls.Claims.{call_dart_upload_file-hash}
use synurang.Files.Echo.{
  call_dart_bidi_file, echo_with_dart, echo_loop, await_hash, select_echo, sender_step, verified,
  sender_turn, look_turn,
}
use synurang.Files.Echo.Verified.{call_dart_bidi_file-verified}

abbrev random : ℕ → ℕ → ℕ
random round i = round + i

abbrev checksum : Bytes → Bytes
checksum bytes = length bytes ∷ []

abbrev same : Bytes → Bytes
same c = c

abbrev half_minute : Config
half_minute = record {
  view_socket_path = [];
  view_tcp_port = [];
  token = [];
  cache_path = [];
  enable_cache = false;
  stream_timeout = pos 30000000000;
}

-- The session of the call, with what Dart will have sent.
abbrev session : List Bytes → Session
session answers = record {
  id = 7;
  method = str "/s/M";
  kind = client_stream;
  data_chan = record { buf = answers; cap = 100; closed = true };
  done = false;
  ready = true;
  callback = true;
  callback_ffi = false;
  headers = [];
  headers_sent = false;
  trailers = [];
  closed = false;
  input_closed = true;
}

abbrev world : List Bytes → World
world answers = record {
  store = record {
    heap = (7, session answers) ∷ [];
    registry = [];
    next_id = 7;
    callback = true;
    callback_ffi = false;
  };
  log = [];
}

abbrev start : World
start = record {
  store = record { heap = []; registry = []; next_id = 6; callback = true; callback_ffi = false };
  log = [];
}

abbrev dart : List Bytes → Dart
dart answers = record { callback = λ method d w. (world answers, some []); hears = λ e w. w }

abbrev status : Bytes → Option ℕ
status [] = none
status (n ∷ d) = some n

abbrev quiet : Turn
quiet = record { between = λ w. w; pick = data_case; fired = false }

abbrev report : Report
report = record { size = 3; chunk_count = 1; hash = 3 ∷ [] }

-- Dart says that it received nothing.
abbrev unread : Report
unread = record { size = 0; chunk_count = 1; hash = 3 ∷ [] }

uploaded_to_dart :
    (call_dart_upload_file checksum same half_minute status random
      (some (dart ((0 ∷ []) ∷ [])))
      (quiet ∷ [])
      (str "/s/M")
      (pos 3)
      start).1
    ≡ returned unread
unfolding call_dart_upload_file upload_to_dart after_chunks dart_send hear_all open_session deferred
    close_then method_with_id print_id digits send_end await_response wait_data poll_data poll_timer
    send_chunks read_into block make_buf lookup insert send_from_stream close_send event
    new_stream_session close_stream_session
uploaded_to_dart = refl

call_dart_upload_file-hash_example : unread.hash ≡ checksum (joined (file_chunks random (pos 3)))
call_dart_upload_file-hash_example =
    call_dart_upload_file-hash checksum same half_minute status random (some (dart ((0 ∷ []) ∷ [])))
      (quiet ∷ []) (str "/s/M") (pos 3) start unread uploaded_to_dart

echoed :
    (call_dart_bidi_file checksum same random
      (λ d. some d)
      (some (dart ((0 ∷ 1 ∷ 2 ∷ []) ∷ [])))
      (sender_turn (λ w. w)
        ∷ look_turn (λ w. w) data_case false
        ∷ sender_turn (λ w. w)
        ∷ look_turn (λ w. w) data_case false
        ∷ look_turn (λ w. w) data_case false
        ∷ [])
      (str "/s/M")
      (pos 3)
      start).1
    ≡ returned (verified report)
unfolding call_dart_bidi_file echo_with_dart echo_loop await_hash select_echo sender_step dart_send
    hear_all open_session deferred close_then method_with_id print_id digits send_end poll_data
    read_into block make_buf lookup insert send_from_stream close_send event new_stream_session
    close_stream_session bytes_beq
echoed = refl

call_dart_bidi_file-verified_example : report.hash ≡ checksum (joined (file_chunks random (pos 3)))
call_dart_bidi_file-verified_example =
    call_dart_bidi_file-verified checksum same random (pos 3) (λ d. some d)
      (some (dart ((0 ∷ 1 ∷ 2 ∷ []) ∷ [])))
      (sender_turn (λ w. w)
        ∷ look_turn (λ w. w) data_case false
        ∷ sender_turn (λ w. w)
        ∷ look_turn (λ w. w) data_case false
        ∷ look_turn (λ w. w) data_case false
        ∷ [])
      (str "/s/M") start report echoed
