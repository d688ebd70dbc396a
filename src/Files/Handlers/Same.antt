-- ===== src/Files/Handlers/Same.antt =====
-- example/go/service/file_service.go: the handlers on a session against those on a gRPC stream.
use synurang.Common.{
  ℕ, ◌≡◌, refl, true, false, Bytes, Map, List, [], ◌∷◌, ◌++◌, Option, none, some, arith, map,
  insert, bytes_eq, chan_shut, ℤ,
}
use mathlib.Core.List.{append_assoc, append-nil}
use synurang.Session.{
  Session, Event, event, data_msg, end_msg, trailer_msg, send_from_stream, set_trailer, end_stream,
  begin_end, shut_input, shut_data, shut_done, end_events, send_map,
}
use synurang.Session.Encoding.{encode_pairs}
use synurang.Files.{buf_size, send_chunks, make_buf, remaining_of, hash_key, Stream, download_file}
use synurang.Files.Chunks.{joined, send_all, send_chunks-sends}
use synurang.Files.Transfer.{file_chunks, download_file-sends}
use synurang.Files.Handlers.{end_after, session_send, handle_download_file}

-- A session that Dart listens to and that has not ended; its input may be closed.
pub record IsOpen (s : Session) : Type 0 where
  pub open_ : s.closed ≡ false
  pub going : s.done ≡ false
  pub heard : s.callback ≡ true
  pub no_trailers : s.trailers ≡ []
  pub input : s.input_closed ≡ s.data_chan.closed

-- What Dart hears of a file at its end: the hash and the end of the stream.
abbrev pub ending : (Bytes → Bytes) → Bytes → Session → List Event
ending hex_sum bytes s =
    event s trailer_msg (encode_pairs ((hash_key, hex_sum bytes) ∷ [])) ∷ event s end_msg [] ∷ []

abbrev pub over : Bytes → Session → Session
over h s = record s {
  closed = true;
  done = true;
  input_closed = true;
  data_chan = chan_shut s.data_chan;
  trailers = (hash_key, h) ∷ [];
}

pub end_after-open :
    (order : Map Bytes Bytes → Map Bytes Bytes) (h : Bytes) (log : List Event) (s : Session)
    → IsOpen s
    → order ((hash_key, h) ∷ []) ≡ (hash_key, h) ∷ []
    → end_after order log (set_trailer hash_key h s)
      ≡ some (
        over h s,
        log ++ event s trailer_msg (encode_pairs ((hash_key, h) ∷ [])) ∷ event s end_msg [] ∷ [],
      )
unfolding end_after set_trailer end_stream begin_end shut_input shut_data shut_done end_events
    send_map event insert
end_after-open order h log s o one =
    ground (arith, one, o.open_, o.going, o.heard, o.no_trailers, o.input)

abbrev pub data_event : (Bytes → Bytes) → Session → Bytes → Event
data_event marshal s c = event s data_msg (marshal c)

hear_chunk : (Bytes → Bytes) → Session → Bytes → Session × List Event → Session × List Event
hear_chunk marshal s c w = (w.0, w.1 ++ data_event marshal s c ∷ [])

session_send-hear_chunk :
    (marshal : Bytes → Bytes) (s : Session) (c : Bytes) (w : Session × List Event)
    → IsOpen s
    → w.0 ≡ s
    → session_send (λ n s. s) marshal c w ≡ (hear_chunk marshal s c w, none)
unfolding session_send hear_chunk send_from_stream event
session_send-hear_chunk marshal s c (t, log) o e = ground (arith, e, o.open_, o.heard)

hears_same :
    (marshal : Bytes → Bytes) (s : Session) (c : Bytes) (w : Session × List Event)
    → w.0 ≡ s
    → (hear_chunk marshal s c w).0 ≡ s
unfolding hear_chunk
hears_same marshal s c w e = e

send_all-hear_chunk :
    (marshal : Bytes → Bytes) (s : Session) (cs : List Bytes) (w : Session × List Event)
    → send_all (hear_chunk marshal s) cs w ≡ (w.0, w.1 ++ map (data_event marshal s) cs)
unfolding send_all hear_chunk
send_all-hear_chunk marshal s [] (t, log) = ground (arith, append-nil log)
send_all-hear_chunk marshal s (c ∷ cs) (t, log) =
    let e = data_event marshal s c in
    ground (
      arith,
      send_all-hear_chunk marshal s cs (hear_chunk marshal s c (t, log)),
      append_assoc log (e ∷ []) (map (data_event marshal s) cs),
    )

sends_file :
    (marshal : Bytes → Bytes) (random : ℕ → ℕ → ℕ) (size : ℤ) (s : Session)
    → IsOpen s
    → send_chunks random
        (session_send (λ n s. s) marshal)
        (remaining_of size)
        0
        (remaining_of size)
        []
        (make_buf buf_size)
        (s, [])
      ≡ record {
        world = (s, map (data_event marshal s) (file_chunks random size));
        hashed = joined (file_chunks random size);
        failure = none;
      }
sends_file marshal random size s o =
    let n = remaining_of size in
    ground (
      arith,
      send_chunks-sends random (session_send (λ n s. s) marshal) (hear_chunk marshal s)
          (λ w. w.0 ≡ s) (λ c w e. session_send-hear_chunk marshal s c w o e)
          (λ c w e. hears_same marshal s c w e) n 0 n [] (make_buf buf_size) (s, []) refl,
      send_all-hear_chunk marshal s (file_chunks random size) (s, []),
    )

-- On an open session that nothing else touches, the handler sends Dart what `DownloadFile` sends on a gRPC
-- stream: each of its chunks in order, marshalled, then the trailer with the same hash, then the end. The
-- order of a map with one entry is that entry.
pub handle_download_file-same :
    (E : Type 0) (hex_sum marshal : Bytes → Bytes) (unmarshal : Bytes → Option ℤ)
    (unmarshal_error : Bytes) (random : ℕ → ℕ → ℕ) (order : Map Bytes Bytes → Map Bytes Bytes)
    (req : Bytes) (size : ℤ) (s : Session) (t : Stream)
    → IsOpen s
    → ((e : Bytes × Bytes) → order (e ∷ []) ≡ e ∷ [])
    → unmarshal req ≡ some size
    → t.sent ≡ []
    → handle_download_file hex_sum marshal unmarshal unmarshal_error random order
        (λ n s. s)
        true
        req
        s
      ≡ some (
        over (hex_sum (joined (download_file {E = E} hex_sum random (λ n. none) size t).0.sent)) s,
        map (data_event marshal s) (download_file {E = E} hex_sum random (λ n. none) size t).0.sent
            ++ ending hex_sum
                (joined (download_file {E = E} hex_sum random (λ n. none) size t).0.sent)
                s,
      )
unfolding handle_download_file
handle_download_file-same E hex_sum marshal unmarshal unmarshal_error random order req size s t o
      one u e =
    let cs = file_chunks random size in
    let h = hex_sum (joined cs) in
    ground (
      arith,
      u,
      e,
      sends_file marshal random size s o,
      end_after-open order h (map (data_event marshal s) cs) s o (one (hash_key, h)),
      download_file-sends {E = E} hex_sum random size t,
    )
