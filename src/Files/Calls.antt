-- ===== src/Files/Calls.antt =====
-- example/go/service/file_service.go: the calls that send a file to Dart, and fetch one from it, over the
-- sessions of pkg/service. What others do while a call waits is part of its schedule.
pub mod Claims
mod Tests
use synurang.Common.{
  ℕ, zero, suc, ◌+◌, ◌%◌, ◌^◌, Bool, true, false, Bytes, List, [], ◌∷◌, ◌++◌, Option, none, some,
  str, length, lookup, nat_eq, ℤ,
}
use synurang.Session.{Session, Event, client_stream, server_stream, ok, err, send_from_stream}
use synurang.Core.{Config}
use synurang.Core.Dart.{
  World, Dart, Failure, no_callback, callback_failed, unmarshal_failed, timed_out, send_failed,
  Outcome, returned, fails, running, crashed, Turn, Stage, chunk, no_more, is_done, expired,
  goes_on, wait_data, open_session, method_with_id, deferred, send_end, await_response,
}
use synurang.Files.{buf_size, Sending, send_chunks, make_buf, remaining_of}

-- What a call reports: the size, the number of chunks and the hash.
pub record Report : Type 0 where
  pub size : ℕ
  pub chunk_count : ℕ
  pub hash : Bytes

unfoldable pub hear_all : Dart → List Event → World → World
hear_all dart [] w = w
hear_all dart (e ∷ es) w = hear_all dart es (dart.hears e (record w { log = w.log ++ e ∷ [] }))

-- One send of the loop, with the number of chunks so far.
unfoldable pub dart_send :
    (marshal : Bytes → Bytes) → Dart → ℕ → Bytes → World × ℕ → (World × ℕ) × Option Failure
unfolding send_from_stream hear_all
dart_send marshal dart n c (w, count) = elim (lookup n w.store.heap) [
  | none ↦ ((w, count), none)
  | some s ↦ elim (send_from_stream s (marshal c)) [
    | err e ↦ ((w, count), some (send_failed count e))
    | ok es ↦ ((hear_all dart es w, suc count), none)
  ]
]

module _ (hex_sum marshal : Bytes → Bytes) (timer : Config) where
  -- The answer to the status that came, which is said to be verified.
  abbrev pub uploaded : Sending (World × ℕ) Failure → World × Outcome ℕ → World × Outcome Report
  uploaded r (w, returned size) =
      (w, returned (record { size = size; chunk_count = r.world.1; hash = hex_sum r.hashed }))
  uploaded r (w, fails f) = (w, fails f)
  uploaded r (w, running) = (w, running)
  uploaded r (w, crashed) = (w, crashed)

  -- From the end of the loop on. `timer` has the 30 seconds of the wait.
  unfoldable pub after_chunks :
      (unmarshal_status : Bytes → Option ℕ)
      → Dart
      → List Turn
      → ℕ
      → Sending (World × ℕ) Failure
      → World × Outcome Report
  unfolding send_end await_response
  after_chunks unmarshal_status dart turns n r = elim r.failure [
    | some f ↦ (r.world.0, fails f)
    | none ↦
        let w = send_end (λ m. none) unmarshal_status dart n r.world.0 in
        uploaded r (await_response (λ m. none) unmarshal_status timer turns n w)
  ]

  -- `CallDartUploadFile` after the session is made.
  unfoldable pub upload_to_dart :
      (unmarshal_status : Bytes → Option ℕ) (random : ℕ → ℕ → ℕ)
      → Dart
      → List Turn
      → Bytes
      → ℤ
      → ℕ
      → World
      → World × Outcome Report
  unfolding method_with_id send_chunks dart_send make_buf after_chunks
  upload_to_dart unmarshal_status random dart turns method size n w =
      let (v, r) = dart.callback (method_with_id method n) [] w in
      elim r [
        | none ↦ (v, fails callback_failed)
        | some reply ↦ after_chunks unmarshal_status dart turns n (
            send_chunks random (dart_send marshal dart n) (remaining_of size) 0 (remaining_of size)
              [] (make_buf buf_size) (v, 0))
      ]

  unfoldable pub call_dart_upload_file :
      (unmarshal_status : Bytes → Option ℕ) (random : ℕ → ℕ → ℕ)
      → Option Dart
      → List Turn
      → Bytes
      → ℤ
      → World
      → World × Outcome Report
  unfolding open_session deferred upload_to_dart
  call_dart_upload_file unmarshal_status random none turns method size w = (w, fails no_callback)
  call_dart_upload_file unmarshal_status random (some dart) turns method size w =
      let (v, n) = open_session method client_stream w in
      deferred n (upload_to_dart unmarshal_status random dart turns method size n v)

  -- The loop of `CallDartDownloadFile`, by the looks at its select.
  unfoldable pub download_chunks :
      (unmarshal : Bytes → Option Bytes)
      → List Turn
      → ℕ
      → (hashed : Bytes) (received count : ℕ) → World
      → World × Outcome Report
  unfolding wait_data
  download_chunks unmarshal [] n hashed received count w = (w, running)
  download_chunks unmarshal (t ∷ ts) n hashed received count w =
      elim (wait_data timer n t.pick t.fired (t.between w)) [
        | chunk d v ↦ elim (unmarshal d) [
          | none ↦ (v, fails unmarshal_failed)
          | some c ↦
              download_chunks unmarshal ts n (hashed ++ c) ((received + length c) % 2 ^ 64)
                (suc count) v
        ]
        | no_more ↦ (
          t.between w,
          returned (record { size = received; chunk_count = count; hash = hex_sum hashed }),
        )
        | is_done ↦ (t.between w, running)
        | expired ↦ (t.between w, fails timed_out)
        | goes_on ↦ download_chunks unmarshal ts n hashed received count (t.between w)
      ]

  unfoldable pub download_from_dart :
      (unmarshal : Bytes → Option Bytes) (marshal_size : ℤ → Bytes)
      → Dart
      → List Turn
      → Bytes
      → ℤ
      → ℕ
      → World
      → World × Outcome Report
  unfolding method_with_id download_chunks
  download_from_dart unmarshal marshal_size dart turns method size n w =
      let (v, r) = dart.callback (method_with_id method n) (marshal_size size) w in
      elim r [
        | none ↦ (v, fails callback_failed)
        | some reply ↦ download_chunks unmarshal turns n [] 0 0 v
      ]

  unfoldable pub call_dart_download_file :
      (unmarshal : Bytes → Option Bytes) (marshal_size : ℤ → Bytes)
      → Option Dart
      → List Turn
      → Bytes
      → ℤ
      → World
      → World × Outcome Report
  unfolding open_session deferred download_from_dart
  call_dart_download_file unmarshal marshal_size none turns method size w = (w, fails no_callback)
  call_dart_download_file unmarshal marshal_size (some dart) turns method size w =
      let (v, n) = open_session method server_stream w in
      deferred n (download_from_dart unmarshal marshal_size dart turns method size n v)
