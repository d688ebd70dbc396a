-- ===== src/Files/Handlers.antt =====
-- example/go/service/file_service.go: the handlers of the calls that come from Dart, on a streaming session.
-- `between` is what other goroutines do to the session before the handler looks at it again; `order` is the
-- order in which the runtime visits a map.
pub mod Same
pub mod Uploading
use synurang.Common.{
  ℕ, zero, suc, ◌+◌, ◌%◌, ◌^◌, Bool, true, false, Bytes, Map, List, [], ◌∷◌, ◌++◌, Option, none,
  some, str, length, if◌then◌else◌, ◌&&◌, got, drained, empty, chan_recv, ℤ,
}
use synurang.Session.{
  Session, Event, Error, ok, err, send_from_stream, set_trailer, end_stream, error_stream,
}
use synurang.Files.{buf_size, Sending, send_chunks, make_buf, remaining_of, hash_key}

-- `session.EndStream()` after these events; `none` is a panic.
unfoldable pub end_after :
    (Map Bytes Bytes → Map Bytes Bytes) → List Event → Session → Option (Session × List Event)
unfolding end_stream
end_after order log s = elim (end_stream order s) [
  | none ↦ none
  | some (t, es) ↦ some (t, log ++ es)
]

unfoldable pub error_after : Bytes → List Event → Session → Option (Session × List Event)
unfolding error_stream
error_after message log s = elim (error_stream message s) [
  | none ↦ none
  | some (t, es) ↦ some (t, log ++ es)
]

abbrev pub not_ready : Bytes
not_ready = str "stream not ready or closed"

-- One send of the loop.
unfoldable pub session_send :
    (between : ℕ → Session → Session) (marshal : Bytes → Bytes)
    → Bytes
    → Session × List Event
    → (Session × List Event) × Option Error
unfolding send_from_stream
session_send between marshal c (s, log) =
    let s' = between (length log) s in
    elim (send_from_stream s' (marshal c)) [
      | err e ↦ ((s', log), some e)
      | ok es ↦ ((s', log ++ es), none)
    ]

-- `HandleDownloadFile`. `ready`: `WaitForReady` says so. `unmarshal` gives the size, or the error's text.
unfoldable pub handle_download_file :
    (hex_sum marshal : Bytes → Bytes) (unmarshal : Bytes → Option ℤ) (unmarshal_error : Bytes)
    (random : ℕ → ℕ → ℕ) (order : Map Bytes Bytes → Map Bytes Bytes)
    (between : ℕ → Session → Session) (ready : Bool) (req_data : Bytes)
    → Session
    → Option (Session × List Event)
unfolding send_chunks session_send make_buf set_trailer end_after error_after
handle_download_file hex_sum marshal unmarshal unmarshal_error random order between ready req_data
      s =
    if ready
    then (elim (unmarshal req_data) [
      | none ↦ error_after unmarshal_error [] s
      | some size ↦
          let n = remaining_of size in
          let r =
            send_chunks random (session_send between marshal) n 0 n [] (make_buf buf_size)
              (s, []) in
          elim r.failure [
            | some e ↦ some r.world
            | none ↦ end_after order r.world.1 (set_trailer hash_key (hex_sum r.hashed) r.world.0)
          ]
    ])
    else error_after not_ready [] s

-- One look at a select; `done_first` prefers `DoneChan`.
pub record Look : Type 0 where
  pub before : Session → Session
  pub done_first : Bool

-- A handler that has returned, or one that still waits when the looks are over.
pub data Handled : Type 0 where
  returned : Option (Session × List Event) → Handled
  waiting : Session → List Event → Handled

module _ (hex_sum : Bytes → Bytes) (marshal_size : ℕ → Bytes) (unmarshal : Bytes → Option Bytes)
    (unmarshal_error : Bytes) (order : Map Bytes Bytes → Map Bytes Bytes) where
  -- From the end of the input on; the error of the send is dropped.
  unfoldable pub finish_upload :
      (hashed : Bytes) (total : ℕ) → Session → Option (Session × List Event)
  unfolding set_trailer send_from_stream end_after
  finish_upload hashed total s =
      let s' = set_trailer hash_key (hex_sum hashed) s in
      elim (send_from_stream s' (marshal_size total)) [
        | err e ↦ end_after order [] s'
        | ok es ↦ end_after order es s'
      ]

  -- `HandleUploadFile`
  unfoldable pub handle_upload_file : List Look → (hashed : Bytes) (total : ℕ) → Session → Handled
  unfolding finish_upload error_after
  handle_upload_file [] hashed total s = waiting s []
  handle_upload_file (l ∷ ls) hashed total s =
      let s' = l.before s in
      if l.done_first && s'.done then returned (some (s', [])) else (elim (chan_recv s'.data_chan) [
        | got d c ↦ elim (unmarshal d) [
          | none ↦ returned (error_after unmarshal_error [] (record s' { data_chan = c }))
          | some content ↦
              handle_upload_file ls (hashed ++ content) ((total + length content) % 2 ^ 64)
                (record s' { data_chan = c })
        ]
        | drained ↦ returned (finish_upload hashed total s')
        | empty ↦
            if s'.done then returned (some (s', [])) else handle_upload_file ls hashed total s'
      ])

-- The loop of `HandleBidiFile`.
unfoldable pub echo_chunks :
    (Map Bytes Bytes → Map Bytes Bytes) → List Look → List Event → Session → Handled
unfolding send_from_stream end_after
echo_chunks order [] log s = waiting s log
echo_chunks order (l ∷ ls) log s =
    let s' = l.before s in
    if l.done_first && s'.done then returned (some (s', log)) else (elim (chan_recv s'.data_chan) [
      | got d c ↦
          let u = record s' { data_chan = c } in
          elim (send_from_stream u d) [
            | err e ↦ returned (some (u, log))
            | ok es ↦ echo_chunks order ls (log ++ es) u
          ]
      | drained ↦ returned (end_after order log s')
      | empty ↦ if s'.done then returned (some (s', log)) else echo_chunks order ls log s'
    ])

unfoldable pub handle_bidi_file :
    (Map Bytes Bytes → Map Bytes Bytes) → (ready : Bool) → List Look → Session → Handled
unfolding echo_chunks error_after
handle_bidi_file order ready looks s =
    if ready then echo_chunks order looks [] s else returned (error_after not_ready [] s)
