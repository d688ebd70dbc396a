-- ===== src/Session/Ending.antt =====
-- pkg/service/stream_handler.go: how a session ends, and what its functions do after that.
use synurang.Common.{
  ℕ, ◌≡◌, Bool, true, false, Bytes, Map, [], ◌∷◌, Option, some, arith, length, if◌then◌else◌,
}
use synurang.Session.{
  Session, err, is_closed, input_is_closed, failed, close_session, close_input, end_stream,
  error_stream, send_to_session, send_from_stream, send_from_stream_ffi, close_send, send_header,
  end_events, error_events, event, send_map, header_msg,
}
use synurang.Session.Encoding.{encode_pairs}

-- Between two calls: the channels are closed as the flags say.
pub record IsSound (s : Session) : Type 0 where
  pub input : s.data_chan.closed ≡ s.input_closed
  pub finished : s.done ≡ s.closed
  pub closed_input : s.closed ≡ true → s.input_closed ≡ true

abbrev pub ended : Session → Session
ended s = record s {
  closed = true;
  input_closed = true;
  done = true;
  data_chan = record s.data_chan { closed = true };
}

module _ (s : Session) (v : IsSound s) where
  -- `CloseStreamSession` never panics on a sound session, and closes all of it; a second call
  -- changes nothing.
  pub close_session_lem : close_session s ≡ some (ended s)
  unfolding close_session
  close_session_lem = ground (arith, v.closed_input)

  -- `EndStream` and `ErrorStream` never panic; the first of them closes the session and sends its
  -- messages, and on a closed session they do nothing.
  end_stream_lem :
      (order : Map Bytes Bytes → Map Bytes Bytes)
      → end_stream order s ≡ some (ended s, if s.closed then [] else end_events order s)
  unfolding end_stream send_map
  end_stream_lem order = ground (arith, v.closed_input)

  error_stream_lem :
      (message : Bytes)
      → error_stream message s ≡ some (ended s, if s.closed then [] else error_events message s)
  unfolding error_stream
  error_stream_lem message = ground (arith, v.closed_input)

  pub close_input-IsSound : (t : Session) → close_input s ≡ some t → IsSound t
  unfolding close_input
  close_input-IsSound t e = ground (arith, v.closed_input)

-- What a session that has ended still answers: nothing goes to Dart as data or as a second ending,
-- and nothing is taken from Dart.
abbrev pub Silent : Session → Type 0
Silent t =
    ((order : Map Bytes Bytes → Map Bytes Bytes) → end_stream order t ≡ some (t, []))
    × ((message : Bytes) → error_stream message t ≡ some (t, []))
    × (close_session t ≡ some t)
    × ((d : Bytes) → send_from_stream t d ≡ err (is_closed t.id))
    × (close_send t ≡ err (is_closed t.id))
    × ((data_first : Bool) (d : Bytes)
        → send_to_session data_first t d ≡ failed (input_is_closed t.id))

-- Every sound session is silent once it is ended.
ended-Silent : (s : Session) → IsSound s → Silent (ended s)
unfolding end_stream error_stream close_session send_from_stream close_send send_to_session
ended-Silent s v = ground arith

-- On a sound session `EndStream`, `ErrorStream` and `CloseStreamSession` do not panic; the first of
-- them ends the session, sending its own messages and no others, and leaves it silent, so that of
-- several endings only the first is seen.
ends_once :
    (order : Map Bytes Bytes → Map Bytes Bytes) (message : Bytes) (s : Session)
    → IsSound s
    → (end_stream order s ≡ some (ended s, if s.closed then [] else end_events order s))
      × (error_stream message s ≡ some (ended s, if s.closed then [] else error_events message s))
      × (close_session s ≡ some (ended s))
      × Silent (ended s)
ends_once order message s v = (
  end_stream_lem s v order,
  error_stream_lem s v message,
  close_session_lem s v,
  ended-Silent s v,
)

-- The zero-copy path hands Dart the message that the copying path hands it, on every branch: for a
-- message that marshals to `d`, an allocation that succeeds and a session with both callbacks or
-- with the plain one, `SendFromStreamFfi` answers as `SendFromStream` does for `d`.
send_from_stream_ffi-eq {ℓ} :
    {M : Type ℓ} (size : M → ℕ) (marshal : M → Option Bytes) (append : ℕ → M → Option Bytes)
    (s : Session) (m : M) (d : Bytes)
    → marshal m ≡ some d
    → append (size m) m ≡ marshal m
    → size m ≡ length d
    → s.callback ≡ true
    → send_from_stream_ffi size marshal append true s m ≡ send_from_stream s d
unfolding send_from_stream_ffi send_from_stream
send_from_stream_ffi-eq size marshal append s m [] e same sized cb = ground arith
send_from_stream_ffi-eq size marshal append s m (b ∷ d) e same sized cb = ground arith

-- Headers go out once, whatever happens in between: a second `SendHeader` sends nothing.
send_header_once :
    (order order' : Map Bytes Bytes → Map Bytes Bytes) (s : Session)
    → (send_header order' (send_header order s).0).1 ≡ []
unfolding send_header
send_header_once order order' s = ground arith

-- `SendHeader` does not look at `closed`: on every sound session that is open, has headers to send
-- and a callback, a `SendHeader` after `EndStream` still hands Dart the headers, after the end message.
send_header_after_end :
    (order : Map Bytes Bytes → Map Bytes Bytes) (s : Session) (k v : Bytes) (m : Map Bytes Bytes)
    → IsSound s
    → s.closed ≡ false
    → s.headers_sent ≡ false
    → s.callback ≡ true
    → s.headers ≡ (k, v) ∷ m
    → (t : Session) × (end_stream order s ≡ some (t, end_events order s))
      × ((send_header order t).1 ≡ event s header_msg (encode_pairs (order ((k, v) ∷ m))) ∷ [])
unfolding end_stream send_header send_map event
send_header_after_end order s k v m sound is_open unsent cb e =
    (ended s, ground (arith, sound.closed_input), ground arith)
