-- ===== src/Session.antt =====
-- pkg/service/stream_handler.go: one streaming session between Go and Dart. A function of the file
-- that works on one session is a function here; `none` is a run-time panic. Locks are held over
-- each function's critical section, and `Session/Race.antt` interleaves the sections.
pub mod Encoding
pub mod Ending
mod Tests
pub mod Store
pub mod Race
use synurang.Common.{
  ℕ, Bool, true, false, Bytes, Map, List, [], ◌∷◌, ◌++◌, Option, none, some, Chan, Sent, accepted,
  full, panics, make_chan, chan_send, chan_shut, insert, str, if◌then◌else◌, not, ◌&&◌, ◌||◌,
  length, ltb, bytes_eq,
}
use Encoding.{encode_pairs}

-- The message types of the FFI protocol.
pub data MsgType : Type 0 where
  start_msg data_msg end_msg error_msg trailer_msg header_msg : MsgType

unfoldable pub msg_code : MsgType → ℕ
msg_code start_msg = 0x01
msg_code data_msg = 0x02
msg_code end_msg = 0x03
msg_code error_msg = 0x04
msg_code trailer_msg = 0x05
msg_code header_msg = 0x06

pub data StreamType : Type 0 where
  server_stream client_stream bidi_stream : StreamType

-- A signal channel (`DoneChan`, `ReadyChan`) carries no value: it is open or closed. A callback is
-- registered or nil. `headers` and `trailers` are [] for a nil map.
pub record Session : Type 0 where
  pub id : ℕ
  pub method : Bytes
  pub kind : StreamType
  pub data_chan : Chan Bytes
  pub done : Bool
  pub ready : Bool
  pub callback : Bool
  pub callback_ffi : Bool
  pub headers : Map Bytes Bytes
  pub headers_sent : Bool
  pub trailers : Map Bytes Bytes
  pub closed : Bool
  pub input_closed : Bool

-- One call of a callback.
pub record Event : Type 0 where
  pub stream_id : ℕ
  pub msg_type : MsgType
  pub payload : Bytes

pub data Error : Type 0 where
  not_found input_is_closed is_closed : ℕ → Error
  no_memory marshal_failed : Error

abbrev pub data_capacity : ℕ
data_capacity = 100

unfoldable pub new_session : ℕ → Bytes → StreamType → Bool → Bool → Session
new_session n method kind cb cb_ffi = record {
  id = n;
  method = method;
  kind = kind;
  data_chan = make_chan data_capacity;
  done = false;
  ready = false;
  callback = cb;
  callback_ffi = cb_ffi;
  headers = [];
  headers_sent = false;
  trailers = [];
  closed = false;
  input_closed = false;
}

-- `close(s.DataChan)` and `close(s.DoneChan)`: a second close panics.
unfoldable pub shut_data : Session → Option Session
shut_data s =
    if s.data_chan.closed then none else some (record s { data_chan = chan_shut s.data_chan })

unfoldable pub shut_done : Session → Option Session
shut_done s = if s.done then none else some (record s { done = true })

infixl 5 ◌>>=◌
abbrev pub ◌>>=◌ : Option Session → (Session → Option Session) → Option Session
none >>= f = none
some s >>= f = f s

-- `if !inputClosed { inputClosed = true; close(DataChan) }`
unfoldable pub shut_input : Session → Option Session
unfolding shut_data
shut_input s = if s.input_closed then some s else shut_data (record s { input_closed = true })

-- The critical section of `CloseStreamSession`.
unfoldable pub close_session : Session → Option Session
unfolding shut_input shut_done
close_session s =
    if s.closed then some s else (do s' ← shut_done (record s { closed = true }); shut_input s')

-- The critical section of `CloseStreamInput`.
unfoldable pub close_input : Session → Option Session
unfolding shut_data
close_input s =
    if not s.closed && not s.input_closed
    then shut_data (record s { input_closed = true })
    else some s

-- `SignalStreamReady`: the channel is closed unless it is closed already.
unfoldable pub signal_ready : Session → Session
signal_ready s = if s.ready then s else record s { ready = true }

pub data SendResult : Type 0 where
  sent : Session → SendResult
  failed : Error → SendResult
  blocked : SendResult
  crashed : SendResult

-- The `select` of `SendToStream`. The runtime tries the two cases in an order of its own choice:
-- `data_first` says which comes first. A case on a closed data channel panics when it is tried.
unfoldable pub select_send : Bool → Session → Bytes → SendResult
select_send data_first s d =
    if data_first
    then (elim (chan_send s.data_chan d) [
      | accepted c ↦ sent (record s { data_chan = c })
      | full ↦ if s.done then failed (is_closed s.id) else blocked
      | panics ↦ crashed
    ])
    else if s.done
    then failed (is_closed s.id)
    else (elim (chan_send s.data_chan d) [
      | accepted c ↦ sent (record s { data_chan = c })
      | full ↦ blocked
      | panics ↦ crashed
    ])

-- `SendToStream` from the lock on, with nothing else running in between.
unfoldable pub send_to_session : Bool → Session → Bytes → SendResult
unfolding select_send
send_to_session data_first s d =
    if s.input_closed then failed (input_is_closed s.id) else select_send data_first s d

unfoldable pub event : Session → MsgType → Bytes → Event
event s t d = record { stream_id = s.id; msg_type = t; payload = d }

-- A callback is called if it is registered.
abbrev pub emit : Bool → Event → List Event
emit cb e = if cb then e ∷ [] else []

-- The functions towards Dart return what they hand to the callback, or the error.
pub data Reply : Type 0 where
  ok : List Event → Reply
  err : Error → Reply

unfoldable pub send_from_stream : Session → Bytes → Reply
unfolding event
send_from_stream s d =
    if s.closed then err (is_closed s.id) else ok (emit s.callback (event s data_msg d))

unfoldable pub close_send : Session → Reply
unfolding event
close_send s = if s.closed then err (is_closed s.id) else ok (emit s.callback (event s end_msg []))

-- `SendFromStreamFfi`. Marshalling is protobuf's: `size` and `marshal` of the message, and `append`
-- for `MarshalAppend` into the buffer of that size; `memory` says whether `malloc` succeeds.
unfoldable pub send_from_stream_ffi {ℓ} :
    {M : Type ℓ}
    → (M → ℕ)
    → (M → Option Bytes)
    → (ℕ → M → Option Bytes)
    → Bool
    → Session
    → M
    → Reply
unfolding event
send_from_stream_ffi size marshal append memory s m =
    if s.closed
    then err (is_closed s.id)
    else if s.callback_ffi
    then (if ltb 0 (size m)
        then (if memory
            then (elim (append (size m) m) [
              | none ↦ err marshal_failed
              | some d ↦ ok (event s data_msg d ∷ [])
            ])
            else err no_memory)
        else ok (event s data_msg [] ∷ []))
    else if s.callback
    then (elim (marshal m) [ none ↦ err marshal_failed | some d ↦ ok (event s data_msg d ∷ []) ])
    else ok []

unfoldable pub set_header : Bytes → Bytes → Session → Session
set_header k v s = record s { headers = insert k v s.headers }

unfoldable pub set_trailer : Bytes → Bytes → Session → Session
set_trailer k v s = record s { trailers = insert k v s.trailers }

-- A map goes out as "key=value\n" for each entry, and as no message when it is empty. `order` is the
-- order in which the runtime visits the map.
unfoldable pub send_map :
    (Map Bytes Bytes → Map Bytes Bytes) → Session → MsgType → Map Bytes Bytes → List Event
unfolding event
send_map order s t m =
    if ltb 0 (length m) && s.callback then event s t (encode_pairs (order m)) ∷ [] else []

unfoldable pub send_header : (Map Bytes Bytes → Map Bytes Bytes) → Session → Session × List Event
unfolding send_map
send_header order s =
    if s.headers_sent
    then (s, [])
    else (record s { headers_sent = true }, send_map order s header_msg s.headers)

-- The critical section of `EndStream` and of `ErrorStream`. `false`: the stream had ended before, and
-- the caller returns.
unfoldable pub begin_end : Session → Option (Session × Bool)
unfolding shut_input
begin_end s =
    if s.closed
    then some (s, false)
    else elim (shut_input (record s { closed = true })) [ none ↦ none | some s' ↦ some (s', true) ]

-- What they hand to the callback after it.
unfoldable pub end_events : (Map Bytes Bytes → Map Bytes Bytes) → Session → List Event
unfolding send_map event
end_events order s = send_map order s trailer_msg s.trailers ++ emit s.callback (event s end_msg [])

unfoldable pub error_events : Bytes → Session → List Event
unfolding event
error_events message s = emit s.callback (event s error_msg message)

-- `EndStream` and `ErrorStream` with nothing else running in between.
unfoldable pub end_stream :
    (Map Bytes Bytes → Map Bytes Bytes) → Session → Option (Session × List Event)
unfolding begin_end end_events shut_done
end_stream order s = elim (begin_end s) [
  | none ↦ none
  | some (s', begun) ↦
      if begun
      then (elim (shut_done s') [ none ↦ none | some t ↦ some (t, end_events order s') ])
      else some (s', [])
]

unfoldable pub error_stream : Bytes → Session → Option (Session × List Event)
unfolding begin_end error_events shut_done
error_stream message s = elim (begin_end s) [
  | none ↦ none
  | some (s', begun) ↦
      if begun
      then (elim (shut_done s') [ none ↦ none | some t ↦ some (t, error_events message s') ])
      else some (s', [])
]

pub data Waited : Type 0 where
  is_ready not_ready waiting : Waited

-- `WaitForReady`, at one look at its `select`. Where several cases are ready the runtime chooses:
-- `prefer_ready` says whether it takes `ReadyChan`. `expired`: the timer has fired; with a timeout of
-- 0 there is no timer.
unfoldable pub wait_for_ready : ℕ → Bool → Bool → Session → Waited
wait_for_ready timeout prefer_ready expired s =
    let over = s.done || (ltb 0 timeout && expired) in
    if prefer_ready
    then (if s.ready then is_ready else if over then not_ready else waiting)
    else (if over then not_ready else if s.ready then is_ready else waiting)
