-- ===== src/Client/Stream.antt =====
-- pkg/synurang/synurang.go: `FfiClientConn`, and the two ends of a stream, `ffiClientStream` and
-- `ffiServerStream`. A value that may not be a proto.Message is an Option; a message that is copied into
-- the caller's is a message with the same value.
use synurang.Common.{
  Bool, true, false, List, [], ◌∷◌, Option, none, some, Chan, accepted, full, panics, got, drained,
  empty, make_chan, chan_send, chan_recv, chan_shut, if◌then◌else◌,
}

-- The runtime's choice among the ready cases of phase 2: the named one, if it is ready.
pub data Pick : Type 0 where
  data_case error_case context_case : Pick

module _ {ℓ κ} (M : Type ℓ) (E : Type κ) where
  -- The client's end; the server's end has the two data channels the other way round, and the context.
  -- `cancelled`: the context is done. `stream_err` is the error that RecvMsg has stored.
  pub record Stream : Type (ℓ ⊔ κ) where
    pub send_ch : Chan M
    pub recv_ch : Chan M
    pub err_ch : Chan E
    pub cancelled : Bool
    pub closed : Bool
    pub stream_err : Option E

  -- What a call on a stream returns; `waits` while it blocks and `spins` while RecvMsg goes round its loop.
  pub data Reply : Type (ℓ ⊔ κ) where
    received : M → Reply
    failed : E → Reply
    eof context_error not_a_message closed_stream done waits spins : Reply

  -- The outcome of FfiClientConn.Invoke.
  pub data Invoked : Type κ where
    args_not_message reply_not_message : Invoked
    invoked : Option E → Invoked

  -- One stage of RecvMsg: it returns, goes on with the next one, or starts the loop again.
  pub data Stage : Type (ℓ ⊔ κ) where
    returns : Reply → Stream → Stage
    goes_on again : Stage

  -- For one round of RecvMsg's loop: what the other goroutines do between its two phases, and what the
  -- runtime picks.
  abbrev pub Turn : Type (ℓ ⊔ κ)
  Turn = (Stream → Stream) × Pick

module _ {ℓ κ} {M : Type ℓ} {E : Type κ} where
  unfoldable pub invoke : (M → M → Option E) → Option M → Option M → Invoked M E
  invoke call none reply = args_not_message
  invoke call (some args) none = reply_not_message
  invoke call (some args) (some reply) = invoked (call args reply)

  unfoldable pub new_client_stream : Stream M E
  new_client_stream = record {
    send_ch = make_chan 16;
    recv_ch = make_chan 16;
    err_ch = make_chan 1;
    cancelled = false;
    closed = false;
    stream_err = none;
  }

  -- The goroutine of the stream once the server's handler has returned: the error is offered, and then
  -- the deferred functions close `errCh` and, after that, `recvCh`. `none` is a panic.
  unfoldable pub offer_error : Option E → Stream M E → Option (Stream M E)
  offer_error none s = some s
  offer_error (some e) s = elim (chan_send s.err_ch e) [
    | accepted c ↦ some (record s { err_ch = c })
    | full ↦ some s
    | panics ↦ none
  ]

  unfoldable pub close_errors : Stream M E → Option (Stream M E)
  close_errors s = if s.err_ch.closed then none else some (record s { err_ch = chan_shut s.err_ch })

  unfoldable pub close_received : Stream M E → Option (Stream M E)
  close_received s =
      if s.recv_ch.closed then none else some (record s { recv_ch = chan_shut s.recv_ch })

  -- `CloseSend`; `none` is a panic.
  unfoldable pub close_send : Stream M E → Option (Stream M E)
  close_send s =
      if s.closed
      then some s
      else if s.send_ch.closed
      then none
      else some (record s { closed = true; send_ch = chan_shut s.send_ch })

  -- The `select` of the client's SendMsg, whose panic becomes an error. The runtime tries the cases in an
  -- order of its choice.
  unfoldable pub select_send : Bool → Stream M E → M → Stream M E × Reply M E
  select_send data_first s m =
      let send : Stream M E × Reply M E → Stream M E × Reply M E = λ otherwise.
        elim (chan_send s.send_ch m) [
          | accepted c ↦ (record s { send_ch = c }, done)
          | full ↦ otherwise
          | panics ↦ (s, closed_stream)
        ] in
      if data_first
      then send (if s.cancelled then (s, context_error) else (s, waits))
      else (if s.cancelled then (s, context_error) else send (s, waits))

  unfoldable pub send_msg : Bool → Stream M E → Option M → Stream M E × Reply M E
  unfolding select_send
  send_msg data_first s none = (s, not_a_message)
  send_msg data_first s (some m) =
      if s.closed then (s, closed_stream) else select_send data_first s m

  -- `recvCh` is closed and drained: the pending error, or the end of the stream.
  unfoldable pub finish : Stream M E → Stage M E
  finish s = elim (chan_recv s.err_ch) [
    | got e c ↦ returns (failed e) (record s { err_ch = c; stream_err = some e })
    | drained ↦ returns eof s
    | empty ↦ returns eof s
  ]

  -- Phase 1, which is also the data case of phase 2.
  unfoldable pub poll_data : Stream M E → Stage M E
  unfolding finish
  poll_data s = elim (chan_recv s.recv_ch) [
    | got m c ↦ returns (received m) (record s { recv_ch = c })
    | drained ↦ finish s
    | empty ↦ goes_on
  ]

  -- The error case of phase 2; a closed `errCh` starts the loop again.
  unfoldable pub poll_error : Stream M E → Stage M E
  poll_error s = elim (chan_recv s.err_ch) [
    | got e c ↦ returns (failed e) (record s { err_ch = c; stream_err = some e })
    | drained ↦ again
    | empty ↦ goes_on
  ]

  unfoldable pub poll_context : Stream M E → Stage M E
  poll_context s = if s.cancelled then returns context_error s else goes_on

  abbrev or_else : Stage M E → Stage M E → Stage M E
  or_else goes_on other = other
  or_else stage other = stage

  unfoldable pub wait_any : Pick → Stream M E → Stage M E
  unfolding poll_data poll_error poll_context
  wait_any data_case s = or_else (poll_data s) (or_else (poll_error s) (poll_context s))
  wait_any error_case s = or_else (poll_error s) (or_else (poll_data s) (poll_context s))
  wait_any context_case s = or_else (poll_context s) (or_else (poll_data s) (poll_error s))

  -- One round of the loop of RecvMsg. `between` is what other goroutines do between the two phases.
  unfoldable pub recv_round : (Stream M E → Stream M E) → Pick → Stream M E → Stage M E
  unfolding poll_data wait_any
  recv_round between pick s = or_else (poll_data s) (wait_any pick (between s))

  -- The loop: a schedule has, for each round, what the others do in it and what the runtime picks. `spins`
  -- at its end: the loop is still running.
  unfoldable pub recv_loop : List (Turn M E) → Stream M E → Stream M E × Reply M E
  unfolding recv_round
  recv_loop [] s = (s, spins)
  recv_loop ((between, pick) ∷ rounds) s = elim (recv_round between pick s) [
    | returns r s' ↦ (s', r)
    | goes_on ↦ (between s, waits)
    | again ↦ recv_loop rounds (between s)
  ]

  -- `RecvMsg`, whose `ok` says whether the target is a proto.Message.
  unfoldable pub recv_msg : List (Turn M E) → Bool → Stream M E → Stream M E × Reply M E
  unfolding recv_loop
  recv_msg rounds ok s = elim s.stream_err [
    | some e ↦ (s, failed e)
    | none ↦ if ok then recv_loop rounds s else (s, not_a_message)
  ]

  -- The server's end: SendMsg on the client's `recvCh`. A send on the closed channel panics (`none`).
  unfoldable pub server_send : Bool → Stream M E → Option M → Option (Stream M E × Reply M E)
  server_send data_first s none = some (s, not_a_message)
  server_send data_first s (some m) =
      let send : Stream M E × Reply M E → Option (Stream M E × Reply M E) = λ otherwise.
        elim (chan_send s.recv_ch m) [
          | accepted c ↦ some (record s { recv_ch = c }, done)
          | full ↦ some otherwise
          | panics ↦ none
        ] in
      if data_first
      then send (if s.cancelled then (s, context_error) else (s, waits))
      else (if s.cancelled then some (s, context_error) else send (s, waits))

  -- The server's RecvMsgDirect.
  unfoldable pub server_recv_direct : Bool → Stream M E → Stream M E × Reply M E
  server_recv_direct data_first s =
      let recv : Stream M E × Reply M E → Stream M E × Reply M E = λ otherwise.
        elim (chan_recv s.send_ch) [
          | got m c ↦ (record s { send_ch = c }, received m)
          | drained ↦ (s, eof)
          | empty ↦ otherwise
        ] in
      if data_first
      then recv (if s.cancelled then (s, context_error) else (s, waits))
      else (if s.cancelled then (s, context_error) else recv (s, waits))

  -- The server's RecvMsg: a target that is no message loses the message that was taken.
  unfoldable pub server_recv : Bool → Bool → Stream M E → Stream M E × Reply M E
  unfolding server_recv_direct
  server_recv data_first ok s =
      let (s', r) = server_recv_direct data_first s in
      elim r [ received m ↦ (s', if ok then received m else not_a_message) | other ↦ (s', other) ]
