-- ===== src/PluginServer/Streams.antt =====
-- pkg/plugin/server.go: the state of a stream, the table of handles and the exported functions.
use synurang.Common.{
  ℕ, ◌+◌, ◌%◌, ◌^◌, Bool, true, false, Bytes, Map, [], ◌∷◌, Option, none, some, Chan, accepted,
  full, panics, got, drained, empty, make_chan, chan_send, chan_recv, chan_shut, insert, lookup,
  remove, nat_eq, length, if◌then◌else◌, ◌⊎◌, inl, inr,
}

pub record Stream : Type 0 where
  pub method : Bytes
  pub send_ch : Chan Bytes
  pub recv_ch : Chan Bytes
  pub err_ch : Chan Bytes
  pub cancelled : Bool
  pub close_send : Bool
  pub close_recv : Bool

unfoldable pub make_stream : Bytes → Stream
make_stream method = record {
  method = method;
  send_ch = make_chan 16;
  recv_ch = make_chan 16;
  err_ch = make_chan 1;
  cancelled = false;
  close_send = false;
  close_recv = false;
}

-- `streamHandles` and `streamHandleCounter`, a 64-bit counter.
pub record Table : Type 0 where
  pub streams : Map ℕ Stream
  pub counter : ℕ

unfoldable pub new_stream : Bytes → Table → Table × ℕ
unfolding make_stream
new_stream method t =
    let handle = (t.counter + 1) % 2 ^ 64 in
    (record { streams = insert handle (make_stream method) t.streams; counter = handle }, handle)

unfoldable pub get_stream : ℕ → Table → Option Stream
get_stream handle t = lookup handle t.streams

-- The result codes of `Synurang_Stream_Send`; `stuck` while its `select` waits.
pub data SendReply : Type 0 where
  code : ℕ → Stream → SendReply
  stuck : SendReply

-- The `select` of `Synurang_Stream_Send`, where `data_first` says which case the runtime tries first.
-- A send on a closed channel panics, and the deferred function turns the panic into code 3.
unfoldable pub select_send : Bool → Stream → Bytes → SendReply
select_send data_first s d =
    let send : SendReply → SendReply = λ otherwise. elim (chan_send s.send_ch d) [
      | accepted c ↦ code 0 (record s { send_ch = c })
      | full ↦ otherwise
      | panics ↦ code 3 s
    ] in
    if data_first
    then send (if s.cancelled then code 2 s else stuck)
    else (if s.cancelled then code 2 s else send stuck)

unfoldable pub stream_send : Bool → Stream → Bytes → SendReply
unfolding select_send
stream_send data_first s d = if s.close_send then code 3 s else select_send data_first s d

-- What `Synurang_Stream_Recv` hands back: `*status`, the bytes behind the pointer, and `*respLen`,
-- a C int, kept as its 32-bit pattern. Without a pointer `*respLen` is not written: 0.
pub record Response : Type 0 where
  pub status : ℕ
  pub content : Bytes
  pub resp_len : ℕ

unfoldable pub frame : ℕ → Bytes → Response
frame tag d = record { status = 0; content = tag ∷ d; resp_len = (1 + length d) % 2 ^ 32 }

unfoldable pub bare : ℕ → Response
bare status = record { status = status; content = []; resp_len = 0 }

-- One stage of `Synurang_Stream_Recv`: it returns, or goes on.
pub data Stage : Type 0 where
  returns : Response → Stream → Stage
  goes_on : Stage

-- A nil error received from a closed `ErrCh` would be dereferenced; nobody closes it, and a closed
-- one is read as an empty one.
unfoldable pub poll_error : Stream → Stage
unfolding frame
poll_error s = elim (chan_recv s.err_ch) [
  | got e c ↦ returns (frame 1 e) (record s { err_ch = c })
  | drained ↦ goes_on
  | empty ↦ goes_on
]

-- A closed `RecvCh` with nothing left: the pending error, or the end of the stream.
unfoldable pub finish : Stream → Stage
unfolding poll_error bare
finish s = elim (poll_error s) [ returns r t ↦ returns r t | goes_on ↦ returns (bare 1) s ]

-- Priority 1, which is also the data case of the blocking wait.
unfoldable pub poll_data : Stream → Stage
unfolding frame finish
poll_data s = elim (chan_recv s.recv_ch) [
  | got d c ↦ returns (frame 0 d) (record s { recv_ch = c })
  | drained ↦ finish s
  | empty ↦ goes_on
]

-- The cancelled case of the blocking wait: one more look for data, else the end of the stream.
unfoldable pub poll_cancelled : Stream → Stage
unfolding frame bare
poll_cancelled s =
    if s.cancelled
    then (elim (chan_recv s.recv_ch) [
      | got d c ↦ returns (frame 0 d) (record s { recv_ch = c })
      | drained ↦ returns (bare 1) s
      | empty ↦ returns (bare 1) s
    ])
    else goes_on

-- The runtime's choice among the cases of the blocking wait that are ready: the named one, if it is.
pub data Pick : Type 0 where
  data_case error_case cancel_case : Pick

abbrev or_else : Stage → Stage → Stage
or_else (returns r s) other = returns r s
or_else goes_on other = other

-- Priority 3. `goes_on`: nothing is ready, and the call waits.
unfoldable pub wait_any : Pick → Stream → Stage
unfolding poll_data poll_error poll_cancelled
wait_any data_case s = or_else (poll_data s) (or_else (poll_error s) (poll_cancelled s))
wait_any error_case s = or_else (poll_error s) (or_else (poll_data s) (poll_cancelled s))
wait_any cancel_case s = or_else (poll_cancelled s) (or_else (poll_data s) (poll_error s))

-- `Synurang_Stream_Recv` on a live stream. The handler's goroutine runs on between the three
-- selects: `between` and `then_` are what it does to the stream there.
unfoldable pub stream_recv : (Stream → Stream) → (Stream → Stream) → Pick → Stream → Stage
unfolding poll_data poll_error wait_any
stream_recv between then_ pick s =
    or_else (poll_data s) (or_else (poll_error (between s)) (wait_any pick (then_ (between s))))

-- A handle that is not in the table: status 2. No response: the call waits.
unfoldable pub recv_by_handle :
    (Stream → Stream) → (Stream → Stream) → Pick → ℕ → Table → Option Response × Table
unfolding stream_recv bare
recv_by_handle between then_ pick handle t = elim (lookup handle t.streams) [
  | none ↦ (some (bare 2), t)
  | some s ↦ elim (stream_recv between then_ pick s) [
    | goes_on ↦ (none, t)
    | returns r s' ↦ (some r, record t { streams = insert handle s' t.streams })
  ]
]

-- `closeSendCh` and `CloseRecvCh`; `none` is a panic.
unfoldable pub close_send_ch : Stream → Option Stream
close_send_ch s =
    if s.close_send
    then some s
    else if s.send_ch.closed
    then none
    else some (record s { close_send = true; send_ch = chan_shut s.send_ch })

unfoldable pub close_recv_ch : Stream → Option Stream
close_recv_ch s =
    if s.close_recv
    then some s
    else if s.recv_ch.closed
    then none
    else some (record s { close_recv = true; recv_ch = chan_shut s.recv_ch })

-- The calls by handle. The table keeps a stream by its pointer, so what a call does to a stream that
-- it has taken out is returned beside the table.
unfoldable pub send_by_handle : Bool → ℕ → Bytes → Table → ℕ ⊎ SendReply
unfolding stream_send
send_by_handle data_first handle d t = elim (lookup handle t.streams) [
  | none ↦ inl 1
  | some s ↦ inr (stream_send data_first s d)
]

unfoldable pub close_send_by_handle : ℕ → Table → Option Table
unfolding close_send_ch
close_send_by_handle handle t = elim (lookup handle t.streams) [
  | none ↦ some t
  | some s ↦ elim (close_send_ch s) [
    | none ↦ none
    | some s' ↦ some (record t { streams = insert handle s' t.streams })
  ]
]

-- `Synurang_Stream_Close`: the stream that the goroutines still hold, and the table without it.
unfoldable pub close_by_handle : ℕ → Table → Option (Option Stream × Table)
unfolding close_send_ch close_recv_ch
close_by_handle handle t = elim (lookup handle t.streams) [
  | none ↦ some (none, t)
  | some s ↦ elim (close_send_ch (record s { cancelled = true })) [
    | none ↦ none
    | some s' ↦ elim (close_recv_ch s') [
      | none ↦ none
      | some s'' ↦ some (some s'', record t { streams = remove handle t.streams })
    ]
  ]
]
