-- ===== src/Client/Pipes.antt =====
-- pkg/synurang/synurang.go: the selects of the goroutines at the two ends of a stream, against the two
-- queues that the stream stands for.
use synurang.Common.{
  ◌<◌, ◌≡◌, Bool, true, false, List, [], ◌∷◌, ◌++◌, Option, none, some, length, not,
}
use synurang.Client.Stream.{
  Stream, Reply, received, eof, done, Pick, Stage, returns, goes_on, again, close_send, send_msg,
  server_send, server_recv_direct, offer_error, close_errors, close_received, poll_data, wait_any,
}

-- What can be seen of a step from outside.
pub data Label {ℓ} (M : Type ℓ) : Type ℓ where
  client_sent server_received server_sent client_received : M → Label M
  client_closed server_eof server_closed client_eof silent : Label M

-- The promise: a queue in each direction, which holds at most 16 messages and can be closed.
pub record Queues {ℓ} (M : Type ℓ) : Type ℓ where
  pub up : List M
  pub up_open : Bool
  pub down : List M
  pub down_open : Bool

-- What a label promises of the queues before and after it. The end of a direction is seen only when the
-- queue is closed and has been emptied.
abbrev pub Allows {ℓ} : {M : Type ℓ} → Label M → Queues M → Queues M → Type ℓ
Allows (client_sent m) q q' =
    (q.up_open ≡ true) × (length q.up < 16) × (q' ≡ record q { up = q.up ++ m ∷ [] })
Allows (server_received m) q q' = (q.up ≡ m ∷ q'.up) × (q' ≡ record q { up = q'.up })
Allows (server_sent m) q q' =
    (q.down_open ≡ true) × (length q.down < 16) × (q' ≡ record q { down = q.down ++ m ∷ [] })
Allows (client_received m) q q' = (q.down ≡ m ∷ q'.down) × (q' ≡ record q { down = q'.down })
Allows client_closed q q' = q' ≡ record q { up_open = false }
Allows server_eof q q' = (q.up ≡ []) × (q.up_open ≡ false) × (q' ≡ q)
Allows server_closed q q' = (q.down_open ≡ true) × (q' ≡ record q { down_open = false })
Allows client_eof q q' = (q.down ≡ []) × (q.down_open ≡ false) × (q' ≡ q)
Allows silent q q' = q' ≡ q

-- One select or critical section of a goroutine. RecvMsg is its two phases.
pub data Op {ℓ κ} (M : Type ℓ) (E : Type κ) : Type (ℓ ⊔ κ) where
  client_send : Bool → Option M → Op M E
  client_close client_poll cancel handler_errors_closed handler_closed : Op M E
  client_wait : Pick → Op M E
  server_sends : Bool → Option M → Op M E
  server_recvs : Bool → Op M E
  handler_returned : Option E → Op M E

module _ {M E : Type 0} where
  abbrev sent_label : (M → Label M) → Option M → Stream M E × Reply M E → Stream M E × Label M
  sent_label label (some m) (s, done) = (s, label m)
  sent_label label m (s, r) = (s, silent)

  abbrev received_label : (M → Label M) → Label M → Stream M E × Reply M E → Stream M E × Label M
  received_label label end (s, received m) = (s, label m)
  received_label label end (s, eof) = (s, end)
  received_label label end (s, r) = (s, silent)

  abbrev stage_label : Stream M E → Stage M E → Stream M E × Label M
  stage_label s (returns r s') = received_label client_received client_eof (s', r)
  stage_label s goes_on = (s, silent)
  stage_label s again = (s, silent)

  -- A step, with what is seen of it; `none` is a panic.
  abbrev pub run : Op M E → Stream M E → Option (Stream M E × Label M)
  run (client_send data_first m) s = some (sent_label client_sent m (send_msg data_first s m))
  run client_close s = elim (close_send s) [ none ↦ none | some s' ↦ some (s', client_closed) ]
  run client_poll s = some (stage_label s (poll_data s))
  run (client_wait pick) s = some (stage_label s (wait_any pick s))
  run cancel s = some (record s { cancelled = true }, silent)
  run (server_sends data_first m) s = elim (server_send data_first s m) [
    | none ↦ none
    | some out ↦ some (sent_label server_sent m out)
  ]
  run (server_recvs data_first) s =
      some (received_label server_received server_eof (server_recv_direct data_first s))
  run (handler_returned e) s = elim (offer_error e s) [ none ↦ none | some s' ↦ some (s', silent) ]
  run handler_errors_closed s = elim (close_errors s) [ none ↦ none | some s' ↦ some (s', silent) ]
  run handler_closed s = elim (close_received s) [
    | none ↦ none
    | some s' ↦ some (s', server_closed)
  ]

  -- When a step may panic.
  abbrev pub MayPanic : Op M E → Stream M E → Type 0
  MayPanic (server_sends data_first (some m)) s = s.recv_ch.closed ≡ true
  MayPanic (handler_returned (some e)) s = s.err_ch.closed ≡ true
  MayPanic handler_errors_closed s = s.err_ch.closed ≡ true
  MayPanic handler_closed s = s.recv_ch.closed ≡ true
  MayPanic _ s = ⊥

  abbrev pub queues : Stream M E → Queues M
  queues s = record {
    up = s.send_ch.buf;
    up_open = not s.send_ch.closed;
    down = s.recv_ch.buf;
    down_open = not s.recv_ch.closed;
  }

  pub record IsSound (s : Stream M E) : Type 0 where
    pub flag : s.send_ch.closed ≡ s.closed
    pub up_cap : s.send_ch.cap ≡ 16
    pub down_cap : s.recv_ch.cap ≡ 16

  -- A step that keeps the stream sound and does what its label promises, or panics where it may.
  abbrev pub Refines : Op M E → Stream M E → Option (Stream M E × Label M) → Type 0
  Refines op s none = MayPanic op s
  Refines op s (some (s', label)) = IsSound s' × Allows label (queues s) (queues s')
