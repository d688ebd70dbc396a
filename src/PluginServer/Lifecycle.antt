-- ===== src/PluginServer/Lifecycle.antt =====
-- pkg/plugin/server.go: the table of handles, and the closing of a stream.
use synurang.Common.{
  ℕ, ◌+◌, ◌≤◌, ◌<◌, ◌%◌, ◌^◌, ◌≡◌, inl, inr, Bool, true, Bytes, none, some, arith, lookup, remove,
  lookup-insert, lookup-remove, nat_eq, chan_shut, Option-cases, nat_beq, if◌then◌else◌,
}
use synurang.PluginServer.Streams.{
  Stream, Table, make_stream, new_stream, get_stream, bare, Pick, recv_by_handle, send_by_handle,
  close_by_handle, close_send_by_handle,
}

-- A channel is closed exactly when its flag is set.
pub record IsSound (s : Stream) : Type 0 where
  pub sends : s.send_ch.closed ≡ s.close_send
  pub receives : s.recv_ch.closed ≡ s.close_recv

abbrev pub closed : Stream → Stream
closed s = record s {
  cancelled = true;
  close_send = true;
  close_recv = true;
  send_ch = chan_shut s.send_ch;
  recv_ch = chan_shut s.recv_ch;
}

make_stream-IsSound : (method : Bytes) → IsSound (make_stream method)
unfolding make_stream
make_stream-IsSound method = ground arith

-- Every stream in the table is sound, and its handle is not above the counter.
pub record IsValid (t : Table) : Type 0 where
  pub counted : t.counter < 2 ^ 63
  pub stored : (h : ℕ) (s : Stream) → lookup h t.streams ≡ some s → IsSound s × (h ≤ t.counter)

-- `NewStream` answers a handle that was not in use, under which the table then has a new sound
-- stream, and keeps all the others, while the counter has not reached the end of its range.
new_stream-IsValid :
    (method : Bytes) (t : Table)
    → IsValid t
    → t.counter + 1 < 2 ^ 63
    → let (u, h) = new_stream method t in
      IsValid u
      × (get_stream h t ≡ none)
      × ((k : ℕ)
          → get_stream k u ≡ (if nat_beq h k then some (make_stream method) else get_stream k t))
unfolding new_stream get_stream
new_stream-IsValid method t v small =
    let e : (t.counter + 1) % 2 ^ 64 ≡ t.counter + 1 = omega arith in
    rw e (
      record {
        counted = small;
        stored = λ h s q. ground (
          arith,
          lookup-insert (t.counter + 1) h (make_stream method) t.streams,
          make_stream-IsSound method,
          v.stored h s,
        );
      },
      fresh,
      λ k. ground (arith, lookup-insert (t.counter + 1) k (make_stream method) t.streams),
    )
  where
    fresh : lookup (t.counter + 1) t.streams ≡ none
    fresh = elim (Option-cases (lookup (t.counter + 1) t.streams)) [
      | inl e ↦ e
      | inr (s, e) ↦ absurd (omega (arith, (v.stored (t.counter + 1) s e).1))
    ]

close_lem :
    (h : ℕ) (t : Table) (s : Stream)
    → lookup h t.streams ≡ some s
    → IsSound s
    → close_by_handle h t ≡ some (some (closed s), record t { streams = remove h t.streams })
unfolding close_by_handle
close_lem h t s e v = ground arith

-- What the host meets after `Synurang_Stream_Close` of a handle.
abbrev pub Gone : ℕ → Table → Type 0
Gone h u =
    ((data_first : Bool) (d : Bytes) → send_by_handle data_first h d u ≡ inl 1)
    × ((between then_ : Stream → Stream) (pick : Pick)
        → recv_by_handle between then_ pick h u ≡ (some (bare 2), u))
    × (close_send_by_handle h u ≡ some u)
    × (close_by_handle h u ≡ some (none, u))

gone : (h : ℕ) (t : Table) → Gone h (record t { streams = remove h t.streams })
unfolding send_by_handle recv_by_handle close_send_by_handle close_by_handle
gone h t = (
  λ b d. ground (arith, lookup-remove h h t.streams),
  λ f g p. ground (arith, lookup-remove h h t.streams),
  ground (arith, lookup-remove h h t.streams),
  ground (arith, lookup-remove h h t.streams),
)

-- `Synurang_Stream_Close` of a live handle does not panic: it cancels the stream and closes both its
-- channels, once each. The handle is then unknown to every call: a send answers 1, a receive status
-- 2, and closing again does nothing. Every other handle is as before.
close_by_handle_lem :
    (h : ℕ) (t : Table) (s : Stream)
    → IsValid t
    → get_stream h t ≡ some s
    → (u : Table) × (close_by_handle h t ≡ some (some (closed s), u))
      × IsValid u
      × Gone h u
      × ((k : ℕ) → get_stream k u ≡ (if nat_beq h k then none else get_stream k t))
unfolding get_stream
close_by_handle_lem h t s v e = (
  record t { streams = remove h t.streams },
  close_lem h t s e (v.stored h s e).0,
  record {
    counted = v.counted;
    stored = λ k x q. ground (arith, lookup-remove h k t.streams, v.stored k x);
  },
  gone h t,
  λ k. ground (arith, lookup-remove h k t.streams),
)
