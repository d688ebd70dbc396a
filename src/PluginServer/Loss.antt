-- ===== src/PluginServer/Loss.antt =====
-- pkg/plugin/server.go: what the handler's goroutine can do between the selects of
-- `Synurang_Stream_Recv`.
use synurang.Common.{◌≡◌, false, Bytes, List, [], ◌∷◌, ◌++◌, arith}
use synurang.PluginServer.Streams.{Stream, frame, returns, Pick, stream_recv}

-- The handler sends a chunk and then fails.
abbrev pub sends_and_fails : Bytes → Bytes → Stream → Stream
sends_and_fails d e s = record s {
  recv_ch = record s.recv_ch { buf = s.recv_ch.buf ++ d ∷ [] };
  err_ch = record s.err_ch { buf = s.err_ch.buf ++ e ∷ [] };
}

-- On every open stream that has nothing to read: if the handler sends a chunk and fails after the
-- first select has found nothing, the call returns the error first, and the chunk is still in the
-- buffer; so the order in which the handler acted is not kept, and a host that closes the stream on
-- an error never sees the chunk.
pub recv_overtakes :
    (pick : Pick) (then_ : Stream → Stream) (d e : Bytes) (s : Stream)
    → s.recv_ch.buf ≡ []
    → s.recv_ch.closed ≡ false
    → s.err_ch.buf ≡ []
    → (t : Stream) × (stream_recv (sends_and_fails d e) then_ pick s ≡ returns (frame 1 e) t)
      × (t.recv_ch.buf ≡ d ∷ [])
unfolding stream_recv
recv_overtakes pick then_ d e s empty is_open quiet = (
  record (sends_and_fails d e s) { err_ch = record s.err_ch { buf = [] } },
  ground arith,
  ground arith,
)

-- What is in the buffer when a receive begins is never overtaken: whatever the goroutine does
-- meanwhile, the oldest chunk is returned, and taken from the buffer once.
recv_data_first :
    (between then_ : Stream → Stream) (pick : Pick) (s : Stream) (d : Bytes) (ds : List Bytes)
    → s.recv_ch.buf ≡ d ∷ ds
    → stream_recv between then_ pick s
      ≡ returns (frame 0 d) (record s { recv_ch = record s.recv_ch { buf = ds } })
unfolding stream_recv
recv_data_first between then_ pick s d ds e = ground arith
