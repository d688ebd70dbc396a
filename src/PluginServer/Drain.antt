-- ===== src/PluginServer/Drain.antt =====
-- A streaming call across the C interface: what pkg/plugin/server.go hands over is what
-- pkg/synurang/plugin.go reads.
use synurang.Common.{
  ℕ, zero, suc, ◌+◌, ◌<◌, ◌^◌, ◌≡◌, refl, true, Bytes, List, [], ◌∷◌, ◌++◌, map, Option, none, some,
  arith, length, take, All, ap, lt→ltb, ◌%◌,
}
use synurang.PluginServer.Streams.{Stream, frame, bare, returns, goes_on, Pick, stream_recv}
use synurang.Plugin.Errors.{Error, Result, ok, err, eof, plugin_error, empty_stream_response}
use synurang.Plugin.Wire.{host_read, read_frame}

-- A message whose frame has a length that a C int holds.
abbrev pub Fits : Bytes → Type 0
Fits d = 1 + length d < 2 ^ 31

take-length {ℓ} : {A : Type ℓ} (xs : List A) → take (length xs) xs ≡ xs
take-length [] = refl
take-length (x ∷ xs) = ap (◌∷◌ x) (take-length xs)

module _ (d : Bytes) (fits : Fits d) where
  frame_lem :
      (tag : ℕ) → frame tag d ≡ record { status = 0; content = tag ∷ d; resp_len = suc (length d) }
  unfolding frame
  frame_lem tag = let e : (1 + length d) % 2 ^ 32 ≡ suc (length d) = omega arith in rw e

  host_read-tag :
      (tag : ℕ) → host_read (frame tag d) ≡ some (read_frame empty_stream_response (tag ∷ d))
  unfolding host_read
  host_read-tag tag =
      let small : suc (length d) < 2 ^ 31 = omega arith in
      rw (frame_lem tag, host_read, lt→ltb (suc (length d)) (2 ^ 31) small, take-length d)

-- The host reads every response of a plugin as what the plugin meant: a data frame as its data, an
-- error frame as a plugin error with its text, and the bare status 1 as the end of the stream.
pub host_read-frame :
    (d : Bytes)
    → Fits d
    → (host_read (frame 0 d) ≡ some (ok d))
      × (host_read (frame 1 d) ≡ some (err (plugin_error d)))
      × (host_read (bare 1) ≡ some (err eof))
unfolding host_read read_frame bare
host_read-frame d h = (host_read-tag d h 0, host_read-tag d h 1, refl)

abbrev quiet : Stream → Stream
quiet s = s

-- The host reads until the stream ends, with nothing else running on the plugin's side: the results
-- of `n` calls; `none` where a call waits or panics.
unfoldable pub read_all : ℕ → Pick → Stream → Option (List (Result Bytes))
read_all zero pick s = some []
read_all (suc n) pick s = elim (stream_recv quiet quiet pick s) [
  | goes_on ↦ none
  | returns r s' ↦ elim (host_read r) [
    | none ↦ none
    | some x ↦ elim (read_all n pick s') [ none ↦ none | some xs ↦ some (x ∷ xs) ]
  ]
]

-- How the host learns of the end: by the pending error, if there is one.
abbrev pub ending : List Bytes → Error
ending [] = eof
ending (e ∷ es) = plugin_error e

module _ (pick : Pick) where
  read_last :
      (s : Stream) (es : List Bytes)
      → s.recv_ch.buf ≡ []
      → s.recv_ch.closed ≡ true
      → s.err_ch.buf ≡ es
      → All Fits es
      → read_all 1 pick s ≡ some (err (ending es) ∷ [])
  unfolding read_all stream_recv host_read bare
  read_last s [] e c n h = ground arith
  read_last s (x ∷ es) e c n h = ground (arith, host_read-frame x h.0)

  -- A stream whose handler has finished is read to its end with nothing lost, when the frames of its chunks
  -- and of its error are ones that a C int can measure, below 2^31 bytes: the host gets every chunk that is
  -- still in the buffer, in order, and then the handler's error, or the end of the stream if there is none,
  -- whether or not the context is cancelled, and whatever the runtime picks.
  pub read_all-drains :
      (ds es : List Bytes) (s : Stream)
      → s.recv_ch.buf ≡ ds
      → s.recv_ch.closed ≡ true
      → s.err_ch.buf ≡ es
      → All Fits ds
      → All Fits es
      → read_all (length ds + 1) pick s ≡ some (map ok ds ++ err (ending es) ∷ [])
  unfolding read_all stream_recv
  read_all-drains [] es s e c n hd he = read_last s es e c n he
  read_all-drains (d ∷ ds) es s e c n hd he = ground (
    arith,
    host_read-frame d hd.0,
    read_all-drains ds es (record s { recv_ch = record s.recv_ch { buf = ds } }),
  )
