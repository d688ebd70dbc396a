-- ===== src/Plugin/Conn/Delivery.antt =====
-- From a plugin's handler to the client's RecvMsg: pkg/plugin/server.go behind the C interface of
-- pkg/synurang/plugin_unix.go, read by plugin.go and plugin_conn.go.
use synurang.Common.{
  ℕ, zero, suc, ◌+◌, ◌≡◌, ◌≢◌, refl, true, false, Bytes, List, [], ◌∷◌, ◌++◌, Option, none, some,
  arith, lookup, insert, nat_eq, lookup-insert, length, map, All, ap, ◌∙◌, ◌⊎◌, inl, inr,
}
use synurang.Plugin.Errors.{Error, Result, ok, err, eof, plugin_error}
use synurang.Plugin.Wire.{Received, unix_stream_recv, host_read}
use synurang.PluginServer.Streams.{
  Stream, Table, Response, Pick, SendReply, code, stuck, recv_by_handle, send_by_handle,
  close_send_by_handle, close_by_handle, stream_recv,
}
use synurang.PluginServer.Drain.{Fits, ending}
use synurang.PluginServer.Streams.{frame, bare, returns}
use synurang.PluginServer.Drain.{host_read-frame}
use synurang.Plugin.Library
use synurang.Plugin.Library.{acquire_for_stream_op, release}
use synurang.Plugin.Conn.{
  World, Platform, recv_msg, recv, plugin_recv, with_context, close_internal, plugin_close,
}

-- The library's streams, with nothing else running in them; a call that would block or panic is taken to
-- answer an error code and to change nothing.
abbrev nothing : Received
nothing = record { bytes = []; resp_len = 0; status = 2 }

abbrev pub received : Option Response → Received
received none = nothing
received (some r) = elim (unix_stream_recv r) [ none ↦ nothing | some x ↦ x ]

abbrev pub from_plugin : Option Response × Table → Table × Received
from_plugin (r, t) = (t, received r)

abbrev pub sent_to : Table → ℕ → ℕ ⊎ SendReply → Table × ℕ
sent_to t h (inl n) = (t, n)
sent_to t h (inr (code n s)) = (record t { streams = insert h s t.streams }, n)
sent_to t h (inr stuck) = (t, 1)

abbrev or_same : Table → Option Table → Table
or_same t none = t
or_same t (some t') = t'

abbrev closed_in : Table → Option (Option Stream × Table) → Table
closed_in t none = t
closed_in t (some (s, t')) = t'

abbrev quiet : Stream → Stream
quiet s = s

-- The platform's functions, when the library is a plugin that pkg/plugin/server.go serves.
abbrev pub platform : Pick → Platform Table
platform pick = record {
  send = λ h d t. sent_to t h (send_by_handle true h d t);
  recv = λ h t. from_plugin (recv_by_handle quiet quiet pick h t);
  close_send = λ h t. or_same t (close_send_by_handle h t);
  close = λ h t. closed_in t (close_by_handle h t);
}

module _ {κ} {M : Type κ} (unmarshal : Bytes → Result M) (pick : Pick) where
  abbrev repeat : ℕ → List (Result M)
  repeat zero = []
  repeat (suc n) = err eof ∷ repeat n

  -- `n` calls of RecvMsg whose context is never done.
  unfoldable pub recv_msgs : ℕ → World Table → List (Result M)
  recv_msgs zero w = []
  recv_msgs (suc n) w =
      let (w', r) = recv_msg (platform pick) unmarshal none none true w in r ∷ recv_msgs n w'

  -- The world of a live stream: the plugin lets calls through, and the table has the stream.
  pub record IsLive (w : World Table) (s : Stream) : Type 0 where
    pub loaded : w.plugin.closed ≡ false
    pub has_funcs : w.plugin.stream_funcs ≢ none
    pub live : w.closed ≡ false
    pub found : lookup w.handle w.library.streams ≡ some s

  after_close : (n : ℕ) (w : World Table) → w.closed ≡ true → recv_msgs n w ≡ repeat n
  unfolding recv_msgs recv_msg
  after_close zero w e = refl
  after_close (suc n) w e = ground (arith, after_close n w)

  -- One response of the library, read by `Recv`.
  recv_data :
      (w : World Table) (s s' : Stream) (d : Bytes)
      → IsLive w s
      → Fits d
      → stream_recv quiet quiet pick s ≡ returns (frame 0 d) s'
      → ((recv (platform pick) w).1 ≡ ok d) × IsLive (recv (platform pick) w).0 s'
  unfolding recv plugin_recv Library.stream_recv acquire_for_stream_op release recv_by_handle
      host_read
  recv_data w s s' d v fits e = (
    ground (arith, v.loaded, v.has_funcs, v.live, v.found, (host_read-frame d fits).0),
    record {
      loaded = ground (arith, v.loaded, v.has_funcs, v.live, v.found, (host_read-frame d fits).0);
      has_funcs =
          ground (arith, v.loaded, v.has_funcs, v.live, v.found, (host_read-frame d fits).0);
      live = ground (arith, v.loaded, v.has_funcs, v.live, v.found, (host_read-frame d fits).0);
      found = ground (
        arith,
        v.loaded,
        v.has_funcs,
        v.live,
        v.found,
        (host_read-frame d fits).0,
        lookup-insert w.handle w.handle s' w.library.streams,
      );
    },
  )

  recv_error :
      (w : World Table) (s s' : Stream) (r : Response) (e : Error)
      → IsLive w s
      → stream_recv quiet quiet pick s ≡ returns r s'
      → host_read r ≡ some (err e)
      → ((recv (platform pick) w).1 ≡ err e) × ((recv (platform pick) w).0.closed ≡ true)
  unfolding recv plugin_recv Library.stream_recv acquire_for_stream_op release recv_by_handle
      host_read close_internal plugin_close Library.stream_close
  recv_error w s s' r e v step read = (
    ground (arith, v.loaded, v.has_funcs, v.live, v.found),
    ground (arith, v.loaded, v.has_funcs, v.live, v.found),
  )

  recv_end :
      (w : World Table) (s : Stream) (es : List Bytes)
      → IsLive w s
      → s.recv_ch.buf ≡ []
      → s.recv_ch.closed ≡ true
      → s.err_ch.buf ≡ es
      → All Fits es
      → ((recv (platform pick) w).1 ≡ err (ending es)) × ((recv (platform pick) w).0.closed ≡ true)
  unfolding stream_recv
  recv_end w s [] v hb hc he fits =
      recv_error w s s (bare 1) eof v (ground arith) (unfold host_read bare in refl)
  recv_end w s (x ∷ es) v hb hc he fits =
      recv_error w s (record s { err_ch = record s.err_ch { buf = es } }) (frame 1 x)
        (plugin_error x) v (ground arith) (host_read-frame x fits.0).1

  msgs_ok :
      (n : ℕ) (w : World Table) (d : Bytes)
      → (recv (platform pick) w).1 ≡ ok d
      → recv_msgs (suc n) w ≡ unmarshal d ∷ recv_msgs n (recv (platform pick) w).0
  unfolding recv_msgs recv_msg with_context
  msgs_ok n w d e = ground (arith, e)

  msgs_err :
      (n : ℕ) (w : World Table) (e : Error)
      → (recv (platform pick) w).1 ≡ err e
      → (recv (platform pick) w).0.closed ≡ true
      → recv_msgs (suc n) w ≡ err e ∷ repeat n
  unfolding recv_msgs recv_msg with_context close_internal
  msgs_err n w e failed over = ground (arith, failed, after_close n (recv (platform pick) w).0)

  -- The messages that a plugin's handler has left in its stream reach the client's RecvMsg across the C
  -- interface, decoded and in order; then RecvMsg returns the handler's error, or the end of the stream if
  -- there is none, and the end of the stream from then on. So it is for every stream that is live when its
  -- handler has finished, with contexts that are not done and frames that a C int can measure.
  pub recv_msgs-delivers :
      (n : ℕ) (ds es : List Bytes) (w : World Table) (s : Stream)
      → IsLive w s
      → s.recv_ch.buf ≡ ds
      → s.recv_ch.closed ≡ true
      → s.err_ch.buf ≡ es
      → All Fits ds
      → All Fits es
      → recv_msgs (length ds + suc n) w ≡ map unmarshal ds ++ err (ending es) ∷ repeat n
  recv_msgs-delivers n [] es w s v hb hc he fits fits' =
      let (failed, over) = recv_end w s es v hb hc he fits' in
      let count : 0 + suc n ≡ suc n = omega arith in rw count (msgs_err n w (ending es) failed over)
  recv_msgs-delivers n (d ∷ ds) es w s v hb hc he fits fits' =
      let s' = record s { recv_ch = record s.recv_ch { buf = ds } } in
      let (got, next) = recv_data w s s' d v fits.0 (unfold stream_recv in ground arith) in
      let rest =
        recv_msgs-delivers n ds es (recv (platform pick) w).0 s' next refl hc he fits.1 fits' in
      let count : suc (length ds) + suc n ≡ suc (length ds + suc n) = omega arith in
      rw count (msgs_ok (length ds + suc n) w d got ∙ ap (λ rs. unmarshal d ∷ rs) rest)
