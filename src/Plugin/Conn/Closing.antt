-- ===== src/Plugin/Conn/Closing.antt =====
-- pkg/synurang/plugin_conn.go: a stream is closed once, whatever its calls return.
use synurang.Common.{
  ℕ, ◌≡◌, ◌≢◌, Bool, true, false, Bytes, List, [], ◌∷◌, Option, none, some, arith, if◌then◌else◌,
  lookup, nat_eq,
}
use synurang.Common.Counting.{count, count-append}
use synurang.Plugin.Errors.{Error, Result, ok, err}
use synurang.Plugin.Library.{
  acquire_for_stream_op, release, stream_send, stream_recv, stream_close_send, stream_close,
}
use synurang.Plugin.Conn.{
  World, Platform, plugin_send, plugin_recv, plugin_close_send, plugin_close, send, recv,
  close_send, close_internal, decoded, send_bytes, send_msg, recv_msg, with_context, close_if_over,
}

-- The calls of a client, with what the context does and whether the message is one.
pub data Call {κ} (M : Type κ) : Type κ where
  sends : Option Error → Option Error → Option M → Call M
  recvs : Option Error → Option Error → Bool → Call M
  close_sends closes : Call M

-- A stream of an open plugin, which is active until it is closed; it was closed once if it is closed.
pub record IsTracked {ℓ} {L : Type ℓ} (h : ℕ) (w : World L) : Type 0 where
  pub named : w.handle ≡ h
  pub loaded : (w.plugin.closed ≡ false) × (w.plugin.handle ≢ 0)
  pub has_funcs : w.plugin.stream_funcs ≢ none
  pub active : w.closed ≡ false → lookup h w.plugin.active_streams ≢ none
  pub once : count h w.closes ≡ (if w.closed then 1 else 0)

module _ {ℓ κ} {L : Type ℓ} {M : Type κ} (P : Platform L) (marshal : M → Result Bytes)
    (unmarshal : Bytes → Result M) where
  unfoldable pub call : Call M → World L → World L
  unfolding send_msg recv_msg close_send close_internal
  call (sends before during m) w = (send_msg P marshal before during m w).0
  call (recvs before during is_message) w = (recv_msg P unmarshal before during is_message w).0
  call close_sends w = (close_send P w).0
  call closes w = close_internal P w

  unfoldable pub calls : List (Call M) → World L → World L
  unfolding call
  calls [] w = w
  calls (c ∷ cs) w = calls cs (call c w)

module _ {ℓ} {L : Type ℓ} (P : Platform L) (h : ℕ) where
  close_internal-IsTracked : (w : World L) → IsTracked h w → IsTracked h (close_internal P w)
  unfolding close_internal plugin_close stream_close release count
  close_internal-IsTracked w v = record {
    named = ground (arith, v.named);
    loaded = ground (arith, v.loaded);
    has_funcs = ground (arith, v.has_funcs);
    active = ground (arith, v.active);
    once = ground (
      arith,
      v.named,
      v.loaded,
      v.has_funcs,
      v.active,
      v.once,
      count-append h w.closes (w.handle ∷ []),
    );
  }

  send-IsTracked : (d : Bytes) (w : World L) → IsTracked h w → IsTracked h (send P d w).0
  unfolding send plugin_send stream_send acquire_for_stream_op release
  send-IsTracked d w v = ground (arith, v.named, v.loaded, v.has_funcs, v.active, v.once)

  plugin_recv-IsTracked : (w : World L) → IsTracked h w → IsTracked h (plugin_recv P w).0
  unfolding plugin_recv stream_recv acquire_for_stream_op release
  plugin_recv-IsTracked w v = ground (arith, v.named, v.loaded, v.has_funcs, v.active, v.once)

  close_send-IsTracked : (w : World L) → IsTracked h w → IsTracked h (close_send P w).0
  unfolding close_send plugin_close_send stream_close_send acquire_for_stream_op release
  close_send-IsTracked w v = ground (arith, v.named, v.loaded, v.has_funcs, v.active, v.once)

  recv-IsTracked : (w : World L) → IsTracked h w → IsTracked h (recv P w).0
  unfolding recv
  recv-IsTracked w v =
      let v' = plugin_recv-IsTracked w v in
      ground (arith, v, v', close_internal-IsTracked (plugin_recv P w).0 v')

  -- The function runs in the context, or not at all; then the stream may be closed.
  over-IsTracked {κ} :
      {A : Type κ} (before during : Option Error) (f : World L → World L × Result A) (w : World L)
      → IsTracked h w
      → IsTracked h (f w).0
      → IsTracked h (close_if_over P (with_context before during f w)).0
  unfolding with_context
  over-IsTracked (some e) during f w v v' = ground (arith, v, close_internal-IsTracked w v)
  over-IsTracked none during f w v v' = ground (arith, v, v', close_internal-IsTracked (f w).0 v')

  bytes-IsTracked :
      (before during : Option Error) (r : Result Bytes) (w : World L)
      → IsTracked h w
      → IsTracked h (send_bytes P before during r w).0
  unfolding send_bytes
  bytes-IsTracked before during (err e) w v = v
  bytes-IsTracked before during (ok d) w v =
      over-IsTracked before during (send P d) w v (send-IsTracked d w v)

decoded-IsTracked {ℓ κ} :
    {L : Type ℓ} {M : Type κ} (h : ℕ) (unmarshal : Bytes → Result M) (out : World L × Result Bytes)
    → IsTracked h out.0
    → IsTracked h (decoded unmarshal out).0
decoded-IsTracked h unmarshal (w, ok d) v = v
decoded-IsTracked h unmarshal (w, err e) v = v

module _ {ℓ κ} {L : Type ℓ} {M : Type κ} (P : Platform L) (marshal : M → Result Bytes)
    (unmarshal : Bytes → Result M) where
  call-IsTracked :
      (h : ℕ) (c : Call M) (w : World L)
      → IsTracked h w
      → IsTracked h (call P marshal unmarshal c w)
  unfolding call send_msg recv_msg
  call-IsTracked h (sends before during none) w v = v
  call-IsTracked h (sends before during (some m)) w v =
      bytes-IsTracked P h before during (marshal m) w v
  call-IsTracked h (recvs before during false) w v = v
  call-IsTracked h (recvs before during true) w v =
      decoded-IsTracked h unmarshal (close_if_over P (with_context before during (recv P) w))
        (over-IsTracked P h before during (recv P) w v (recv-IsTracked P h w v))
  call-IsTracked h close_sends w v = close_send-IsTracked P h w v
  call-IsTracked h closes w v = close_internal-IsTracked P h w v

  -- A stream that is open is closed in the library exactly when the client's stream is closed, and then
  -- once, after any sequence of calls: sends, receives, closings of either side, errors of the library,
  -- and contexts that are done before or during a call.
  pub calls-IsTracked :
      (h : ℕ) (cs : List (Call M)) (w : World L)
      → IsTracked h w
      → IsTracked h (calls P marshal unmarshal cs w)
  unfolding calls
  calls-IsTracked h [] w v = v
  calls-IsTracked h (c ∷ cs) w v =
      calls-IsTracked h cs (call P marshal unmarshal c w) (call-IsTracked h c w v)
