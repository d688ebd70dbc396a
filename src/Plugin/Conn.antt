-- ===== src/Plugin/Conn.antt =====
-- pkg/synurang/plugin_conn.go: `PluginStream`, and the gRPC client connection and stream over it.
pub mod Closing
pub mod Delivery
mod Tests
use synurang.Common.{
  ℕ, ◌+◌, Bool, true, false, Bytes, List, [], ◌∷◌, ◌++◌, Option, none, some, if◌then◌else◌,
}
use synurang.Plugin.Errors.{
  Error, Result, ok, err, eof, stream_closed, context_cancelled, deadline_exceeded, not_a_message,
  marshal_failed,
}
use synurang.Plugin.Wire.{Received}
use synurang.Plugin.Library.{
  Plugin, Opened, opened, refused, closed_again, crashed, acquire_for_stream_op, release,
  stream_send, stream_recv, stream_close_send, stream_close, open_stream, call_plugin,
}

-- The plugin, one of its streams (`handle`, `closed`), and the state of the library that the platform's
-- functions act on; `closes` records the calls of `platformStreamClose`.
pub record World {ℓ} (L : Type ℓ) : Type ℓ where
  pub plugin : Plugin
  pub handle : ℕ
  pub closed : Bool
  pub library : L
  pub closes : List ℕ

-- The platform's functions on a handle: a send answers a code, a receive what `unixStreamRecv` returns.
pub record Platform {ℓ} (L : Type ℓ) : Type ℓ where
  pub send : ℕ → Bytes → L → L × ℕ
  pub recv : ℕ → L → L × Received
  pub close_send : ℕ → L → L
  pub close : ℕ → L → L

module _ {ℓ} {L : Type ℓ} (P : Platform L) where
  -- A call reaches the library only if the plugin lets it.
  abbrev reach : World L → L → L
  reach w l = elim (acquire_for_stream_op w.plugin) [ ok q ↦ l | err e ↦ w.library ]

  -- `Plugin.StreamSend`, `StreamRecv`, `StreamCloseSend` and `StreamClose` on the stream's handle.
  unfoldable pub plugin_send : Bytes → World L → World L × Result (Unit {0})
  unfolding stream_send
  plugin_send d w =
      let (l, n) = P.send w.handle d w.library in
      let (p, r) = stream_send (λ fn h b. n) w.handle d w.plugin in
      (record w { plugin = p; library = reach w l }, r)

  unfoldable pub plugin_recv : World L → World L × Result Bytes
  unfolding stream_recv
  plugin_recv w =
      let (l, x) = P.recv w.handle w.library in
      let (p, r) = stream_recv (λ fn free h. x) w.handle w.plugin in
      (record w { plugin = p; library = reach w l }, r)

  unfoldable pub plugin_close_send : World L → World L × Result ℕ
  unfolding stream_close_send
  plugin_close_send w =
      let (p, r) = stream_close_send w.plugin in
      (record w { plugin = p; library = reach w (P.close_send w.handle w.library) }, r)

  unfoldable pub plugin_close : World L → World L
  unfolding stream_close release
  plugin_close w =
      let (p, f) = stream_close w.handle w.plugin in
      elim f [
        | none ↦ record w { plugin = p }
        | some fn ↦ record w {
          plugin = release p;
          library = P.close w.handle w.library;
          closes = w.closes ++ w.handle ∷ [];
        }
      ]

  -- `PluginStream.Send`, `closeInternal`, `Recv` and `CloseSend`.
  unfoldable pub send : Bytes → World L → World L × Result (Unit {0})
  unfolding plugin_send
  send d w = if w.closed then (w, err stream_closed) else plugin_send d w

  unfoldable pub close_internal : World L → World L
  unfolding plugin_close
  close_internal w = if w.closed then w else plugin_close (record w { closed = true })

  unfoldable pub recv : World L → World L × Result Bytes
  unfolding plugin_recv close_internal
  recv w =
      if w.closed
      then (w, err eof)
      else (let (w', r) = plugin_recv w in
          elim r [ ok d ↦ (w', ok d) | err e ↦ (close_internal w', err e) ])

  unfoldable pub close_send : World L → World L × Result (Unit {0})
  unfolding plugin_close_send
  close_send w =
      if w.closed
      then (w, ok tt)
      else (let (w', r) = plugin_close_send w in
          elim r [ ok fn ↦ (w', ok tt) | err e ↦ (w', err e) ])

-- `before`: the context's error before the call; `during`: the error that the select takes while the
-- call runs.
-- `withContext`. The function's goroutine runs to its end also if its result is dropped.
unfoldable pub with_context {ℓ κ} :
    {W : Type ℓ} {A : Type κ} → Option Error → Option Error → (W → W × Result A) → W → W × Result A
with_context (some e) during f w = (w, err e)
with_context none during f w =
    let (w', r) = f w in elim during [ none ↦ (w', r) | some e ↦ (w', err e) ]

-- `errors.Is(err, context.Canceled) || errors.Is(err, context.DeadlineExceeded)`.
abbrev pub is_over : Error → Bool
is_over context_cancelled = true
is_over deadline_exceeded = true
is_over e = false

module _ {ℓ} {L : Type ℓ} (P : Platform L) where
  abbrev pub close_if_over {μ} : {A : Type μ} → World L × Result A → World L × Result A
  close_if_over (w, ok a) = (w, ok a)
  close_if_over (w, err e) = if is_over e then (close_internal P w, err e) else (w, err e)

  -- SendMsg, once the message is marshalled.
  unfoldable pub send_bytes :
      Option Error → Option Error → Result Bytes → World L → World L × Result (Unit {0})
  unfolding send with_context close_internal
  send_bytes before during (err e) w = (w, err e)
  send_bytes before during (ok d) w = close_if_over (with_context before during (send P d) w)

module _ {ℓ κ} {L : Type ℓ} {M : Type κ} where
  abbrev pub decoded : (Bytes → Result M) → World L × Result Bytes → World L × Result M
  decoded unmarshal (w, ok d) = (w, unmarshal d)
  decoded unmarshal (w, err e) = (w, err e)

module _ {ℓ κ} {L : Type ℓ} {M : Type κ} (P : Platform L) where
  -- `pluginClientStream.SendMsg`; a value that is no message is `none`.
  unfoldable pub send_msg :
      (M → Result Bytes)
      → Option Error
      → Option Error
      → Option M
      → World L
      → World L × Result (Unit {0})
  unfolding send_bytes
  send_msg marshal before during none w = (w, err not_a_message)
  send_msg marshal before during (some m) w = send_bytes P before during (marshal m) w

  -- `pluginClientStream.RecvMsg`; `is_message`: the target is a proto.Message.
  unfoldable pub recv_msg :
      (Bytes → Result M) → Option Error → Option Error → Bool → World L → World L × Result M
  unfolding recv with_context close_internal
  recv_msg unmarshal before during is_message w =
      if is_message
      then decoded unmarshal (close_if_over P (with_context before during (recv P) w))
      else (w, err not_a_message)

-- `PluginClientConn.Invoke`. `first` is the context's error at its start; request and reply are `none`
-- where they are no messages. `invoke` is the platform's, `between` what others do to the plugin.
unfoldable pub conn_invoke {κ} :
    {M : Type κ}
    → (M → Result Bytes)
    → (Bytes → Result M)
    → (ℕ → ℕ → Bytes → Bytes → Result Bytes)
    → (ℕ → Bytes → Result ℕ)
    → (Plugin → Plugin)
    → Option Error
    → Option Error
    → Option Error
    → Bytes
    → Bytes
    → Option M
    → Bool
    → Plugin
    → Plugin × Result M
unfolding call_plugin with_context
conn_invoke marshal unmarshal invoke sym between (some e) before during service method request reply
      p =
    (p, err e)
conn_invoke marshal unmarshal invoke sym between none before during service method none reply p =
    (p, err not_a_message)
conn_invoke marshal unmarshal invoke sym between none before during service method (some m) false
      p =
    (p, err not_a_message)
conn_invoke marshal unmarshal invoke sym between none before during service method (some m) true p =
    elim (marshal m) [
      | err e ↦ (p, err e)
      | ok d ↦
          let (q, r) =
            with_context before during (call_plugin sym invoke between service method d) p in
          elim r [ err e ↦ (q, err e) | ok answer ↦ (q, unmarshal answer) ]
    ]

-- `PluginClientConn.NewStream`: the new stream's handle.
unfoldable pub new_stream :
    (ℕ → Bytes → Result ℕ)
    → (ℕ → Bytes → ℕ)
    → (Plugin → Plugin)
    → (Plugin → Plugin)
    → Option Error
    → Bytes
    → Bytes
    → Plugin
    → Plugin × Result Opened
unfolding open_stream
new_stream sym stream_open between then_ (some e) service method p = (p, err e)
new_stream sym stream_open between then_ none service method p =
    let (q, o) = open_stream sym stream_open between then_ service method p in (q, ok o)
