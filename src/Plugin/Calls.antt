-- ===== src/Plugin/Calls.antt =====
-- pkg/synurang/plugin.go: the calls of one plugin, on every branch.
use synurang.Common.{
  ℕ, ◌+◌, ◌≡◌, ◌≢◌, refl, true, Bytes, none, arith, lookup, bytes_eq, ◌⊎◌, inl, inr,
}
use synurang.Plugin.Errors.{Error, Result, ok, err, plugin_closed}
use synurang.Plugin.Wire.{Received, invoke_result}
use synurang.Plugin.Library.{
  Plugin, refused, crashed, acquire, acquire_for_stream_op, release, get_invoker, load_invoker,
  get_stream_opener, load_stream_opener, ensure_stream_funcs, invoke_internal, call_plugin,
  open_stream, track, track_done, stream_close_call, stream_send, stream_recv, stream_close_send,
  stream_close, close_begin,
}
use synurang.Plugin.Unloading.{IsReady}

Result-cases : (r : Result ℕ) → ((e : Error) × (r ≡ err e)) ⊎ ((n : ℕ) × (r ≡ ok n))
Result-cases (err e) = inl (e, refl)
Result-cases (ok n) = inr (n, refl)

module _ (sym : ℕ → Bytes → Result ℕ) (invoke : ℕ → ℕ → Bytes → Bytes → Result Bytes)
    (stream_open : ℕ → Bytes → ℕ) (send : ℕ → ℕ → Bytes → ℕ) (recv : ℕ → ℕ → ℕ → Received) where
  -- A closed plugin refuses every call with `ErrPluginClosed`, without a call into the library and without
  -- a change; `StreamClose` and a second `Close` do nothing.
  pub calls_when_closed :
      (between then_ : Plugin → Plugin) (service method d : Bytes) (h : ℕ) (p : Plugin)
      → p.closed ≡ true
      → (call_plugin sym invoke between service method d p ≡ (p, err plugin_closed))
        × (open_stream sym stream_open between then_ service method p ≡ (p, refused plugin_closed))
        × (stream_send send h d p ≡ (p, err plugin_closed))
        × (stream_recv recv h p ≡ (p, err plugin_closed))
        × (stream_close_send p ≡ (p, err plugin_closed))
        × (stream_close h p ≡ (p, none))
        × (close_begin p ≡ (p, none))
  unfolding call_plugin invoke_internal acquire open_stream stream_send stream_recv
      stream_close_send acquire_for_stream_op stream_close close_begin invoke_result
  calls_when_closed between then_ service method d h p e = ground arith

  invoker-running :
      (between : Plugin → Plugin) (service : Bytes) (p : Plugin)
      → (between p).running ≡ p.running
      → (get_invoker sym between service p).0.running ≡ p.running
  unfolding get_invoker load_invoker
  invoker-running between service p hb = ground (arith, hb)

  opener-running :
      (between : Plugin → Plugin) (service : Bytes) (p : Plugin)
      → (between p).running ≡ p.running
      → (get_stream_opener sym between service p).0.running ≡ p.running
  unfolding get_stream_opener load_stream_opener ensure_stream_funcs
  opener-running between service p hb = ground (arith, hb)

  call-running :
      (between : Plugin → Plugin) (service method d : Bytes) (p : Plugin)
      → ((q : Plugin) → (between q).running ≡ q.running)
      → (call_plugin sym invoke between service method d p).0.running ≡ p.running
  unfolding call_plugin invoke_internal acquire release
  call-running between service method d p hb =
      let q : Plugin = record p { running = p.running + 1 } in
      ground (arith, invoker-running between service q (hb q))

  open-running :
      (between then_ : Plugin → Plugin) (service method : Bytes) (p : Plugin)
      → ((q : Plugin) → (between q).running ≡ q.running)
      → ((q : Plugin) → (then_ q).running ≡ q.running)
      → ((open_stream sym stream_open between then_ service method p).0.running ≡ p.running)
        ⊎ ((open_stream sym stream_open between then_ service method p).1 ≡ crashed)
  unfolding open_stream acquire release track track_done
  open-running between then_ service method p hb ht =
      let q : Plugin = record p { running = p.running + 1 } in
      ground (
        arith,
        opener-running between service q (hb q),
        ht (get_stream_opener sym between service q).0,
      )

  -- Each of `Invoke`, `OpenStream`, `StreamSend`, `StreamRecv`, `StreamCloseSend` and `StreamClose` gives
  -- back what it took of the wait group, on every branch and every error, when the work of others in between
  -- leaves the wait group as it was and `OpenStream` does not dereference nil stream functions.
  pub calls_balanced :
      (between then_ : Plugin → Plugin) (service method d : Bytes) (h : ℕ) (p : Plugin)
      → ((q : Plugin) → (between q).running ≡ q.running)
      → ((q : Plugin) → (then_ q).running ≡ q.running)
      → ((call_plugin sym invoke between service method d p).0.running ≡ p.running)
        × (((open_stream sym stream_open between then_ service method p).0.running ≡ p.running)
            ⊎ ((open_stream sym stream_open between then_ service method p).1 ≡ crashed))
        × ((stream_send send h d p).0.running ≡ p.running)
        × ((stream_recv recv h p).0.running ≡ p.running)
        × ((stream_close_send p).0.running ≡ p.running)
        × ((stream_close_call h p).0.running ≡ p.running)
  unfolding stream_send stream_recv stream_close_send stream_close_call stream_close
      acquire_for_stream_op release
  calls_balanced between then_ service method d h p hb ht = (
    call-running between service method d p hb,
    open-running between then_ service method p hb ht,
    ground arith,
    ground arith,
    ground arith,
    ground arith,
  )

  -- A service whose opener is known has its stream functions loaded.
  opener-funcs :
      (between : Plugin → Plugin) (service : Bytes) (p : Plugin) (ptr : ℕ)
      → IsReady p
      → IsReady (between p)
      → (get_stream_opener sym between service p).1 ≡ ok ptr
      → (get_stream_opener sym between service p).0.stream_funcs ≢ none
  unfolding get_stream_opener load_stream_opener ensure_stream_funcs lookup
  opener-funcs between service p ptr ready ready' e = ground (arith, ready.without, ready'.without)

  -- `OpenStream` never closes a stream by a nil pointer: whatever others do to a ready plugin in between,
  -- short of dropping the stream functions, it ends in a stream or in an error.
  pub open_stream-safe :
      (between then_ : Plugin → Plugin) (service method : Bytes) (p : Plugin)
      → IsReady p
      → ((q : Plugin) → IsReady q → IsReady (between q))
      → ((q : Plugin) → q.stream_funcs ≢ none → (then_ q).stream_funcs ≢ none)
      → (open_stream sym stream_open between then_ service method p).1 ≢ crashed
  unfolding open_stream acquire release track
  open_stream-safe between then_ service method p ready hb ht =
      let q : Plugin = record p { running = p.running + 1 } in
      let ready' : IsReady q = record {
        without = ready.without;
        close_ptr = ready.close_ptr;
        emptied = ready.emptied;
      } in
      elim (Result-cases (get_stream_opener sym between service q).1) [
        | inl (e, failed) ↦ ground (arith, failed)
        | inr (ptr, found) ↦ ground (
          arith,
          found,
          opener-funcs between service q ptr ready' (hb q ready') found,
          ht (get_stream_opener sym between service q).0,
        )
      ]
