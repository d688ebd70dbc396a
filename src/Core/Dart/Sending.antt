-- ===== src/Core/Dart/Sending.antt =====
-- pkg/service/server.go: what a client stream hands to Dart.
use synurang.Common.{
  ℕ, suc, ◌≡◌, true, false, Bytes, List, [], ◌∷◌, ◌++◌, Option, none, some, map, arith, lookup,
  nat_eq,
}
use mathlib.Core.List.{append_assoc, append-nil}
use synurang.Session.{Session, Event, event, data_msg, end_msg}
use synurang.Core.Dart.{World, Dart, send_requests, send_end, payload}

module _ {ℓ} {M : Type ℓ} (marshal : M → Option Bytes) (unmarshal : Bytes → Option M)
    (partial : M → Bytes) (dart : Dart) (n : ℕ) (s : Session)
    (quiet : (w : World) → (e : Event) → dart.hears e w ≡ w) where
  abbrev chunks : List M → List Event
  chunks = map (λ m. event s data_msg (payload marshal unmarshal partial m))

  sent_all :
      (i : ℕ) (ms : List M) (w : World)
      → lookup n w.store.heap ≡ some s
      → s.closed ≡ false
      → s.callback ≡ true
      → send_requests marshal unmarshal partial dart i ms n w
        ≡ (record w { log = w.log ++ chunks ms }, none)
  unfolding send_requests
  sent_all i [] w e o c = ground (arith, append-nil w.log)
  sent_all i (m ∷ ms) w e o c =
      let ev = event s data_msg (payload marshal unmarshal partial m) in
      let w' = record w { log = w.log ++ ev ∷ [] } in
      ground
        (arith, quiet w' ev, sent_all (suc i) ms w' e o c, append_assoc w.log (ev ∷ []) (chunks ms))

  -- On an open session with a callback, while Dart does nothing to the sessions, a client stream hands to
  -- Dart one data message for each request, in order, then the end, and changes no session; a
  -- request that cannot be marshalled goes out as whatever bytes came with the error, which is dropped.
  pub sends_requests :
      (i : ℕ) (ms : List M) (w : World)
      → lookup n w.store.heap ≡ some s
      → s.closed ≡ false
      → s.callback ≡ true
      → let (w', failure) = send_requests marshal unmarshal partial dart i ms n w in
        (failure ≡ none)
        × ((send_end marshal unmarshal dart n w').log
            ≡ w.log ++ (chunks ms ++ event s end_msg [] ∷ []))
        × ((send_end marshal unmarshal dart n w').store ≡ w.store)
  unfolding send_end
  sends_requests i ms w e o c =
      let ev = event s end_msg [] in
      let log = w.log ++ chunks ms in
      let ended = record w { log = log ++ ev ∷ [] } in
      ground
        (arith, sent_all i ms w e o c, quiet ended ev, append_assoc w.log (chunks ms) (ev ∷ []))
