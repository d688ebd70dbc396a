-- ===== src/Core/Bidi.antt =====
-- pkg/service/server.go: `InvokeDartBidiStream`. The reader's goroutine and the call that waits for it take
-- turns; the steps that the reader takes while the requests are sent are left to its turns after them.
pub mod Returning
use synurang.Common.{
  ℕ, zero, suc, Bool, true, false, Bytes, List, [], ◌∷◌, ◌++◌, Option, none, some, above, ◌&&◌,
  if◌then◌else◌,
}
use synurang.Session.{bidi_stream}
use synurang.Session.Store.{Store, close_stream_session}
use synurang.Core.{Config}
use synurang.Core.Dart.{
  World, Dart, Failure, no_callback, callback_failed, timed_out, Outcome, returned, fails, running,
  crashed, Turn, Pick, data_case, done_case, timer_case, Stage, chunk, no_more, is_done, expired,
  goes_on, poll_data, poll_done, close_then, open_session, method_with_id, send_requests, send_end,
}

-- The select of the reader.
unfoldable pub read_any : ℕ → Pick → World → Stage
unfolding poll_data poll_done
read_any n done_case w = elim (poll_done n w) [ is_done ↦ is_done | _ ↦ poll_data n w ]
read_any n _ w = elim (poll_data n w) [ goes_on ↦ poll_done n w | stage ↦ stage ]

-- Where the call is: the reader has returned, the timer has been taken first, or neither yet. With what
-- the reader has collected.
pub data Reading {ℓ} (M : Type ℓ) : Type ℓ where
  finished timed still : World → List M → Reading M

module _ {ℓ} {M : Type ℓ} (marshal : M → Option Bytes) (unmarshal : Bytes → Option M) where
  -- One round of the reader's loop.
  abbrev pub take_in : (List M → World → Reading M) → List M → World → Stage → Reading M
  take_in continue acc w (chunk d v) = elim (unmarshal d) [
    | none ↦ continue acc v
    | some m ↦ continue (acc ++ m ∷ []) v
  ]
  take_in continue acc w no_more = finished w acc
  take_in continue acc w is_done = finished w acc
  take_in continue acc w expired = continue acc w
  take_in continue acc w goes_on = continue acc w

  abbrev pub is_timer : Pick → Bool
  is_timer timer_case = true
  is_timer data_case = false
  is_timer done_case = false

  -- `armed`: the call still waits for its timer, and takes it in a turn that says so.
  unfoldable pub read_until : Bool → List Turn → ℕ → List M → World → Reading M
  unfolding read_any
  read_until armed [] n acc w = still w acc
  read_until armed (t ∷ ts) n acc w =
      let read =
        take_in (read_until armed ts n) acc (t.between w) (read_any n t.pick (t.between w)) in
      if armed && t.fired && is_timer t.pick then timed (t.between w) acc else read

  -- `<-done`: the call returns what the reader has when it finishes.
  abbrev pub returning : Option Failure → Reading M → World × Outcome (List M × Option Failure)
  returning failure (finished w acc) = (w, returned (acc, failure))
  returning failure (timed w acc) = (w, running)
  returning failure (still w acc) = (w, running)

  abbrev pub drained :
      List Turn → ℕ → List M → World → Option Store → World × Outcome (List M × Option Failure)
  drained later n acc w none = (w, crashed)
  drained later n acc w (some st) =
      returning (some timed_out) (read_until false later n acc (record w { store = st }))

  -- From the timeout on: the session is closed, and the reader waited for.
  unfoldable pub after_timeout :
      List Turn → ℕ → List M → World → World × Outcome (List M × Option Failure)
  unfolding read_until
  after_timeout later n acc w = drained later n acc w (close_stream_session n w.store)

  -- `late`: the timer has fired too when the reader is done, and the select takes it.
  abbrev pub settle :
      Bool → List Turn → ℕ → Option Failure → Reading M → World × Outcome (List M × Option Failure)
  settle late later n failure (finished w acc) =
      if late then after_timeout later n acc w else (w, returned (acc, failure))
  settle late later n failure (timed w acc) = after_timeout later n acc w
  settle late later n failure (still w acc) = (w, running)

  unfoldable pub invoke_dart_bidi_stream :
      (M → Bytes)
      → Config
      → Option Dart
      → List Turn
      → Bool
      → List Turn
      → Bytes
      → List M
      → World
      → World × Outcome (List M × Option Failure)
  unfolding open_session method_with_id close_then send_requests send_end read_until after_timeout
  invoke_dart_bidi_stream partial cfg none turns late later method reqs w = (w, fails no_callback)
  invoke_dart_bidi_stream partial cfg (some dart) turns late later method reqs w =
      let (v, n) = open_session method bidi_stream w in
      let (v', r) = dart.callback (method_with_id method n) [] v in
      elim r [
        | none ↦ close_then n (fails callback_failed) v'
        | some answer ↦
            let (u, failure) = send_requests marshal unmarshal partial dart 0 reqs n v' in
            let armed = above cfg.stream_timeout 0 in
            settle (armed && late) later n failure
              (read_until armed turns n [] (send_end marshal unmarshal dart n u))
      ]
