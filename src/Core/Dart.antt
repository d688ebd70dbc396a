-- ===== src/Core/Dart.antt =====
-- pkg/service/server.go: the calls into Dart. What other goroutines and Dart do to the sessions while a
-- call waits is part of its schedule. Log lines are left out.
pub mod Collecting
pub mod Releasing
pub mod Sending
use synurang.Common.{
  ℕ, zero, suc, ◌+◌, ◌-◌, ◌/◌, ◌%◌, ◌^◌, Bool, true, false, Bytes, List, [], ◌∷◌, ◌++◌, Option,
  none, some, ltb, nat_beq, if◌then◌else◌, ◌&&◌, insert, lookup, nat_eq, got, drained, empty,
  chan_recv, above,
}
use synurang.Session.{
  Session, StreamType, server_stream, bidi_stream, Event, Error, ok, err, send_from_stream,
  close_send,
}
use synurang.Session.Store.{Store, new_stream_session, close_stream_session}
use synurang.Core.{Config, Core, Metadata, outgoing}

-- The table of sessions, and what has been handed to Dart.
pub record World : Type 0 where
  pub store : Store
  pub log : List Event

-- The registered callback, whose answer is `none` for an error, and what Dart does when it hears an event.
pub record Dart : Type 0 where
  pub callback : Bytes → Bytes → World → World × Option Bytes
  pub hears : Event → World → World

pub data Failure : Type 0 where
  no_callback marshal_failed callback_failed unmarshal_failed grpc_failed timed_out closed_early :
      Failure
  send_failed : ℕ → Error → Failure

-- `running`: the schedule is over and the call has not returned; `crashed` is a panic.
pub data Outcome {ℓ} (A : Type ℓ) : Type ℓ where
  returned : A → Outcome A
  fails : Failure → Outcome A
  running crashed : Outcome A

pub data Pick : Type 0 where
  data_case done_case timer_case : Pick

-- One look at a `select`: what the others have done before it, the case that is preferred among the ready
-- ones, and whether the timer has fired by then.
pub record Turn : Type 0 where
  pub between : World → World
  pub pick : Pick
  pub fired : Bool

-- `%d` of an int64, with its pattern of 64 bits; it has 19 digits at most.
unfoldable pub digits : ℕ → ℕ → Bytes → Bytes
digits zero n acc = acc
digits (suc fuel) n acc =
    let acc' = (b'0' + n % 10) ∷ acc in
    let rest = digits fuel (n / 10) acc' in if ltb n 10 then acc' else rest

unfoldable pub print_id : ℕ → Bytes
unfolding digits
print_id n = if ltb n (2 ^ 63) then digits 20 n [] else b'-' ∷ digits 20 (2 ^ 64 - n) []

unfoldable pub method_with_id : Bytes → ℕ → Bytes
unfolding print_id
method_with_id method n = method ++ (b':' ∷ print_id n)

unfoldable pub open_session : Bytes → StreamType → World → World × ℕ
unfolding new_stream_session
open_session method kind w =
    let (st, n) = new_stream_session method kind w.store in (record w { store = st }, n)

-- `CloseStreamSession` and then the outcome.
abbrev pub settled {ℓ} : {A : Type ℓ} → World → Outcome A → Option Store → World × Outcome A
settled w o none = (w, crashed)
settled w o (some st) = (record w { store = st }, o)

unfoldable pub close_then {ℓ} : {A : Type ℓ} → ℕ → Outcome A → World → World × Outcome A
close_then n o w = settled w o (close_stream_session n w.store)

-- `defer CloseStreamSession(…)`, which runs when the call returns.
unfoldable pub deferred {ℓ} : {A : Type ℓ} → ℕ → World × Outcome A → World × Outcome A
unfolding close_then
deferred n (w, returned a) = close_then n (returned a) w
deferred n (w, fails f) = close_then n (fails f) w
deferred n (w, running) = (w, running)
deferred n (w, crashed) = (w, crashed)

-- The cases of the selects: a chunk of data, the closed data channel, the session's end, the timer.
pub data Stage : Type 0 where
  chunk : Bytes → World → Stage
  no_more is_done expired goes_on : Stage

unfoldable pub poll_data : ℕ → World → Stage
poll_data n w = elim (lookup n w.store.heap) [
  | none ↦ goes_on
  | some s ↦ elim (chan_recv s.data_chan) [
    | got d c ↦ chunk d (record w {
      store = record w.store { heap = insert n (record s { data_chan = c }) w.store.heap };
    })
    | drained ↦ no_more
    | empty ↦ goes_on
  ]
]

unfoldable pub poll_done : ℕ → World → Stage
poll_done n w = elim (lookup n w.store.heap) [
  | none ↦ goes_on
  | some s ↦ if s.done then is_done else goes_on
]

-- With no timeout there is no timer.
unfoldable pub poll_timer : Config → Bool → Stage
poll_timer cfg fired = if above cfg.stream_timeout 0 && fired then expired else goes_on

abbrev or_else : Stage → Stage → Stage
or_else goes_on other = other
or_else stage other = stage

-- The select of InvokeDartStream.
unfoldable pub wait_any : Config → ℕ → Pick → Bool → World → Stage
unfolding poll_data poll_done poll_timer
wait_any cfg n data_case fired w =
    or_else (poll_data n w) (or_else (poll_done n w) (poll_timer cfg fired))
wait_any cfg n done_case fired w =
    or_else (poll_done n w) (or_else (poll_data n w) (poll_timer cfg fired))
wait_any cfg n timer_case fired w =
    or_else (poll_timer cfg fired) (or_else (poll_data n w) (poll_done n w))

-- The select of InvokeDartClientStream, which does not wait for the session's end.
unfoldable pub wait_data : Config → ℕ → Pick → Bool → World → Stage
unfolding poll_data poll_timer
wait_data cfg n timer_case fired w = or_else (poll_timer cfg fired) (poll_data n w)
wait_data cfg n pick fired w = or_else (poll_data n w) (poll_timer cfg fired)

module _ {ℓ} {M : Type ℓ} (marshal : M → Option Bytes) (unmarshal : Bytes → Option M) where
  -- The loop of InvokeDartStream; a chunk that is no message is skipped. `react` is one round's switch.
  abbrev pub react :
      (List M → World → World × Outcome (List M))
      → ℕ
      → List M
      → World
      → Stage
      → World × Outcome (List M)
  react continue n acc w (chunk d v) = elim (unmarshal d) [
    | none ↦ continue acc v
    | some m ↦ continue (acc ++ m ∷ []) v
  ]
  react continue n acc w no_more = (w, returned acc)
  react continue n acc w is_done = (w, returned acc)
  react continue n acc w expired = close_then n (fails timed_out) w
  react continue n acc w goes_on = continue acc w

  unfoldable pub collect : Config → List Turn → ℕ → List M → World → World × Outcome (List M)
  unfolding wait_any close_then
  collect cfg [] n acc w = (w, running)
  collect cfg (t ∷ ts) n acc w =
      react (collect cfg ts n) n acc (t.between w) (wait_any cfg n t.pick t.fired (t.between w))

  -- `for i, req := range reqs { session.SendFromStream(…) }`. The marshaller's error is dropped: `partial`
  -- is the bytes that come with it.
  abbrev pub payload : (M → Bytes) → M → Bytes
  payload partial m = elim (marshal m) [ none ↦ partial m | some d ↦ d ]

  abbrev hear : Dart → List Event → World → World
  hear dart [] w = w
  hear dart (e ∷ es) w = hear dart es (dart.hears e (record w { log = w.log ++ e ∷ [] }))

  unfoldable pub send_requests :
      (M → Bytes) → Dart → ℕ → List M → ℕ → World → World × Option Failure
  unfolding send_from_stream
  send_requests partial dart i [] n w = (w, none)
  send_requests partial dart i (m ∷ ms) n w = elim (lookup n w.store.heap) [
    | none ↦ (w, none)
    | some s ↦ elim (send_from_stream s (payload partial m)) [
      | err e ↦ (w, some (send_failed i e))
      | ok es ↦ send_requests partial dart (suc i) ms n (hear dart es w)
    ]
  ]

  -- `session.CloseSend()`, whose error is dropped.
  unfoldable pub send_end : Dart → ℕ → World → World
  unfolding close_send
  send_end dart n w = elim (lookup n w.store.heap) [
    | none ↦ w
    | some s ↦ elim (close_send s) [ err e ↦ w | ok es ↦ hear dart es w ]
  ]

  -- The wait for the one response of a client stream.
  unfoldable pub await_response : Config → List Turn → ℕ → World → World × Outcome M
  unfolding wait_data
  await_response cfg [] n w = (w, running)
  await_response cfg (t ∷ ts) n w = elim (wait_data cfg n t.pick t.fired (t.between w)) [
    | chunk d v ↦ elim (unmarshal d) [
      | none ↦ (v, fails unmarshal_failed)
      | some m ↦ (v, returned m)
    ]
    | no_more ↦ (t.between w, fails closed_early)
    | is_done ↦ (t.between w, running)
    | expired ↦ (t.between w, fails timed_out)
    | goes_on ↦ await_response cfg ts n (t.between w)
  ]

  -- `InvokeDart`. `grpc` is the connection's call, with the metadata of its context.
  unfoldable pub invoke_dart {κ μ} :
      {K : Type κ} {C : Type μ}
      → Core K C
      → (C → Option Metadata → Bytes → M → Option M)
      → Option Dart
      → Bytes
      → M
      → World
      → World × Outcome M
  unfolding outgoing
  invoke_dart s grpc callback method req w = elim s.dart_conn [
    | some c ↦ elim (grpc c (outgoing s.cfg) method req) [
      | none ↦ (w, fails grpc_failed)
      | some m ↦ (w, returned m)
    ]
    | none ↦ elim callback [
      | none ↦ (w, fails no_callback)
      | some dart ↦ elim (marshal req) [
        | none ↦ (w, fails marshal_failed)
        | some d ↦
            let (w', r) = dart.callback method d w in
            elim r [
              | none ↦ (w', fails callback_failed)
              | some answer ↦ elim (unmarshal answer) [
                | none ↦ (w', fails unmarshal_failed)
                | some m ↦ (w', returned m)
              ]
            ]
      ]
    ]
  ]

  -- `InvokeDartStream` without a connection.
  unfoldable pub invoke_dart_stream :
      Config → Option Dart → List Turn → Bytes → M → World → World × Outcome (List M)
  unfolding open_session method_with_id close_then collect
  invoke_dart_stream cfg none turns method req w = (w, fails no_callback)
  invoke_dart_stream cfg (some dart) turns method req w =
      let (v, n) = open_session method server_stream w in
      elim (marshal req) [
        | none ↦ close_then n (fails marshal_failed) v
        | some d ↦
            let (v', r) = dart.callback (method_with_id method n) d v in
            elim r [
              | none ↦ close_then n (fails callback_failed) v'
              | some answer ↦ collect cfg turns n [] v'
            ]
      ]

  -- The body of `InvokeDartClientStream` after the callback.
  unfoldable pub exchange :
      (M → Bytes) → Config → Dart → List Turn → ℕ → List M → World → World × Outcome M
  unfolding send_requests send_end await_response
  exchange partial cfg dart turns n reqs w =
      let (w', failure) = send_requests partial dart 0 reqs n w in
      elim failure [
        | some f ↦ (w', fails f)
        | none ↦ await_response cfg turns n (send_end dart n w')
      ]

  unfoldable pub invoke_dart_client_stream :
      (M → Bytes) → Config → Option Dart → List Turn → Bytes → List M → World → World × Outcome M
  unfolding open_session method_with_id exchange deferred
  invoke_dart_client_stream partial cfg none turns method reqs w = (w, fails no_callback)
  invoke_dart_client_stream partial cfg (some dart) turns method reqs w =
      let (v, n) = open_session method bidi_stream w in
      let (v', r) = dart.callback (method_with_id method n) [] v in
      deferred n (elim r [
        | none ↦ (v', fails callback_failed)
        | some answer ↦ exchange partial cfg dart turns n reqs v'
      ])
