-- ===== src/Core/Dart/Releasing.antt =====
-- pkg/service/server.go: calls into Dart that fail leave no session behind.
use synurang.Common.{
  ℕ, ◌≡◌, inl, inr, Bytes, List, [], ◌∷◌, ◌++◌, Option, none, some, arith, Option-cases, refl, sym,
  subst, lookup, lookup-remove, nat_eq, beq_refl,
}
use synurang.Session.{server_stream, bidi_stream}
use synurang.Session.Store.{Store, close_stream_session}
use synurang.Core.{Config}
use synurang.Core.Dart.{
  World, Dart, Failure, timed_out, marshal_failed, callback_failed, Outcome, returned, fails,
  running, crashed, Turn, close_then, settled, deferred, collect, open_session, invoke_dart_stream,
  invoke_dart_client_stream, react, Stage, chunk, no_more, is_done, expired, goes_on, wait_any,
  method_with_id,
}

pub closed_unregistered :
    (n : ℕ) (st st' : Store) → close_stream_session n st ≡ some st' → lookup n st'.registry ≡ none
unfolding close_stream_session
closed_unregistered n st st' h = elim (Option-cases (lookup n st.registry)) [
  | inl e ↦ ground arith
  | inr (p, e) ↦ ground (arith, lookup-remove n n st.registry, beq_refl n)
]

-- After a return, or after a failure, the ID finds no session; `running` and a panic are no returns.
abbrev pub Free {κ} : {A : Type κ} → ℕ → World × Outcome A → Type 0
Free n (w, fails f) = lookup n w.store.registry ≡ none
Free n (w, returned a) = lookup n w.store.registry ≡ none
Free n (w, running) = Unit
Free n (w, crashed) = Unit

abbrev pub FreeOnFailure {κ} : {A : Type κ} → ℕ → World × Outcome A → Type 0
FreeOnFailure n (w, fails f) = lookup n w.store.registry ≡ none
FreeOnFailure n (w, returned a) = Unit
FreeOnFailure n (w, running) = Unit
FreeOnFailure n (w, crashed) = Unit

failed-Free {κ} :
    (A : Type κ) (n : ℕ) (w : World) (f : Failure) (r : Option Store)
    → close_stream_session n w.store ≡ r
    → FreeOnFailure {A = A} n (settled w (fails f) r)
failed-Free A n w f none e = tt
failed-Free A n w f (some st) e = closed_unregistered n w.store st e

fails-Free {κ} :
    (A : Type κ) (n : ℕ) (w : World) (f : Failure)
    → FreeOnFailure {A = A} n (close_then n (fails f) w)
unfolding close_then
fails-Free A n w f = failed-Free A n w f (close_stream_session n w.store) refl

module _ {κ} {A : Type κ} (n : ℕ) (w : World) where
  settled-Free :
      (o : Outcome A) (r : Option Store)
      → close_stream_session n w.store ≡ r
      → Free n (settled w o r)
  settled-Free o none e = tt
  settled-Free (returned a) (some st) e = closed_unregistered n w.store st e
  settled-Free (fails f) (some st) e = closed_unregistered n w.store st e
  settled-Free running (some st) e = tt
  settled-Free crashed (some st) e = tt

  pair-Free : (o : Outcome A) → Free n (deferred n (w, o))
  unfolding deferred close_then
  pair-Free (returned a) = settled-Free (returned a) (close_stream_session n w.store) refl
  pair-Free (fails f) = settled-Free (fails f) (close_stream_session n w.store) refl
  pair-Free running = tt
  pair-Free crashed = tt

deferred-Free {κ} : {A : Type κ} (n : ℕ) (x : World × Outcome A) → Free n (deferred n x)
deferred-Free n (w, o) = pair-Free n w o

module _ {ℓ} {M : Type ℓ} (marshal : M → Option Bytes) (unmarshal : Bytes → Option M)
    (cfg : Config) where
  react-Free :
      (continue : List M → World → World × Outcome (List M)) (n : ℕ) (acc : List M) (w : World)
      (st : Stage)
      → ((acc : List M) (w : World) → FreeOnFailure n (continue acc w))
      → FreeOnFailure n (react marshal unmarshal continue n acc w st)
  react-Free continue n acc w (chunk d v) h = pick (unmarshal d)
    where
      pick :
          (o : Option M)
          → FreeOnFailure {A = List M} n
              (elim o [ none ↦ continue acc v | some m ↦ continue (acc ++ m ∷ []) v ])
      pick none = h acc v
      pick (some m) = h (acc ++ m ∷ []) v
  react-Free continue n acc w no_more h = tt
  react-Free continue n acc w is_done h = tt
  react-Free continue n acc w expired h = fails-Free (List M) n w timed_out
  react-Free continue n acc w goes_on h = h acc w

  collect-Free :
      (ts : List Turn) (n : ℕ) (acc : List M) (w : World)
      → FreeOnFailure n (collect marshal unmarshal cfg ts n acc w)
  unfolding collect
  collect-Free [] n acc w = tt
  collect-Free (t ∷ ts) n acc w =
      react-Free (collect marshal unmarshal cfg ts n) n acc (t.between w)
        (wait_any cfg n t.pick t.fired (t.between w)) (collect-Free ts n)

  module _ (dart : Dart) (turns : List Turn) (method : Bytes) (w : World) where
    abbrev made : World
    made = (open_session method server_stream w).0

    abbrev id_ : ℕ
    id_ = (open_session method server_stream w).1

    abbrev answer : Bytes → World × Option Bytes
    answer d = dart.callback (method_with_id method id_) d made

    abbrev stream : M → World × Outcome (List M)
    unfolding invoke_dart_stream
    stream req = invoke_dart_stream marshal unmarshal cfg (some dart) turns method req w

    not_marshalled :
        (req : M) → marshal req ≡ none → stream req ≡ close_then id_ (fails marshal_failed) made
    unfolding stream
    not_marshalled req e = ground arith

    not_answered :
        (req : M) (d : Bytes)
        → marshal req ≡ some d
        → (answer d).1 ≡ none
        → stream req ≡ close_then id_ (fails callback_failed) (answer d).0
    unfolding stream
    not_answered req d e e' = ground arith

    collecting :
        (req : M) (d b : Bytes)
        → marshal req ≡ some d
        → (answer d).1 ≡ some b
        → stream req ≡ collect marshal unmarshal cfg turns id_ [] (answer d).0
    unfolding stream
    collecting req d b e e' = ground arith

    stream-Free : (req : M) → FreeOnFailure id_ (stream req)
    stream-Free req = elim (Option-cases (marshal req)) [
      | inl e ↦
          subst (FreeOnFailure id_) (sym (not_marshalled req e))
            (fails-Free (List M) id_ made marshal_failed)
      | inr (d, e) ↦ elim (Option-cases (answer d).1) [
        | inl e' ↦
            subst (FreeOnFailure id_) (sym (not_answered req d e e'))
              (fails-Free (List M) id_ (answer d).0 callback_failed)
        | inr (b, e') ↦
            subst (FreeOnFailure id_) (sym (collecting req d b e e'))
              (collect-Free turns id_ [] (answer d).0)
      ]
    ]

    -- Whatever fails after the session has been made, its ID finds no session when `InvokeDartStream`
    -- returns the error: the request that cannot be marshalled, the callback, the timeout. A client
    -- stream's session is gone however the call returns.
    pub calls_release :
        (partial : M → Bytes) (req : M) (reqs : List M)
        → FreeOnFailure
            (open_session method server_stream w).1
            (invoke_dart_stream marshal unmarshal cfg (some dart) turns method req w)
          × Free (open_session method bidi_stream w).1 (
              invoke_dart_client_stream marshal unmarshal partial cfg
                (some dart)
                turns
                method
                reqs
                w)
    unfolding invoke_dart_client_stream
    calls_release partial req reqs =
        (unfold stream in stream-Free req, deferred-Free (open_session method bidi_stream w).1 _)
