-- ===== src/Core/Dart/Collecting.antt =====
-- pkg/service/server.go: what `InvokeDartStream` collects from a session that has ended.
use synurang.Common.{
  ℕ, ◌+◌, ◌≤◌, ◌≡◌, refl, Bool, true, Bytes, List, [], ◌∷◌, ◌++◌, Option, some, map, arith, length,
  take, lookup, insert, lookup-insert, nat_eq, beq_refl,
}
use mathlib.Core.List.{append_assoc, append-nil}
use synurang.Session.{Session, server_stream}
use synurang.Core.{Config}
use synurang.Core.Dart.{
  World, Dart, returned, Pick, data_case, done_case, Turn, collect, wait_any, invoke_dart_stream,
  open_session, method_with_id, chunk, is_done,
}

-- A look at the select with nothing in between.
abbrev pub look : Pick → Bool → Turn
look pick fired = record { between = λ w. w; pick = pick; fired = fired }

-- The session is over, and chunks that are these messages wait in its channel.
pub record Waits {ℓ} {M : Type ℓ} (unmarshal : Bytes → Option M) (n : ℕ) (ms : List M) (w : World)
    : Type ℓ where
  pub session : Session
  pub found : lookup n w.store.heap ≡ some session
  pub over : session.done ≡ true
  pub chunks : map unmarshal session.data_chan.buf ≡ map some ms

-- The session's channel with these chunks left.
abbrev pub taken : ℕ → Session → List Bytes → World → World
taken n s rest w =
    let c = record s.data_chan { buf = rest } in
    record w {
      store = record w.store { heap = insert n (record s { data_chan = c }) w.store.heap };
    }

pub stays :
    (n : ℕ) (s : Session) (rest : List Bytes) (w : World)
    → lookup n (taken n s rest w).store.heap
      ≡ some (record s { data_chan = record s.data_chan { buf = rest } })
stays n s rest w =
    let s' = record s { data_chan = record s.data_chan { buf = rest } } in
    ground (arith, lookup-insert n n s' w.store.heap, beq_refl n)

module _ {ℓ} {M : Type ℓ} (marshal : M → Option Bytes) (unmarshal : Bytes → Option M)
    (cfg : Config) where
  look_done :
      (n : ℕ) (f : Bool) (w : World) (s : Session)
      → lookup n w.store.heap ≡ some s
      → s.done ≡ true
      → wait_any cfg n done_case f w ≡ is_done
  unfolding wait_any
  look_done n f w s e o = ground arith

  look_data :
      (n : ℕ) (f : Bool) (d : Bytes) (ds : List Bytes) (w : World) (s : Session)
      → lookup n w.store.heap ≡ some s
      → s.data_chan.buf ≡ d ∷ ds
      → wait_any cfg n data_case f w ≡ chunk d (taken n s ds w)
  unfolding wait_any
  look_data n f d ds w s e b = ground arith

  step_chunk :
      (n : ℕ) (t : Turn) (ts : List Turn) (acc : List M) (w v : World) (d : Bytes) (m : M)
      → wait_any cfg n t.pick t.fired (t.between w) ≡ chunk d v
      → unmarshal d ≡ some m
      → collect marshal unmarshal cfg (t ∷ ts) n acc w
        ≡ collect marshal unmarshal cfg ts n (acc ++ m ∷ []) v
  unfolding collect
  step_chunk n t ts acc w v d m h u = ground arith

  reads_prefix :
      (n : ℕ) (fs : List Bool) (last : Bool) (ds : List Bytes) (ms acc : List M) (w : World)
      (s : Session)
      → lookup n w.store.heap ≡ some s
      → s.done ≡ true
      → s.data_chan.buf ≡ ds
      → map unmarshal ds ≡ map some ms
      → length fs ≤ length ms
      → (collect marshal unmarshal cfg
          (map (look data_case) fs ++ look done_case last ∷ [])
          n
          acc
          w).1
        ≡ returned (acc ++ take (length fs) ms)
  reads_prefix n [] last ds ms acc w s e o b u le =
      unfold collect in ground (arith, look_done n last w s e o, append-nil acc)
  reads_prefix n (f ∷ fs) last [] [] acc w s e o b u le = absurd (omega arith)
  reads_prefix n (f ∷ fs) last [] (m ∷ ms) acc w s e o b u le = absurd (ground arith)
  reads_prefix n (f ∷ fs) last (d ∷ ds) [] acc w s e o b u le = absurd (omega arith)
  reads_prefix n (f ∷ fs) last (d ∷ ds) (m ∷ ms) acc w s e o b u le =
      let s' = record s { data_chan = record s.data_chan { buf = ds } } in
      let next =
        reads_prefix n fs last ds ms (acc ++ m ∷ []) (taken n s ds w) s' (stays n s ds w) o refl in
      let ts = map (look data_case) fs ++ look done_case last ∷ [] in
      let step =
        step_chunk n (look data_case f) ts acc w (taken n s ds w) d m (look_data n f d ds w s e b)
          (ground arith) in
      ground (arith, step, next, append_assoc acc (m ∷ []) (take (length fs) ms))

  closed_all :
      (n : ℕ) (fs : List Bool) (ds : List Bytes) (ms acc : List M) (w : World) (s : Session)
      → lookup n w.store.heap ≡ some s
      → s.data_chan.closed ≡ true
      → s.data_chan.buf ≡ ds
      → map unmarshal ds ≡ map some ms
      → length ms + 1 ≤ length fs
      → (collect marshal unmarshal cfg (map (look data_case) fs) n acc w).1 ≡ returned (acc ++ ms)
  closed_all n [] ds ms acc w s e o b u le = absurd (omega arith)
  closed_all n (f ∷ fs) [] [] acc w s e o b u le =
      unfold collect wait_any in ground (arith, append-nil acc)
  closed_all n (f ∷ fs) [] (m ∷ ms) acc w s e o b u le = absurd (ground arith)
  closed_all n (f ∷ fs) (d ∷ ds) [] acc w s e o b u le = absurd (ground arith)
  closed_all n (f ∷ fs) (d ∷ ds) (m ∷ ms) acc w s e o b u le =
      let s' = record s { data_chan = record s.data_chan { buf = ds } } in
      let next =
        closed_all n fs ds ms (acc ++ m ∷ []) (taken n s ds w) s' (stays n s ds w) o refl in
      let step =
        step_chunk n (look data_case f) (map (look data_case) fs) acc w (taken n s ds w) d m
          (look_data n f d ds w s e b) (ground arith) in
      ground (arith, step, next, append_assoc acc (m ∷ []) ms)

  -- The call has started: Dart has answered, and has sent these messages and ended the stream.
  pub record Started (dart : Dart) (method : Bytes) (req : M) (ms : List M) (w v : World)
      : Type ℓ where
    pub body : Bytes
    pub answer : Bytes
    pub marshalled : marshal req ≡ some body
    pub called :
        dart.callback
          (method_with_id method (open_session method server_stream w).1)
          body
          (open_session method server_stream w).0
        ≡ (v, some answer)
    pub waits : Waits unmarshal (open_session method server_stream w).1 ms v

  -- Where Dart has sent its messages and ended the stream, `InvokeDartStream` can return any prefix of
  -- them as the whole answer, without an error: the case of DoneChan may be taken with chunks still
  -- in the channel.
  pub stream_truncates :
      (dart : Dart) (method : Bytes) (req : M) (ms : List M) (w v : World) (fs : List Bool)
      (last : Bool)
      → Started dart method req ms w v
      → length fs ≤ length ms
      → (invoke_dart_stream marshal unmarshal cfg
          (some dart)
          (map (look data_case) fs ++ look done_case last ∷ [])
          method
          req
          w).1
        ≡ returned (take (length fs) ms)
  unfolding invoke_dart_stream
  stream_truncates dart method req ms w v fs last st le =
      let n = (open_session method server_stream w).1 in
      let x = st.waits in
      let end =
        reads_prefix n fs last x.session.data_chan.buf ms [] v x.session x.found x.over refl
          x.chunks le in
      ground (arith, st.marshalled, st.called, end)

  -- If the select takes the chunks first, and the channel has been closed, it returns all of them in
  -- order after one look more than there are messages, whether or not the timer has fired.
  pub stream_collects :
      (dart : Dart) (method : Bytes) (req : M) (ms : List M) (w v : World) (fs : List Bool)
      (st : Started dart method req ms w v)
      → st.waits.session.data_chan.closed ≡ true
      → length ms + 1 ≤ length fs
      → (invoke_dart_stream marshal unmarshal cfg
          (some dart)
          (map (look data_case) fs)
          method
          req
          w).1
        ≡ returned ms
  unfolding invoke_dart_stream
  stream_collects dart method req ms w v fs st o le =
      let n = (open_session method server_stream w).1 in
      let x = st.waits in
      let end =
        closed_all n fs x.session.data_chan.buf ms [] v x.session x.found o refl x.chunks le in
      ground (arith, st.marshalled, st.called, end)
