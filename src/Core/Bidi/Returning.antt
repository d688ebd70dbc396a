-- ===== src/Core/Bidi/Returning.antt =====
-- pkg/service/server.go: `InvokeDartBidiStream` returns after its timeout.
use synurang.Common.{
  ℕ, ◌<◌, ◌≡◌, refl, ap, Bool, true, false, Bytes, List, [], ◌∷◌, ◌++◌, Option, none, some, map,
  arith, length, lookup, nat_eq, Option-cases, Bool-cases, ◌⊎◌, inl, inr, ◌∙◌,
}
use mathlib.Core.List.{append_assoc, append-nil}
use synurang.Session.{Session}
use synurang.Session.Ending.{ended}
use synurang.Session.Store.{get_stream_session}
use synurang.Session.Store.Laws.{IsValid, close_stream_session_lem}
use synurang.Core.Dart.{
  World, timed_out, returned, Turn, Pick, data_case, done_case, timer_case, chunk, no_more, is_done,
}
use synurang.Core.Dart.Collecting.{look, taken, stays}
use synurang.Core.Dart.Releasing.{closed_unregistered}
use synurang.Core.Bidi.{read_any, Reading, finished, read_until, returning, drained, after_timeout}

-- The messages among these chunks.
abbrev pub decoded {ℓ} : {M : Type ℓ} → (Bytes → Option M) → List Bytes → List M
decoded unmarshal [] = []
decoded unmarshal (d ∷ ds) = elim (unmarshal d) [
  | none ↦ decoded unmarshal ds
  | some m ↦ m ∷ decoded unmarshal ds
]

abbrev pub looks : List (Pick × Bool) → List Turn
looks = map (λ x. look x.0 x.1)

-- On a session that is over the reader's select never waits.
module _ (n : ℕ) (w : World) (s : Session) (found : lookup n w.store.heap ≡ some s)
    (over : s.done ≡ true) where
  read_empty :
      (pick : Pick)
      → s.data_chan.buf ≡ []
      → (read_any n pick w ≡ no_more) ⊎ (read_any n pick w ≡ is_done)
  unfolding read_any
  read_empty done_case b = inr (ground arith)
  read_empty data_case b = elim (Bool-cases s.data_chan.closed) [
    | inl c ↦ inl (ground arith)
    | inr c ↦ inr (ground arith)
  ]
  read_empty timer_case b = elim (Bool-cases s.data_chan.closed) [
    | inl c ↦ inl (ground arith)
    | inr c ↦ inr (ground arith)
  ]

  read_chunk :
      (pick : Pick) (d : Bytes) (ds : List Bytes)
      → s.data_chan.buf ≡ d ∷ ds
      → (read_any n pick w ≡ chunk d (taken n s ds w)) ⊎ (read_any n pick w ≡ is_done)
  unfolding read_any
  read_chunk done_case d ds b = inr (ground arith)
  read_chunk data_case d ds b = inl (ground arith)
  read_chunk timer_case d ds b = inl (ground arith)

module _ {ℓ} {M : Type ℓ} (marshal : M → Option Bytes) (unmarshal : Bytes → Option M) where
  -- The reader finishes, with messages that come first among the chunks that waited.
  pub record Finishes (n : ℕ) (ds : List Bytes) (acc : List M) (w : World) (r : Reading M)
      : Type ℓ where
    pub world : World
    pub read : List M
    pub unread : List M
    pub reading : r ≡ finished world (acc ++ read)
    pub in_order : read ++ unread ≡ decoded unmarshal ds
    pub registry : world.store.registry ≡ w.store.registry

  at_once :
      (n : ℕ) (ds : List Bytes) (acc : List M) (w : World) (p : Pick) (f : Bool)
      (ps : List (Pick × Bool))
      → (read_any n p w ≡ no_more) ⊎ (read_any n p w ≡ is_done)
      → Finishes n ds acc w (read_until marshal unmarshal false (look p f ∷ looks ps) n acc w)
  unfolding read_until
  at_once n ds acc w p f ps h = record {
    world = w;
    read = [];
    unread = decoded unmarshal ds;
    reading = ground (arith, append-nil acc);
    in_order = refl;
    registry = refl;
  }

  module _ (n : ℕ) (d : Bytes) (ds : List Bytes) (acc : List M) (w v : World) (p : Pick) (f : Bool)
      (ps : List (Pick × Bool)) (got : read_any n p w ≡ chunk d v)
      (same : v.store.registry ≡ w.store.registry) where
    abbrev after : Reading M
    after = read_until marshal unmarshal false (look p f ∷ looks ps) n acc w

    skips :
        unmarshal d ≡ none
        → Finishes n ds acc v (read_until marshal unmarshal false (looks ps) n acc v)
        → Finishes n (d ∷ ds) acc w after
    unfolding read_until
    skips u h = record {
      world = h.world;
      read = h.read;
      unread = h.unread;
      reading = ground (arith, h.reading);
      in_order = ground (arith, h.in_order);
      registry = h.registry ∙ same;
    }

    keeps :
        (m : M)
        → unmarshal d ≡ some m
        → Finishes n ds
            (acc ++ m ∷ [])
            v
            (read_until marshal unmarshal false (looks ps) n (acc ++ m ∷ []) v)
        → Finishes n (d ∷ ds) acc w after
    unfolding read_until
    keeps m u h = record {
      world = h.world;
      read = m ∷ h.read;
      unread = h.unread;
      reading = ground (arith, h.reading, append_assoc acc (m ∷ []) h.read);
      in_order = ground (arith, h.in_order);
      registry = h.registry ∙ same;
    }

  finishes :
      (n : ℕ) (ps : List (Pick × Bool)) (ds : List Bytes) (acc : List M) (w : World) (s : Session)
      → lookup n w.store.heap ≡ some s
      → s.done ≡ true
      → s.data_chan.buf ≡ ds
      → length ds < length ps
      → Finishes n ds acc w (read_until marshal unmarshal false (looks ps) n acc w)
  finishes n [] ds acc w s e o b le = absurd (omega arith)
  finishes n ((p, f) ∷ ps) [] acc w s e o b le =
      at_once n [] acc w p f ps (read_empty n w s e o p b)
  finishes n ((p, f) ∷ ps) (d ∷ ds) acc w s e o b le =
      let v = taken n s ds w in
      let s' = record s { data_chan = record s.data_chan { buf = ds } } in
      let skipped = finishes n ps ds acc v s' (stays n s ds w) o refl (omega arith) in
      let kept =
        λ (m : M). finishes n ps ds (acc ++ m ∷ []) v s' (stays n s ds w) o refl (omega arith) in
      elim (read_chunk n w s e o p d ds b) [
        | inr h ↦ at_once n (d ∷ ds) acc w p f ps (inr h)
        | inl h ↦ elim (Option-cases (unmarshal d)) [
          | inl u ↦ skips n d ds acc w v p f ps h refl u skipped
          | inr (m, u) ↦ keeps n d ds acc w v p f ps h refl m u (kept m)
        ]
      ]

  -- Once the call has timed out on a consistent table in which the session is registered, and no other
  -- goroutine touches it any more, the reader finishes and the call returns the timeout after one look more
  -- than there are chunks in the channel, whatever the runtime picks. The messages it returns are those
  -- it had and then the first ones of those that were waiting, in order, and its ID finds no session.
  pub after_timeout_returns :
      (n : ℕ) (ps : List (Pick × Bool)) (acc : List M) (w : World) (s : Session)
      → IsValid w.store
      → get_stream_session n w.store ≡ some s
      → length s.data_chan.buf < length ps
      → (u : World) × (read : List M) × (unread : List M) × (after_timeout marshal unmarshal
            (looks ps)
            n
            acc
            w
          ≡ (u, returned (acc ++ read, some timed_out)))
        × (read ++ unread ≡ decoded unmarshal s.data_chan.buf)
        × (lookup n u.store.registry ≡ none)
  unfolding after_timeout
  after_timeout_returns n ps acc w s valid found le =
      let (st, closing, after) = close_stream_session_lem n w.store valid in
      let v = record w { store = st } in
      let here : lookup n st.heap ≡ some (ended s) = ground (arith, after.finished) in
      let h = finishes n ps s.data_chan.buf acc v (ended s) here refl refl le in
      (
        h.world,
        h.read,
        h.unread,
        ap (drained marshal unmarshal (looks ps) n acc w) closing
            ∙ ap (returning marshal unmarshal (some timed_out)) h.reading,
        h.in_order,
        ap (lookup n) h.registry ∙ closed_unregistered n w.store st closing,
      )
