-- ===== src/Session/Store/Dispatch.antt =====
-- The handler registries and the dispatchers of pkg/service/stream_handler.go.
use synurang.Common.{
  ℕ, ◌+◌, ◌<◌, ◌^◌, ◌≡◌, refl, Bytes, List, [], ◌∷◌, ◌++◌, Option, none, some, lookup,
  lookup-insert, bytes_eq, beq_refl, nat_beq, if◌then◌else◌,
}
use synurang.Session.{StreamType, server_stream, client_stream, bidi_stream, new_session}
use synurang.Session.Store.{
  Store, Service, new_stream_session, get_stream_session, start_stream,
  register_server_stream_handler, register_client_stream_handler, register_bidi_stream_handler,
  unregister_all_stream_handlers, handle_server_stream, handle_client_stream, handle_bidi_stream,
  run_task,
}
use synurang.Session.Store.Laws.{
  IsValid, Closed, new_stream_session-fresh, close_stream_session_lem,
}

module _ {ℓ} {H : Type ℓ} where
  -- The call that left `y` and this answer has started a stream of this type for this body, where
  -- the table was `w` and the goroutines `tasks`.
  pub record Started (kind : StreamType) (method : Bytes) (body : H) (w : Store)
      (tasks : List (ℕ × H)) (y : Service H) (answer : Option ℕ) : Type ℓ where
    pub id : ℕ
    pub answered : answer ≡ some id
    pub valid : IsValid y.store
    pub fresh : get_stream_session id w ≡ none
    pub found :
        (m : ℕ)
        → get_stream_session m y.store ≡ (
            if nat_beq id m
            then some (new_session id method kind w.callback w.callback_ffi)
            else get_stream_session m w)
    pub spawned : y.tasks ≡ tasks ++ (id, body) ∷ []

  start_stream-Started :
      (kind : StreamType) (method : Bytes) (body : H) (x : Service H)
      → IsValid x.store
      → x.store.next_id + 1 < 2 ^ 63
      → let (y, n) = start_stream kind method body x in
        Started kind method body x.store x.tasks y (some n)
  unfolding start_stream
  start_stream-Started kind method body x v small =
      let (valid, fresh, found) = new_stream_session-fresh method kind x.store v small in
      record {
        id = (new_stream_session method kind x.store).1;
        answered = refl;
        valid = valid;
        fresh = fresh;
        found = found;
        spawned = refl;
      }

  module _ (x : Service H) (v : IsValid x.store) (small : x.store.next_id + 1 < 2 ^ 63) where
    server-Started :
        (method d : Bytes) (h : Bytes → H)
        → let (y, n) = handle_server_stream method d (register_server_stream_handler method h x) in
          Started server_stream method (h d) x.store x.tasks y n
    unfolding handle_server_stream register_server_stream_handler
    server-Started method d h =
        rw (lookup-insert method method h x.server_handlers, beq_refl method, handle_server_stream)
          (start_stream-Started server_stream method (h d) _ v small)

    client-Started :
        (method : Bytes) (h : Unit {0} → H)
        → let (y, n) = handle_client_stream method (register_client_stream_handler method h x) in
          Started client_stream method (h tt) x.store x.tasks y n
    unfolding handle_client_stream register_client_stream_handler
    client-Started method h =
        rw (lookup-insert method method h x.client_handlers, beq_refl method, handle_client_stream)
          (start_stream-Started client_stream method (h tt) _ v small)

    bidi-Started :
        (method : Bytes) (h : Unit {0} → H)
        → let (y, n) = handle_bidi_stream method (register_bidi_stream_handler method h x) in
          Started bidi_stream method (h tt) x.store x.tasks y n
    unfolding handle_bidi_stream register_bidi_stream_handler
    bidi-Started method h =
        rw (lookup-insert method method h x.bidi_handlers, beq_refl method, handle_bidi_stream)
          (start_stream-Started bidi_stream method (h tt) _ v small)

    -- A handler that has just been registered is the one that a call of its method runs: each of the
    -- three dispatchers then starts it on a new session of its own type under the ID that it answers,
    -- the server stream with the request's data, and every other ID finds what it found.
    pub dispatch-Started :
        (method d : Bytes) (h : Bytes → H) (k : Unit {0} → H)
        → (let (y, n) = handle_server_stream method d (register_server_stream_handler method h x) in
            Started server_stream method (h d) x.store x.tasks y n)
          × (let (y, n) = handle_client_stream method (register_client_stream_handler method k x) in
              Started client_stream method (k tt) x.store x.tasks y n)
          × (let (y, n) = handle_bidi_stream method (register_bidi_stream_handler method k x) in
              Started bidi_stream method (k tt) x.store x.tasks y n)
    dispatch-Started method d h k =
        (server-Started method d h, client-Started method k, bidi-Started method k)

  -- After `UnregisterAllStreamHandlers` no dispatcher starts anything: each answers -1 and leaves the
  -- table and the goroutines as they were.
  dispatch-unregistered :
      (x : Service H) (method d : Bytes)
      → let y = unregister_all_stream_handlers x in
        (handle_server_stream method d y ≡ (y, none))
        × (handle_client_stream method y ≡ (y, none))
        × (handle_bidi_stream method y ≡ (y, none))
        × (y.store ≡ x.store)
        × (y.tasks ≡ x.tasks)
  unfolding unregister_all_stream_handlers handle_server_stream handle_client_stream
      handle_bidi_stream lookup
  dispatch-unregistered x method d = (refl, refl, refl, refl, refl)

  -- When the goroutine of a stream is over, its ID finds no session and its session is ended, if the
  -- handler returned and kept the table consistent, whatever else the handler did.
  run_task-Closed :
      (exec : H → ℕ → Store → Option Store) (n : ℕ) (body : H) (w w' : Store)
      → exec body n w ≡ some w'
      → IsValid w'
      → (z : Store) × (run_task exec (n, body) w ≡ some z) × Closed n w' z
  unfolding run_task
  run_task-Closed exec n body w w' e v =
      let (z, closes, left) = close_stream_session_lem n w' v in (z, rw (e, run_task) closes, left)
