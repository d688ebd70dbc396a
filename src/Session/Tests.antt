-- ===== src/Session/Tests.antt =====
-- Runs of the functions of pkg/service/stream_handler.go, and the theorems at concrete sessions.
use synurang.Common.{
  ℕ, ◌≤◌, ◌≡◌, ◌≢◌, ◌⊎◌, refl, true, false, Bytes, List, [], ◌∷◌, ◌++◌, none, some, arith, length,
  str, lookup, insert,
}
use synurang.Session.{
  Session, server_stream, client_stream, bidi_stream, new_session, end_events, end_stream,
  set_header, select_send, crashed, close_session, close_input, begin_end, shut_done,
}
use synurang.Session.Race.{
  System, start, check, commit, here, later, Inv, Reach-order, Reach-crash, close_in,
}
use synurang.Session.Ending.{IsSound, ended}
use synurang.Session.Store.{
  Store, Service, register_server_stream_handler, register_client_stream_handler,
  register_bidi_stream_handler, handle_server_stream, handle_client_stream, handle_bidi_stream,
}
use synurang.Session.Store.Laws.{IsValid}
use synurang.Session.Store.Dispatch.{Started, dispatch-Started}

abbrev echo : Session
echo = record {
  id = 1;
  method = str "/Echo";
  kind = bidi_stream;
  data_chan = record { buf = []; cap = 100; closed = false };
  done = false;
  ready = false;
  callback = true;
  callback_ffi = false;
  headers = (str "a", str "b") ∷ [];
  headers_sent = false;
  trailers = [];
  closed = false;
  input_closed = false;
}

echo_is_new :
    set_header (str "a") (str "b") (new_session 1 (str "/Echo") bidi_stream true false) ≡ echo
unfolding new_session set_header insert
echo_is_new = refl

end_runs : end_stream (λ m. m) echo ≡ some (ended echo, end_events (λ m. m) echo)
unfolding end_stream end_events
end_runs = refl

echo-IsSound : IsSound echo
echo-IsSound = ground arith

echo-Inv : Inv (start echo)
echo-Inv = ground arith

Reach-order_example :
    (◌≡◌ {A = List Bytes} (str "x" ∷ []) ([] ++ str "x" ∷ [])) × (length (str "x" ∷ []) ≤ 100)
unfolding new_session select_send
Reach-order_example =
    Reach-order 1 [] bidi_stream true false
      (later (later here (check (str "x") refl)) (commit true [] [] (str "x") refl))

-- The sender of a chunk when the input is closed.
abbrev late : System
late = record (start (new_session 1 [] bidi_stream true false)) {
  session = record (new_session 1 [] bidi_stream true false) {
    input_closed = true;
    data_chan = record (new_session 1 [] bidi_stream true false).data_chan { closed = true };
  };
  sending = str "x" ∷ [];
}

Reach-crash_example :
    (close_session late.session ≢ none)
    × (close_input late.session ≢ none)
    × (begin_end late.session ≢ none)
    × ((late.ending ≡ 0) ⊎ (shut_done late.session ≢ none))
    × (((late.session.input_closed ≡ false) × (select_send false late.session (str "x") ≢ crashed))
        ⊎ ((late.session.input_closed ≡ true)
            × (select_send true late.session (str "x") ≡ crashed)))
unfolding new_session close_input
Reach-crash_example =
    Reach-crash 1 [] bidi_stream true false false (str "x") {x = late}
      (later (later here (check (str "x") refl)) close_in)

abbrev one_stream : Store
one_stream = record {
  heap = (1, echo) ∷ [];
  registry = (1, 1) ∷ [];
  next_id = 1;
  callback = true;
  callback_ffi = false;
}

one_stream-IsValid : IsValid one_stream
unfolding lookup
one_stream-IsValid = record {
  counted = omega arith;
  named = λ n p e. ground arith;
  stored = λ n s e. ground (arith, echo-IsSound);
  present = λ n e. ground arith;
}

-- Handlers are numbered.
abbrev idle : Service ℕ
idle = record {
  store = one_stream;
  server_handlers = [];
  client_handlers = [];
  bidi_handlers = [];
  tasks = [];
}

dispatch-Started_example :
    (let (y, n) =
        handle_server_stream
          (str "/Tick")
          (str "5")
          (register_server_stream_handler (str "/Tick") length idle) in
      Started server_stream (str "/Tick") 1 one_stream [] y n)
    × (let (y, n) =
          handle_client_stream
            (str "/Tick")
            (register_client_stream_handler (str "/Tick") (λ u. 7) idle) in
        Started client_stream (str "/Tick") 7 one_stream [] y n)
    × (let (y, n) =
          handle_bidi_stream
            (str "/Tick")
            (register_bidi_stream_handler (str "/Tick") (λ u. 7) idle) in
        Started bidi_stream (str "/Tick") 7 one_stream [] y n)
dispatch-Started_example =
    dispatch-Started idle one_stream-IsValid (omega arith) (str "/Tick") (str "5") length (λ u. 7)
