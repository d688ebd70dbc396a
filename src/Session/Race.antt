-- ===== src/Session/Race.antt =====
-- pkg/service/stream_handler.go: the goroutines that share one session, interleaved at the locks.
-- `EndStream` and `ErrorStream` close `DoneChan` after they have released the lock, and
-- `SendToStream` sends after it has released it: these goroutines stand in `ending` and `sending`.
use synurang.Common.{
  ℕ, suc, ◌+◌, ◌≤◌, ◌≡◌, ◌≢◌, ◌⊎◌, Bool, true, false, Bytes, List, [], ◌∷◌, ◌++◌, Option, none,
  some, arith, length, chan_recv, got, Chan, IsBounded, length-append,
}
use mathlib.Core.List.{append_assoc}
use synurang.Session.{
  Session, StreamType, SendResult, sent, failed, blocked, crashed, new_session, close_session,
  close_input, begin_end, shut_done, select_send, data_capacity,
}

-- `accepted` and `taken` record the chunks that the channel took and that the handler received.
pub record System : Type 0 where
  pub session : Session
  pub sending : List Bytes
  pub ending : ℕ
  pub accepted : List Bytes
  pub taken : List Bytes
  pub panicked : Bool

abbrev pub start : Session → System
start s = record {
  session = s;
  sending = [];
  ending = 0;
  accepted = [];
  taken = [];
  panicked = false;
}

abbrev pub after : System → Option Session → System
after x none = record x { panicked = true }
after x (some s) = record x { session = s }

abbrev pub after_begin : System → Option (Session × Bool) → System
after_begin x none = record x { panicked = true }
after_begin x (some (s, true)) = record x { session = s; ending = x.ending + 1 }
after_begin x (some (s, false)) = record x { session = s }

abbrev pub after_send : System → Bytes → SendResult → System
after_send x d (sent s) = record x { session = s; accepted = x.accepted ++ d ∷ [] }
after_send x d (failed e) = x
after_send x d blocked = record x { sending = d ∷ x.sending }
after_send x d crashed = record x { panicked = true }

pub data Step (x : System) : System → Type 0 where
  close : Step x (after x (close_session x.session))
  close_in : Step x (after x (close_input x.session))
  begin : Step x (after_begin x (begin_end x.session))
  finish :
      {n : ℕ} → x.ending ≡ suc n → Step x (after (record x { ending = n }) (shut_done x.session))
  check :
      (d : Bytes) → x.session.input_closed ≡ false → Step x (record x { sending = d ∷ x.sending })
  commit :
      (data_first : Bool) (before rest : List Bytes) (d : Bytes)
      → x.sending ≡ before ++ d ∷ rest
      → Step x (
          after_send (record x { sending = before ++ rest }) d (select_send data_first x.session d))
  take :
      {d : Bytes} {c : Chan Bytes}
      → chan_recv x.session.data_chan ≡ got d c
      → Step x
          (record x { session = record x.session { data_chan = c }; taken = x.taken ++ d ∷ [] })

pub data Reach (x : System) : System → Type 0 where
  here : Reach x x
  later : {y z : System} → Reach x y → Step y z → Reach x z

-- `close(DoneChan)` is owed by exactly one goroutine from the moment the session is closed until it
-- is done.
pub record Inv (x : System) : Type 0 where
  pub input : x.session.data_chan.closed ≡ x.session.input_closed
  pub open_done : x.session.closed ≡ false → (x.session.done ≡ false) × (x.ending ≡ 0)
  pub closed_input : x.session.closed ≡ true → x.session.input_closed ≡ true
  pub done_pending : x.session.done ≡ true → x.ending ≡ 0
  pub owed : x.session.closed ≡ true → x.session.done ≡ false → x.ending ≡ 1
  pub capacity : x.session.data_chan.cap ≡ data_capacity
  pub bounded : IsBounded x.session.data_chan
  pub order : x.accepted ≡ x.taken ++ x.session.data_chan.buf

module _ {x : System} (v : Inv x) where
  close-Inv : Inv (after x (close_session x.session))
  unfolding close_session
  close-Inv = ground (arith, v.open_done, v.closed_input, v.done_pending, v.owed)

  close_in-Inv : Inv (after x (close_input x.session))
  unfolding close_input
  close_in-Inv = ground (arith, v.open_done, v.closed_input, v.done_pending, v.owed)

  begin-Inv : Inv (after_begin x (begin_end x.session))
  unfolding begin_end
  begin-Inv = ground (arith, v.open_done, v.closed_input, v.done_pending, v.owed)

  finish-Inv :
      {n : ℕ} → x.ending ≡ suc n → Inv (after (record x { ending = n }) (shut_done x.session))
  unfolding shut_done
  finish-Inv e = ground (arith, v.open_done, v.closed_input, v.done_pending, v.owed)

  commit-Inv :
      (data_first : Bool) (d : Bytes) (waiting : List Bytes)
      → Inv (after_send (record x { sending = waiting }) d (select_send data_first x.session d))
  unfolding select_send
  commit-Inv data_first d waiting = ground (
    arith,
    v.open_done,
    v.closed_input,
    v.done_pending,
    v.owed,
    length-append x.session.data_chan.buf (d ∷ []),
    append_assoc x.taken x.session.data_chan.buf (d ∷ []),
  )

  take-Inv :
      {d : Bytes} {c : Chan Bytes}
      → chan_recv x.session.data_chan ≡ got d c
      → Inv (record x { session = record x.session { data_chan = c }; taken = x.taken ++ d ∷ [] })
  take-Inv {d} {c} e = ground (
    arith,
    v.open_done,
    v.closed_input,
    v.done_pending,
    v.owed,
    append_assoc x.taken (d ∷ []) c.buf,
  )

-- Whatever the goroutines of a session do next, `DoneChan` is closed once by the one that owes it,
-- the data channel is closed with the input, and the chunks stay in order and within the buffer.
pub Step-Inv : {x y : System} → Step x y → Inv x → Inv y
Step-Inv close v = close-Inv v
Step-Inv close_in v = close_in-Inv v
Step-Inv begin v = begin-Inv v
Step-Inv (finish e) v = finish-Inv v e
Step-Inv (check d e) v = ground (arith, v.open_done, v.closed_input, v.done_pending, v.owed)
Step-Inv (commit b before rest d e) v = commit-Inv v b d (before ++ rest)
Step-Inv (take e) v = take-Inv v e

pub start-Inv :
    (n : ℕ) (method : Bytes) (kind : StreamType) (cb cb_ffi : Bool)
    → Inv (start (new_session n method kind cb cb_ffi))
unfolding new_session
start-Inv n method kind cb cb_ffi = ground arith

pub Reach-Inv : {x y : System} → Reach x y → Inv x → Inv y
Reach-Inv here v = v
Reach-Inv (later r s) v = Step-Inv s (Reach-Inv r v)

-- The chunks that the handler has received, then those in the buffer, are the chunks that
-- `SendToStream` has accepted, in that order, and at most 100 of them wait, after any interleaving.
pub Reach-order :
    (n : ℕ) (method : Bytes) (kind : StreamType) (cb cb_ffi : Bool) {y : System}
    → Reach (start (new_session n method kind cb cb_ffi)) y
    → (y.accepted ≡ y.taken ++ y.session.data_chan.buf) × (length y.session.data_chan.buf ≤ 100)
Reach-order n method kind cb cb_ffi r =
    let v = Reach-Inv r (start-Inv n method kind cb cb_ffi) in (v.order, omega arith)

-- Whatever the goroutines of a new session have done, no channel is closed twice: the closing sections of
-- `CloseStreamSession`, `CloseStreamInput` and `EndStream` or `ErrorStream` do not panic, and neither does the
-- `close(DoneChan)` that a goroutine still owes. What can panic is the send of a goroutine that had passed
-- the check of `SendToStream`: never while the input is open, and whenever it takes its data case once the
-- input has been closed.
pub Reach-crash :
    (n : ℕ) (method : Bytes) (kind : StreamType) (cb cb_ffi : Bool) (data_first : Bool) (d : Bytes)
    {x : System}
    → Reach (start (new_session n method kind cb cb_ffi)) x
    → (close_session x.session ≢ none)
      × (close_input x.session ≢ none)
      × (begin_end x.session ≢ none)
      × ((x.ending ≡ 0) ⊎ (shut_done x.session ≢ none))
      × (((x.session.input_closed ≡ false) × (select_send data_first x.session d ≢ crashed))
          ⊎ ((x.session.input_closed ≡ true) × (select_send true x.session d ≡ crashed)))
unfolding close_session close_input begin_end shut_done select_send
Reach-crash n method kind cb cb_ffi data_first d r =
    let v = Reach-Inv r (start-Inv n method kind cb cb_ffi) in
    ground (arith, v.input, v.open_done, v.closed_input, v.done_pending, v.owed)

-- The race of `SendToStream` is there: from every state in which the session and its input are open, a sender
-- that has passed the check panics when `CloseStreamInput` runs before its send.
pub send_race :
    (x : System) (d : Bytes)
    → Inv x
    → x.session.closed ≡ false
    → x.session.input_closed ≡ false
    → (y : System) × Reach x y × (y.panicked ≡ true)
unfolding close_input select_send
send_race x d v is_open open_input = (
  _,
  later (later (later here (check d open_input)) close_in)
      (commit true [] x.sending d (ground arith)),
  ground arith,
)
