-- ===== src/Requests.antt =====
-- pkg/service/ffi_utils.go: `RequestHandler`, which pairs the responses of asynchronous calls with their
-- requests, and `DartCallbackManager`. Go's nil slice is []. A channel stands at the address that is its
-- request's ID, and goroutines keep it after the table has dropped the request.
pub mod Pairing
pub mod Steps
pub mod Answers
mod Tests
use synurang.Common.{
  ℕ, ◌+◌, ◌%◌, ◌^◌, Bool, true, false, Bytes, Map, List, [], ◌∷◌, Option, none, some, Chan,
  accepted, full, panics, got, drained, empty, make_chan, chan_send, chan_recv, insert, remove,
  lookup, nat_eq, if◌then◌else◌,
}

pub record Handler : Type 0 where
  pub pending : Map ℕ ℕ
  pub next_id : ℕ
  pub channels : Map ℕ (Chan Bytes)

unfoldable pub new_handler : Handler
new_handler = record { pending = []; next_id = 0; channels = [] }

unfoldable pub create_request : Handler → Handler × ℕ
create_request h =
    let n = (h.next_id + 1) % 2 ^ 64 in
    (
      record {
        pending = insert n n h.pending;
        next_id = n;
        channels = insert n (make_chan 1) h.channels;
      },
      n,
    )

pub data Waited : Type 0 where
  answered : Bytes → Waited
  timed_out waits : Waited

-- `WaitForResponse` on the channel at `n`, at one look at its `select`; `expired`: the timer has fired.
-- Where both cases are ready the runtime chooses.
unfoldable pub wait_for_response : Bool → Bool → ℕ → Handler → Handler × Waited
wait_for_response response_first expired n h =
    let timeout : Handler × Waited = (record h { pending = remove n h.pending }, timed_out) in
    let otherwise : Handler × Waited = if expired then timeout else (h, waits) in
    elim (lookup n h.channels) [
      | none ↦ otherwise
      | some c ↦ elim (chan_recv c) [
        | got d c' ↦
            if expired
            then (if response_first
                then (record h { channels = insert n c' h.channels }, answered d)
                else timeout)
            else (record h { channels = insert n c' h.channels }, answered d)
        | drained ↦ (h, answered [])
        | empty ↦ otherwise
      ]
    ]

-- The critical section of `HandleResponse`: the channel to send to, or nothing for an ID that is not
-- pending, whose response is dropped.
unfoldable pub claim_response : ℕ → Handler → Handler × Option ℕ
claim_response n h = elim (lookup n h.pending) [
  | none ↦ (h, none)
  | some p ↦ (record h { pending = remove n h.pending }, some p)
]

pub data Delivery : Type 0 where
  delivered : Handler → Delivery
  blocks crashes : Delivery

-- And its `ch <- data`, after the lock.
unfoldable pub deliver : ℕ → Bytes → Handler → Delivery
deliver p d h = elim (lookup p h.channels) [
  | none ↦ blocks
  | some c ↦ elim (chan_send c d) [
    | accepted c' ↦ delivered (record h { channels = insert p c' h.channels })
    | full ↦ blocks
    | panics ↦ crashes
  ]
]

-- `CleanupPending` sends nil to each channel that has room.
unfoldable pub wake_one : ℕ → Map ℕ (Chan Bytes) → Map ℕ (Chan Bytes)
wake_one p channels = elim (lookup p channels) [
  | none ↦ channels
  | some c ↦ elim (chan_send c []) [
    | accepted c' ↦ insert p c' channels
    | full ↦ channels
    | panics ↦ channels
  ]
]

unfoldable pub wake : Map ℕ ℕ → Map ℕ (Chan Bytes) → Map ℕ (Chan Bytes)
unfolding wake_one
wake [] channels = channels
wake ((n, p) ∷ ps) channels = wake ps (wake_one p channels)

-- `order` is the order in which the runtime visits the map.
unfoldable pub cleanup_pending : (Map ℕ ℕ → Map ℕ ℕ) → Handler → Handler
unfolding wake
cleanup_pending order h = record h { pending = []; channels = wake (order h.pending) h.channels }

-- `DartCallbackManager.Invoke`, with the callback that is set, or none.
pub data Invoked {ℓ κ} (A : Type ℓ) (E : Type κ) : Type (ℓ ⊔ κ) where
  returned : A → Invoked A E
  callback_failed : E → Invoked A E
  callback_is_nil : Invoked A E

unfoldable pub invoke_callback {ℓ κ} :
    {A : Type ℓ} {E : Type κ} → Option (Bytes → Bytes → Invoked A E) → Bytes → Bytes → Invoked A E
invoke_callback none method d = callback_is_nil
invoke_callback (some f) method d = f method d
