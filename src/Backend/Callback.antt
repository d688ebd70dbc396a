-- ===== src/Backend/Callback.antt =====
-- cmd/server/main.go: the callback into Dart, over the requests of pkg/service/ffi_utils.go.
use synurang.Common.{
  ℕ, ◌≡◌, ap, ◌∙◌, Bool, false, Bytes, Map, [], ◌∷◌, Option, none, some, lookup, remove, insert,
  nat_eq, beq_refl, lookup-insert, lookup-remove, arith, Chan, make_chan,
}
use synurang.Requests.{
  Handler, create_request, wait_for_response, Waited, answered, cleanup_pending, claim_response,
  deliver, Delivery, delivered, blocks, crashes,
}
use synurang.Backend.Exports.{go_bytes}

-- What a call of the callback returns; `is_nil`: no callback is set.
pub data Called : Type 0 where
  is_nil : Called
  called : Handler → Waited → Called

abbrev outcome : Handler × Waited → Called
outcome (h, w) = called h w

-- `SendFfiResponse`, once its bytes are copied: `HandleResponse`.
unfoldable pub handle_response : ℕ → Bytes → Handler → Delivery
unfolding claim_response deliver
handle_response n d h =
    let (h', p) = claim_response n h in elim p [ none ↦ delivered h' | some c ↦ deliver c d h' ]

abbrev copied : ℕ → Handler → Option Bytes → Delivery
copied n h none = crashes
copied n h (some d) = handle_response n d h

unfoldable pub send_ffi_response : ℕ → Bytes → ℕ → Handler → Delivery
unfolding go_bytes handle_response
send_ffi_response n memory len h = copied n h (go_bytes memory len)

-- `RegisterDartCallback` gives up the requests of the callback before.
unfoldable pub register_dart_callback : (Map ℕ ℕ → Map ℕ ℕ) → Handler → Handler
unfolding cleanup_pending
register_dart_callback order h = cleanup_pending order h

-- The callback that it installs. `dart` is what Dart and the other goroutines do to the requests from the
-- call on until the response is waited for; it is given the request's ID and the data.
unfoldable pub dart_callback :
    Option (ℕ → Bytes → Bytes → Handler → Handler) → Bool → Bool → Bytes → Bytes → Handler → Called
unfolding create_request wait_for_response
dart_callback none response_first expired method d h = is_nil
dart_callback (some dart) response_first expired method d h =
    let (h1, n) = create_request h in
    outcome (wait_for_response response_first expired n (dart n method d h1))

abbrev settle : Handler → Delivery → Handler
settle h (delivered h') = h'
settle h blocks = h
settle h crashes = h

-- What others do in between that leaves the request `n` alone: its entry and its channel.
abbrev pub Spares : ℕ → (Handler → Handler) → Type 0
Spares n act =
    (h : Handler)
    → (lookup n (act h).pending ≡ lookup n h.pending)
      × (lookup n (act h).channels ≡ lookup n h.channels)

-- Dart answers with what a function makes of the data; others come `before` it and `after` it.
abbrev pub answers :
    (Handler → Handler)
    → (Handler → Handler)
    → (Bytes → Bytes)
    → ℕ
    → Bytes
    → Bytes
    → Handler
    → Handler
answers before after f n method d h = after (settle (before h) (handle_response n (f d) (before h)))

abbrev holding : Bytes → Chan Bytes
holding d = record { buf = d ∷ []; cap = 1; closed = false }

abbrev given : ℕ → Bytes → Handler → Handler
given n d h = record h { pending = remove n h.pending; channels = insert n (holding d) h.channels }

settle-given :
    (n : ℕ) (d : Bytes) (h : Handler)
    → lookup n h.pending ≡ some n
    → lookup n h.channels ≡ some (make_chan 1)
    → settle h (handle_response n d h) ≡ given n d h
unfolding handle_response
settle-given n d h e e' = ground arith

waits-holding :
    (response_first : Bool) (n : ℕ) (d : Bytes) (h : Handler)
    → lookup n h.channels ≡ some (holding d)
    → wait_for_response response_first false n h
      ≡ (record h { channels = insert n (make_chan 1) h.channels }, answered d)
unfolding wait_for_response
waits-holding response_first n d h e = ground arith

-- A call whose response Dart sends before the timeout returns that response, whatever other requests are
-- pending and whatever other goroutines do to the requests before and after the response, as long as they
-- leave the entry and the channel of this one alone; and its own ID is no longer pending.
pub dart_callback-answers :
    (before after : Handler → Handler) (f : Bytes → Bytes) (response_first : Bool)
    (method d : Bytes) (h : Handler)
    → Spares (create_request h).1 before
    → Spares (create_request h).1 after
    → (h' : Handler) × (dart_callback
          (some (answers before after f))
          response_first
          false
          method
          d
          h
        ≡ called h' (answered (f d)))
      × (lookup (create_request h).1 h'.pending ≡ none)
unfolding create_request dart_callback
dart_callback-answers before after f response_first method d h hb ha =
    let n = (create_request h).1 in
    let h1 = (create_request h).0 in
    let there : lookup n h1.pending ≡ some n =
      ground (arith, lookup-insert n n n h.pending, beq_refl n) in
    let room : lookup n h1.channels ≡ some (make_chan 1) =
      ground (arith, lookup-insert n n (make_chan 1) h.channels, beq_refl n) in
    let h2 = before h1 in
    let h3 = given n (f d) h2 in
    let settled = settle-given n (f d) h2 ((hb h1).0 ∙ there) ((hb h1).1 ∙ room) in
    let held : lookup n (after h3).channels ≡ some (holding (f d)) =
      ground (arith, ha h3, lookup-insert n n (holding (f d)) h2.channels, beq_refl n) in
    (
      record (after h3) { channels = insert n (make_chan 1) (after h3).channels },
      ap (λ x. outcome (wait_for_response response_first false n (after x))) settled
          ∙ ap outcome (waits-holding response_first n (f d) (after h3) held),
      ground (arith, ha h3, lookup-remove n n h2.pending, beq_refl n),
    )
