-- ===== src/Files/Echo.antt =====
-- example/go/service/file_service.go: `CallDartBidiFile`, whose sender is a goroutine of its own. A turn is a
-- step of the sender or a look of the call at its select, with what others do before it.
pub mod Verified
use synurang.Common.{
  ℕ, zero, suc, ◌+◌, ◌-◌, ◌%◌, ◌^◌, Bool, true, false, Bytes, List, [], ◌∷◌, ◌++◌, Option, none,
  some, length, take, ltb, bytes_beq, lookup, nat_eq, ℤ, if◌then◌else◌, ◌&&◌, not,
}
use synurang.Session.{bidi_stream, ok, err, send_from_stream}
use synurang.Core.{Config}
use synurang.Core.Dart.{
  World, Dart, Failure, no_callback, callback_failed, unmarshal_failed, timed_out, Outcome,
  returned, fails, running, crashed, Pick, timer_case, data_case, done_case, Stage, chunk, no_more,
  is_done, expired, goes_on, poll_data, open_session, method_with_id, deferred, send_end,
}
use synurang.Files.{buf_size, read_into, chunk_size, make_buf, remaining_of}
use synurang.Files.Calls.{Report, dart_send}

-- The sender's variables. `sent` says that the hash is in `hashChan`, and `failure` is what is in `errChan`.
pub record Sender : Type 0 where
  pub round : ℕ
  pub remaining : ℕ
  pub hashed : Bytes
  pub buf : Bytes
  pub sent : Bool
  pub failure : Option Failure

pub data Turn : Type 0 where
  sender_turn : (World → World) → Turn
  look_turn : (World → World) → Pick → (fired : Bool) → Turn

-- What a look at the select sees.
pub data Seen : Type 0 where
  chunk_seen : Bytes → World → Seen
  end_seen nothing_seen timeout_seen : Seen
  failed_seen : Failure → Seen

-- How the call ends.
pub data Verdict : Type 0 where
  verified : Report → Verdict
  mismatch : (expected actual : Bytes) → Verdict
  hash_timeout : Verdict
  failed : Failure → Verdict

abbrev is_timer : Pick → Bool
is_timer timer_case = true
is_timer data_case = false
is_timer done_case = false

module _ (hex_sum marshal : Bytes → Bytes) (random : ℕ → ℕ → ℕ) where
  -- One round of the sender's loop, or what follows the loop.
  unfoldable pub sender_step : Dart → ℕ → Sender → World → Sender × World
  unfolding read_into dart_send send_end
  sender_step dart n s w =
      let size = chunk_size s.remaining in
      let buf' = read_into (random s.round) size s.buf in
      let c = take size buf' in
      let result = dart_send marshal dart n c (w, 0) in
      elim s.failure [
        | some f ↦ (s, w)
        | none ↦
            if s.sent
            then (s, w)
            else if ltb 0 s.remaining
            then (
              record {
                round = suc s.round;
                remaining = s.remaining - size;
                hashed = s.hashed ++ c;
                buf = buf';
                sent = false;
                failure = result.1;
              },
              result.0.0,
            )
            else (
              record s { sent = true },
              send_end {0} {M = Bytes} (λ m. none) (λ d. none) dart n w,
            )
      ]

  -- The select of the call: the data, the sender's error, the timer.
  abbrev data_seen : ℕ → World → Seen → Seen
  data_seen n w other = elim (poll_data n w) [
    | chunk d v ↦ chunk_seen d v
    | no_more ↦ end_seen
    | _ ↦ other
  ]

  abbrev error_seen : Option Failure → Seen → Seen
  error_seen none other = other
  error_seen (some f) other = failed_seen f

  unfoldable pub select_echo : ℕ → Pick → (fired : Bool) → Sender → World → Seen
  unfolding poll_data
  select_echo n data_case fired s w =
      data_seen n w (error_seen s.failure (if fired then timeout_seen else nothing_seen))
  select_echo n done_case fired s w =
      error_seen s.failure (data_seen n w (if fired then timeout_seen else nothing_seen))
  select_echo n timer_case fired s w =
      if fired then timeout_seen else data_seen n w (error_seen s.failure nothing_seen)

  -- After the end of the echo: the wait for the sender's hash, and the comparison.
  unfoldable pub await_hash :
      Dart
      → List Turn
      → ℕ
      → Sender
      → (received : Bytes) (size count : ℕ) → World
      → World × Outcome Verdict
  unfolding sender_step
  await_hash dart [] n s received size count w = (w, running)
  await_hash dart (sender_turn between ∷ ts) n s received size count w =
      let r = sender_step dart n s (between w) in await_hash dart ts n r.0 received size count r.1
  await_hash dart (look_turn between pick fired ∷ ts) n s received size count w =
      let later = await_hash dart ts n s received size count (between w) in
      let actual = hex_sum received in
      let expected = hex_sum s.hashed in
      if s.sent && not (fired && is_timer pick)
      then (
        between w,
        returned (
            if bytes_beq actual expected
            then verified (record { size = size; chunk_count = count; hash = actual })
            else mismatch expected actual),
      )
      else if fired
      then (between w, returned hash_timeout)
      else later

  unfoldable pub echo_loop :
      (unmarshal : Bytes → Option Bytes)
      → Dart
      → List Turn
      → ℕ
      → Sender
      → (received : Bytes) (size count : ℕ) → World
      → World × Outcome Verdict
  unfolding sender_step select_echo await_hash
  echo_loop unmarshal dart [] n s received size count w = (w, running)
  echo_loop unmarshal dart (sender_turn between ∷ ts) n s received size count w =
      let r = sender_step dart n s (between w) in
      echo_loop unmarshal dart ts n r.0 received size count r.1
  echo_loop unmarshal dart (look_turn between pick fired ∷ ts) n s received size count w =
      elim (select_echo n pick fired s (between w)) [
        | chunk_seen d v ↦ elim (unmarshal d) [
          | none ↦ (v, returned (failed unmarshal_failed))
          | some c ↦
              echo_loop unmarshal dart ts n s (received ++ c) ((size + length c) % 2 ^ 64)
                (suc count) v
        ]
        | end_seen ↦ await_hash dart ts n s received size count (between w)
        | failed_seen f ↦ (between w, returned (failed f))
        | timeout_seen ↦ (between w, returned (failed timed_out))
        | nothing_seen ↦ echo_loop unmarshal dart ts n s received size count (between w)
      ]

  abbrev pub new_sender : ℤ → Sender
  new_sender size = record {
    round = 0;
    remaining = remaining_of size;
    hashed = [];
    buf = make_buf buf_size;
    sent = false;
    failure = none;
  }

  unfoldable pub echo_with_dart :
      (unmarshal : Bytes → Option Bytes)
      → Dart
      → List Turn
      → Bytes
      → ℤ
      → ℕ
      → World
      → World × Outcome Verdict
  unfolding method_with_id echo_loop make_buf
  echo_with_dart unmarshal dart turns method size n w =
      let (v, r) = dart.callback (method_with_id method n) [] w in
      elim r [
        | none ↦ (v, fails callback_failed)
        | some reply ↦ echo_loop unmarshal dart turns n (new_sender size) [] 0 0 v
      ]

  unfoldable pub call_dart_bidi_file :
      (unmarshal : Bytes → Option Bytes)
      → Option Dart
      → List Turn
      → Bytes
      → ℤ
      → World
      → World × Outcome Verdict
  unfolding open_session deferred echo_with_dart
  call_dart_bidi_file unmarshal none turns method size w = (w, fails no_callback)
  call_dart_bidi_file unmarshal (some dart) turns method size w =
      let (v, n) = open_session method bidi_stream w in
      deferred n (echo_with_dart unmarshal dart turns method size n v)
