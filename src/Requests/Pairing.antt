-- ===== src/Requests/Pairing.antt =====
-- pkg/service/ffi_utils.go: the goroutines that make, answer and give up requests, interleaved at the lock.
use synurang.Common.{
  ℕ, ◌+◌, ◌≤◌, ◌<◌, ◌^◌, ◌≡◌, ◌≢◌, Bool, true, Bytes, Map, List, [], ◌∷◌, ◌++◌, Option, none, some,
  Chan, length, lookup, nat_eq, nat_beq, All, not, ◌&&◌,
}
use synurang.Common.Counting.{count, keys}
use synurang.Requests.{
  Handler, new_handler, create_request, Waited, answered, timed_out, waits, wait_for_response,
  claim_response, delivered, deliver, cleanup_pending,
}

-- `sending` are the responses between the lock and the send; `answers` records the requests whose waiting
-- got an answer.
pub record System : Type 0 where
  pub handler : Handler
  pub sending : Map ℕ Bytes
  pub answers : List ℕ

abbrev pub start : System
start = record { handler = new_handler; sending = []; answers = [] }

abbrev pub after_claim : System → Bytes → Handler × Option ℕ → System
after_claim x d (h, none) = record x { handler = h }
after_claim x d (h, some p) = record x { handler = h; sending = (p, d) ∷ x.sending }

abbrev pub after_wait : System → ℕ → Handler × Waited → System
after_wait x n (h, answered d) = record x { handler = h; answers = n ∷ x.answers }
after_wait x n (h, timed_out) = record x { handler = h }
after_wait x n (h, waits) = record x { handler = h }

pub data Step (x : System) : System → Type 0 where
  create : x.handler.next_id < 2 ^ 63 → Step x (record x { handler = (create_request x.handler).0 })
  claim : (n : ℕ) (d : Bytes) → Step x (after_claim x d (claim_response n x.handler))
  send :
      (before rest : Map ℕ Bytes) (p : ℕ) (d : Bytes) {h : Handler}
      → x.sending ≡ before ++ (p, d) ∷ rest
      → deliver p d x.handler ≡ delivered h
      → Step x (record x { handler = h; sending = before ++ rest })
  wait :
      (response_first expired : Bool) (n : ℕ)
      → Step x (after_wait x n (wait_for_response response_first expired n x.handler))
  cleanup : Step x (record x { handler = cleanup_pending (λ m. m) x.handler })

pub data Reach : System → Type 0 where
  begin : Reach start
  more : {x y : System} → Reach x → Step x y → Reach y

abbrev pub waiting : Option (Chan Bytes) → ℕ
waiting none = 0
waiting (some c) = length c.buf

-- A channel that is open and has room for one response.
abbrev pub is_plain : Option (Chan Bytes) → Bool
is_plain none = true
is_plain (some c) = not c.closed && nat_beq c.cap 1

abbrev pub Same : ℕ × ℕ → Type 0
Same e = e.0 ≡ e.1

pub record Inv (x : System) : Type 0 where
  -- A request is pending, or its response is on the way, in the channel, or taken: one of these at most.
  pub once :
      (n : ℕ)
      → count n (keys x.handler.pending)
          + count n (keys x.sending)
          + waiting (lookup n x.handler.channels)
          + count n x.answers
        ≤ 1
  pub fresh :
      (n : ℕ)
      → x.handler.next_id < n
      → count n (keys x.handler.pending)
          + count n (keys x.sending)
          + waiting (lookup n x.handler.channels)
          + count n x.answers
        ≡ 0
  pub made :
      (n : ℕ)
      → 1 ≤ count n (keys x.handler.pending) + count n (keys x.sending)
      → lookup n x.handler.channels ≢ none
  pub plain : (n : ℕ) → is_plain (lookup n x.handler.channels) ≡ true
  pub same : All Same x.handler.pending
