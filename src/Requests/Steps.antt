-- ===== src/Requests/Steps.antt =====
-- pkg/service/ffi_utils.go: each step of a goroutine keeps a request in one place at most.
use synurang.Common.{
  ℕ, ◌+◌, ◌≤◌, ◌<◌, ◌^◌, ◌≡◌, ◌≢◌, Bool, true, false, Bytes, Map, List, [], ◌∷◌, ◌++◌, none, some,
  Chan, arith, length-append, lookup, insert, remove, lookup-insert, nat_eq, nat_beq, if◌then◌else◌,
  All, ◌⊎◌, inl, inr, Option-cases,
}
use synurang.Common.Counting.{count, keys, count-insert, count-remove, count-lookup, keys-append}
use synurang.Requests.{
  Handler, create_request, wait_for_response, claim_response, delivered, deliver, wake_one, wake,
  cleanup_pending,
}
use synurang.Requests.Pairing.{System, after_claim, after_wait, waiting, is_plain, Same, Inv}

insert-Same : (n : ℕ) (m : Map ℕ ℕ) → All Same m → All Same (insert n n m)
unfolding insert
insert-Same n [] h = ground arith
insert-Same n (e ∷ m) h = ground (arith, insert-Same n m h.1)

remove-Same : (n : ℕ) (m : Map ℕ ℕ) → All Same m → All Same (remove n m)
unfolding remove
remove-Same n [] h = ground arith
remove-Same n (e ∷ m) h = ground (arith, remove-Same n m h.1)

lookup-Same : (n : ℕ) (m : Map ℕ ℕ) → All Same m → (lookup n m ≡ none) ⊎ (lookup n m ≡ some n)
unfolding lookup
lookup-Same n [] h = ground arith
lookup-Same n (q ∷ m) h = ground (arith, lookup-Same n m h.1)

pub create-Inv :
    (x : System)
    → x.handler.next_id < 2 ^ 63
    → Inv x
    → Inv (record x { handler = (create_request x.handler).0 })
unfolding create_request count
create-Inv x bound v =
    let n = x.handler.next_id + 1 in
    let pending = x.handler.pending in
    let channels = x.handler.channels in
    let none_yet = v.fresh n in
    record {
      once = λ k. ground (
        arith,
        v.once k,
        none_yet,
        count-insert k n n pending,
        lookup-insert n k (record { buf = []; cap = 1; closed = false }) channels,
      );
      fresh = λ k later. ground (
        arith,
        v.fresh k,
        none_yet,
        count-insert k n n pending,
        lookup-insert n k (record { buf = []; cap = 1; closed = false }) channels,
      );
      made = λ k some_way. ground (
        arith,
        v.made k,
        none_yet,
        count-insert k n n pending,
        lookup-insert n k (record { buf = []; cap = 1; closed = false }) channels,
      );
      plain = λ k. ground (
        arith,
        v.plain k,
        lookup-insert n k (record { buf = []; cap = 1; closed = false }) channels,
      );
      same = ground (arith, insert-Same n pending v.same);
    }

pub claim-Inv :
    (x : System) (n : ℕ) (d : Bytes) → Inv x → Inv (after_claim x d (claim_response n x.handler))
unfolding claim_response count
claim-Inv x n d v =
    let pending = x.handler.pending in
    let known = lookup-Same n pending v.same in
    record {
      once =
          λ k. ground (arith, v.once k, count-remove k n pending, count-lookup n n pending, known);
      fresh = λ k later.
          ground (arith, v.fresh k, count-remove k n pending, count-lookup n n pending, known);
      made = λ k some_way.
          ground (arith, v.made k, count-remove k n pending, count-lookup n n pending, known);
      plain = λ k. ground (arith, v.plain k);
      same = ground (arith, remove-Same n pending v.same, v.same);
    }

-- What goes out of `sending`, and what is left of it.
pub sending-count :
    (k p : ℕ) (d : Bytes) (before rest : Map ℕ Bytes)
    → count k (keys (before ++ (p, d) ∷ rest))
      ≡ (if nat_beq p k then 1 else 0) + count k (keys (before ++ rest))
unfolding count
sending-count k p d before rest =
    ground (arith, keys-append k before ((p, d) ∷ rest), keys-append k before rest)

pub send-Inv :
    (x : System) (before rest : Map ℕ Bytes) (p : ℕ) (d : Bytes) (h : Handler)
    → x.sending ≡ before ++ (p, d) ∷ rest
    → deliver p d x.handler ≡ delivered h
    → Inv x
    → Inv (record x { handler = h; sending = before ++ rest })
unfolding deliver
send-Inv x before rest p d h e sent v = elim (Option-cases (lookup p x.handler.channels)) [
  | inl missing ↦ absurd (ground (arith, missing))
  | inr (c, is) ↦
      let c' = record c { buf = c.buf ++ d ∷ [] } in
      let grown = length-append c.buf (d ∷ []) in
      record {
        once = λ k. ground (
          arith,
          is,
          grown,
          v.once k,
          sending-count k p d before rest,
          lookup-insert p k c' x.handler.channels,
        );
        fresh = λ k later. ground (
          arith,
          is,
          grown,
          v.fresh k,
          sending-count k p d before rest,
          lookup-insert p k c' x.handler.channels,
        );
        made = λ k some_way. ground (
          arith,
          is,
          v.made k,
          sending-count k p d before rest,
          lookup-insert p k c' x.handler.channels,
        );
        plain =
            λ k. ground (arith, is, v.plain k, v.plain p, lookup-insert p k c' x.handler.channels);
        same = ground (arith, v.same);
      }
]

abbrev rest_of : List Bytes → List Bytes
rest_of [] = []
rest_of (d ∷ ds) = ds

pub wait-Inv :
    (x : System) (response_first expired : Bool) (n : ℕ)
    → Inv x
    → Inv (after_wait x n (wait_for_response response_first expired n x.handler))
unfolding wait_for_response count
wait-Inv x response_first expired n v = elim (Option-cases (lookup n x.handler.channels)) [
  | inl missing ↦ record {
    once = λ k. ground (arith, missing, v.once k, count-remove k n x.handler.pending);
    fresh = λ k later. ground (arith, missing, v.fresh k, count-remove k n x.handler.pending);
    made = λ k some_way. ground (arith, missing, v.made k, count-remove k n x.handler.pending);
    plain = λ k. ground (arith, missing, v.plain k);
    same = ground (arith, missing, remove-Same n x.handler.pending v.same, v.same);
  }
  | inr (c, is) ↦
      let next =
        λ (k : ℕ). lookup-insert n k (record c { buf = rest_of c.buf }) x.handler.channels in
      record {
        once = λ k.
            ground (arith, is, v.plain n, v.once k, next k, count-remove k n x.handler.pending);
        fresh = λ k later.
            ground (arith, is, v.plain n, v.fresh k, next k, count-remove k n x.handler.pending);
        made = λ k some_way.
            ground (arith, is, v.plain n, v.made k, next k, count-remove k n x.handler.pending);
        plain = λ k. ground (arith, is, v.plain k, v.plain n, next k);
        same = ground (arith, is, remove-Same n x.handler.pending v.same, v.same);
      }
]

-- What one wake does to the channel at `k`, and what all of them do.
record Woken (k : ℕ) (more_waiting : ℕ) (before after : Map ℕ (Chan Bytes)) : Type 0 where
  few : waiting (lookup k after) ≤ waiting (lookup k before) + more_waiting
  kept : lookup k before ≢ none → lookup k after ≢ none
  still : is_plain (lookup k before) ≡ true → is_plain (lookup k after) ≡ true

wake_one-Woken :
    (k p : ℕ) (channels : Map ℕ (Chan Bytes))
    → Woken k (if nat_beq p k then 1 else 0) channels (wake_one p channels)
unfolding wake_one
wake_one-Woken k p channels = elim (Option-cases (lookup p channels)) [
  | inl missing ↦ record {
    few = ground (arith, missing);
    kept = λ h. ground (arith, missing);
    still = λ h. ground (arith, missing);
  }
  | inr (c, is) ↦
      let next = lookup-insert p k (record c { buf = c.buf ++ [] ∷ [] }) channels in
      let grown = length-append c.buf ([] ∷ []) in
      record {
        few = ground (arith, is, next, grown);
        kept = λ h. ground (arith, is, next);
        still = λ h. ground (arith, is, next);
      }
]

wake-Woken :
    (k : ℕ) (ps : Map ℕ ℕ) (channels : Map ℕ (Chan Bytes))
    → All Same ps
    → Woken k (count k (keys ps)) channels (wake ps channels)
unfolding wake count
wake-Woken k [] channels h = record { few = ground arith; kept = λ e. e; still = λ e. e }
wake-Woken k ((n, p) ∷ ps) channels h =
    let one = wake_one-Woken k p channels in
    let all = wake-Woken k ps (wake_one p channels) h.1 in
    record {
      few = ground (arith, one.few, all.few, h.0);
      kept = λ e. all.kept (one.kept e);
      still = λ e. all.still (one.still e);
    }

pub cleanup-Inv :
    (x : System) → Inv x → Inv (record x { handler = cleanup_pending (λ m. m) x.handler })
unfolding cleanup_pending count
cleanup-Inv x v =
    let woken = λ (k : ℕ). wake-Woken k x.handler.pending x.handler.channels v.same in
    record {
      once = λ k. ground (arith, v.once k, (woken k).few);
      fresh = λ k later. ground (arith, v.fresh k, (woken k).few);
      made = λ k some_way. ground (arith, v.made k, (woken k).kept);
      plain = λ k. (woken k).still (v.plain k);
      same = tt;
    }
