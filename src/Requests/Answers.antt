-- ===== src/Requests/Answers.antt =====
-- pkg/service/ffi_utils.go: what the table of requests guarantees after any interleaving.
use synurang.Common.{
  ℕ, ◌+◌, ◌≤◌, ◌<◌, ◌^◌, ◌≡◌, refl, Bytes, Map, [], ◌∷◌, ◌++◌, Chan, arith, lookup, insert, nat_eq,
  Option-cases, inl, inr,
}
use synurang.Common.Counting.{count, keys}
use synurang.Requests.{Handler, new_handler, create_request, deliver, delivered}
use synurang.Requests.Steps.{create-Inv, claim-Inv, send-Inv, wait-Inv, cleanup-Inv, sending-count}
use synurang.Requests.Pairing.{
  start, System, Step, create, claim, send, wait, cleanup, Reach, begin, more, Inv,
}

start-Inv : Inv start
unfolding new_handler count lookup
start-Inv = record {
  once = λ n. ground arith;
  fresh = λ n later. ground arith;
  made = λ n some_way. absurd (ground arith);
  plain = λ n. refl;
  same = tt;
}

Step-Inv : {x y : System} → Step x y → Inv x → Inv y
Step-Inv {x} (create bound) v = create-Inv x bound v
Step-Inv {x} (claim n d) v = claim-Inv x n d v
Step-Inv {x} (send before rest p d {h} e sent) v = send-Inv x before rest p d h e sent v
Step-Inv {x} (wait response_first expired n) v = wait-Inv x response_first expired n v
Step-Inv {x} cleanup v = cleanup-Inv x v

Reach-Inv : {x : System} → Reach x → Inv x
Reach-Inv begin = start-Inv
Reach-Inv (more r s) = Step-Inv s (Reach-Inv r)

-- The send of `HandleResponse`, which runs after the lock is released, never blocks and never panics:
-- whatever requests were made, answered, given up and cleaned up in between, the channel of a response
-- that is under way is open and empty.
pub Reach-delivers :
    {x : System} (before rest : Map ℕ Bytes) (p : ℕ) (d : Bytes)
    → Reach x
    → x.sending ≡ before ++ (p, d) ∷ rest
    → (h : Handler) × (deliver p d x.handler ≡ delivered h)
unfolding deliver
Reach-delivers {x} before rest p d r e =
    let v = Reach-Inv r in
    let here = sending-count p p d before rest in
    elim (Option-cases (lookup p x.handler.channels)) [
      | inl missing ↦ absurd (ground (arith, missing, v.made p, here))
      | inr (c, is) ↦
          let c' : Chan Bytes = record c { buf = c.buf ++ d ∷ [] } in
          (
            record x.handler { channels = insert p c' x.handler.channels },
            ground (arith, is, v.once p, v.plain p, here),
          )
    ]

-- No request is answered twice, and the ID of the next request is new: nothing is pending, under way,
-- in the channel or answered under it. This holds for the first 2 ^ 63 requests, in any interleaving.
pub Reach-once :
    {x : System} (n : ℕ)
    → Reach x
    → x.handler.next_id < 2 ^ 63
    → let next = (create_request x.handler).1 in
      (count n x.answers ≤ 1)
      × (count next (keys x.handler.pending) + count next (keys x.sending) + count next x.answers
          ≡ 0)
unfolding create_request
Reach-once {x} n r bound =
    let v = Reach-Inv r in ground (arith, v.once n, v.fresh (x.handler.next_id + 1))
