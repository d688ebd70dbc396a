-- ===== src/Requests/Tests.antt =====
-- A request that is made and answered.
use synurang.Common.{◌<◌, ◌^◌, ◌≡◌, refl, [], ◌∷◌, arith, lookup, insert, remove, str}
use synurang.Common.Counting.{count}
use synurang.Requests.{
  Handler, create_request, new_handler, claim_response, deliver, delivered, wait_for_response,
}
use synurang.Requests.Pairing.{System, create, claim, Reach, begin, more, start, after_claim}
use synurang.Requests.Answers.{Reach-delivers}

program : Unit {0}
unfolding create_request new_handler claim_response deliver wait_for_response lookup insert remove
    count
program = tt

abbrev made : System
made = record start { handler = (create_request start.handler).0 }

abbrev claimed : System
claimed = after_claim made (str "ok") (claim_response 1 made.handler)

reaches : Reach claimed
unfolding program
reaches = more {x = made} (more {x = start} begin (create (ground arith))) (claim 1 (str "ok"))

one_response : claimed.sending ≡ (1, str "ok") ∷ []
unfolding program
one_response = refl

counted : claimed.handler.next_id < 2 ^ 63
unfolding program
counted = ground arith

Reach-delivers_example : (h : Handler) × (deliver 1 (str "ok") claimed.handler ≡ delivered h)
Reach-delivers_example = Reach-delivers [] [] 1 (str "ok") reaches one_response
