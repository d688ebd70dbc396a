-- ===== src/Client/Drain.antt =====
-- pkg/synurang/synurang.go: what the client's RecvMsg returns of what the server's handler sent.
use synurang.Common.{ℕ, zero, suc, ◌<◌, ◌≡◌, Bool, true, false, List, [], ◌∷◌, none, some, arith}
use synurang.Client.Stream.{
  Stream, Reply, Turn, failed, eof, error_case, recv_msg, offer_error, server_send,
}

abbrev repeat {ℓ} : {A : Type ℓ} → ℕ → A → List A
repeat zero a = []
repeat (suc n) a = a ∷ repeat n a

module _ {ℓ κ} {M : Type ℓ} {E : Type κ} where
  -- `n` calls of RecvMsg, each with the same turns of the others.
  unfoldable pub recv_all : ℕ → Turn M E → List (Turn M E) → Stream M E → List (Reply M E)
  unfolding recv_msg
  recv_all zero turn turns s = []
  recv_all (suc n) turn turns s =
      let (s', r) = recv_msg (turn ∷ turns) true s in r ∷ recv_all n turn turns s'

  -- How the stream ends: by the error that waits, if there is one.
  abbrev pub ending : List E → Reply M E
  ending [] = eof
  ending (e ∷ es) = failed e

  -- The handler sends a message and returns an error.
  abbrev pub sends_and_fails : M → E → Stream M E → Stream M E
  sends_and_fails m e s = elim (server_send true s (some m)) [
    | none ↦ s
    | some (s', r) ↦ elim (offer_error (some e) s') [ none ↦ s' | some t ↦ t ]
  ]

  -- On every open stream with nothing to read: if the handler sends a message and fails after phase 1 of
  -- RecvMsg has found nothing, phase 2 can return the error, which is then returned for ever; the message
  -- stays in the buffer and is never received.
  pub recv_loses :
      (s : Stream M E) (m : M) (e : E) (later : List (Turn M E)) (ok : Bool)
      → s.recv_ch.buf ≡ []
      → s.recv_ch.closed ≡ false
      → 0 < s.recv_ch.cap
      → s.err_ch.buf ≡ []
      → s.err_ch.closed ≡ false
      → 0 < s.err_ch.cap
      → s.stream_err ≡ none
      → let (s', r) = recv_msg ((sends_and_fails m e, error_case) ∷ []) true s in
        (r ≡ failed e) × (s'.recv_ch.buf ≡ m ∷ []) × (recv_msg later ok s' ≡ (s', failed e))
  unfolding recv_msg server_send offer_error
  recv_loses s m e later ok hb hc hcap eb ec ecap hs = ground arith
