-- ===== src/Client/Tests.antt =====
-- A stream of numbers whose handler fails with a number.
use synurang.Common.{ℕ, ◌≡◌, refl, true, false, [], ◌∷◌, none, arith}
use synurang.Client.Stream.{
  Stream, failed, Turn, error_case, new_client_stream, recv_msg, offer_error, server_send,
  close_received, poll_data, wait_any, finish,
}
use synurang.Client.Drain.{sends_and_fails, recv_loses}
use synurang.Client.Pipes.{IsSound}

program : Unit {0}
unfolding new_client_stream recv_msg offer_error server_send close_received poll_data wait_any
    finish
program = tt

abbrev finished : Stream ℕ ℕ
finished = record {
  send_ch = record { buf = []; cap = 16; closed = false };
  recv_ch = record { buf = 5 ∷ 6 ∷ []; cap = 16; closed = true };
  err_ch = record { buf = 9 ∷ []; cap = 1; closed = true };
  cancelled = true;
  closed = false;
  stream_err = none;
}

abbrev fresh : Stream ℕ ℕ
fresh = record {
  send_ch = record { buf = []; cap = 16; closed = false };
  recv_ch = record { buf = []; cap = 16; closed = false };
  err_ch = record { buf = []; cap = 1; closed = false };
  cancelled = false;
  closed = false;
  stream_err = none;
}

starts_fresh : new_client_stream ≡ fresh
unfolding program
starts_fresh = refl

abbrev alone : Turn ℕ ℕ
alone = (λ s. s, error_case)

recv_loses_example :
    let (s', r) = recv_msg ((sends_and_fails 5 9, error_case) ∷ []) true fresh in
    (r ≡ failed 9) × (s'.recv_ch.buf ≡ 5 ∷ []) × (recv_msg (alone ∷ []) true s' ≡ (s', failed 9))
recv_loses_example =
    recv_loses fresh 5 9 (alone ∷ []) true refl refl (omega arith) refl refl (omega arith) refl

fresh-IsSound : IsSound fresh
fresh-IsSound = record { flag = refl; up_cap = refl; down_cap = refl }
