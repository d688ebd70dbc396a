-- ===== src/PluginServer/Tests.antt =====
-- Runs of pkg/plugin/server.go, and its theorems at concrete streams.
use synurang.Common.{◌≡◌, refl, true, false, [], ◌∷◌, some, arith, str, lookup, ◌↔◌, ◌<◌, ◌^◌}
use synurang.PluginServer.Bounds.{cut, frame_bounds}
use synurang.PluginServer.Streams.{
  Stream, Table, frame, make_stream, cancel_case, stream_send, code,
}
use synurang.PluginServer.Drain.{read_all, read_all-drains}
use synurang.PluginServer.Lifecycle.{IsValid}
use synurang.Plugin.Errors.{ok, err, plugin_error}
use synurang.Plugin.Wire.{host_read}

abbrev quiet : Stream
quiet = record {
  method = str "/T";
  send_ch = record { buf = []; cap = 16; closed = false };
  recv_ch = record { buf = []; cap = 16; closed = false };
  err_ch = record { buf = []; cap = 1; closed = false };
  cancelled = false;
  close_send = false;
  close_recv = false;
}

quiet_is_new : make_stream (str "/T") ≡ quiet
unfolding make_stream
quiet_is_new = refl

send_runs :
    stream_send true quiet (str "a")
    ≡ code 0 (record quiet { send_ch = record quiet.send_ch { buf = str "a" ∷ [] } })
unfolding stream_send
send_runs = refl

-- A handler that has sent two chunks, has failed and is gone.
abbrev failed : Stream
failed = record quiet {
  recv_ch = record { buf = str "a" ∷ str "b" ∷ []; cap = 16; closed = true };
  err_ch = record quiet.err_ch { buf = str "e" ∷ [] };
  cancelled = true;
  close_recv = true;
}

read_all-drains_example :
    read_all 3 cancel_case failed
    ≡ some (ok (str "a") ∷ ok (str "b") ∷ err (plugin_error (str "e")) ∷ [])
read_all-drains_example =
    read_all-drains cancel_case (str "a" ∷ str "b" ∷ []) (str "e" ∷ []) failed refl refl refl
      (omega arith) (omega arith)

abbrev one : Table
one = record { streams = (1, quiet) ∷ []; counter = 1 }

one-IsValid : IsValid one
unfolding lookup
one-IsValid = record { counted = omega arith; stored = λ h s e. ground arith }

frame_bounds_example :
    (host_read (frame 1 (str "no")) ≡ cut 1 (str "no"))
    × ((host_read (frame 0 (str "no")) ≡ some (ok (str "no"))) ↔ (3 < 2 ^ 31))
frame_bounds_example = frame_bounds 1 (str "no")
