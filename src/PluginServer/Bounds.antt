-- ===== src/PluginServer/Bounds.antt =====
-- pkg/plugin/server.go and pkg/synurang/plugin_unix.go: the length of a response crosses the C interface
-- as an int.
use synurang.Common.{
  ℕ, zero, suc, ◌+◌, ◌<◌, ◌≤◌, ◌%◌, ◌^◌, ◌≡◌, ◌↔◌, Bytes, ◌∷◌, Option, none, some, arith, length,
  length-take, take, ltb, if◌then◌else◌, ap,
}
use synurang.PluginServer.Streams.{frame}
use synurang.PluginServer.Drain.{host_read-frame}
use synurang.Plugin.Errors.{Result, ok, empty_stream_response}
use synurang.Plugin.Wire.{host_read, read_frame}

-- What a C int leaves of the frame's length.
abbrev pub int_length : Bytes → ℕ
int_length d = (1 + length d) % 2 ^ 32

abbrev pub cut : ℕ → Bytes → Option (Result Bytes)
cut tag d =
    if ltb (int_length d) (2 ^ 31)
    then some (read_frame empty_stream_response (take (int_length d) (tag ∷ d)))
    else none

reads_cut : (tag : ℕ) (d : Bytes) → host_read (frame tag d) ≡ cut tag d
unfolding host_read frame
reads_cut tag d = ground arith

whole :
    (d : Bytes) (n : ℕ)
    → read_frame empty_stream_response (take n (0 ∷ d)) ≡ ok d
    → 1 + length d ≤ n
unfolding read_frame
whole d zero h = absurd (ground arith)
whole d (suc n) h =
    let e : take n d ≡ d = ground arith in omega (arith, ap length e, length-take n d)

fits : (d : Bytes) → host_read (frame 0 d) ≡ some (ok d) → 1 + length d < 2 ^ 31
fits d h =
    let c : cut 0 d ≡ some (ok d) = ground (arith, reads_cut 0 d) in
    ground (arith, whole d (int_length d))

-- What the host reads of a response of any length: the length is reduced to 32 bits, a response whose
-- length then has the sign bit panics, and any other is cut to that length. A data frame is read as its
-- data exactly if it has less than 2 ^ 31 bytes with its tag.
pub frame_bounds :
    (tag : ℕ) (d : Bytes)
    → (host_read (frame tag d) ≡ cut tag d)
      × ((host_read (frame 0 d) ≡ some (ok d)) ↔ (1 + length d < 2 ^ 31))
frame_bounds tag d = (reads_cut tag d, (fits d, λ h. (host_read-frame d h).0))
