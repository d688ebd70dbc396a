-- ===== src/Files/Chunks.antt =====
-- example/go/service/file_service.go: the chunks that a loop of sends makes of a size.
use synurang.Common.{
  ℕ, zero, suc, ◌+◌, ◌-◌, ◌/◌, ◌≤◌, ◌≡◌, refl, Bytes, List, [], ◌∷◌, ◌++◌, Option, none, arith, ltb,
  if◌then◌else◌, length, take, drop, length-append, bytes_eq, All,
}
use mathlib.Core.List.{append_assoc, append-nil}
use synurang.Files.{block, read_into, chunk_size, send_chunks}

-- The chunks of the rounds from `round` on, when `remaining` bytes are left.
unfoldable pub chunks : (ℕ → ℕ → ℕ) → (fuel round remaining : ℕ) → List Bytes
chunks random zero round remaining = []
chunks random (suc fuel) round remaining =
    let n = chunk_size remaining in
    let rest = chunks random fuel (suc round) (remaining - n) in
    if ltb 0 remaining then block (random round) 0 n ∷ rest else []

unfoldable pub joined : List Bytes → Bytes
joined [] = []
joined (c ∷ cs) = c ++ joined cs

pub length-block : (source : ℕ → ℕ) (i n : ℕ) → length (block source i n) ≡ n
unfolding block
length-block source i zero = refl
length-block source i (suc n) = ground (arith, length-block source (i + 1) n)

take-append : (xs ys : Bytes) → take (length xs) (xs ++ ys) ≡ xs
take-append [] ys = refl
take-append (x ∷ xs) ys = ground (arith, take-append xs ys)

-- The bytes that are sent are the ones the round wrote, whatever the buffer held.
pub take-read_into :
    (source : ℕ → ℕ) (n : ℕ) (buf : Bytes) → take n (read_into source n buf) ≡ block source 0 n
unfolding read_into
take-read_into source n buf =
    ground (arith, take-append (block source 0 n) (drop n buf), length-block source 0 n)

-- The chunks have the size of the file together, none is empty, and none is longer than the buffer.
pub length-chunks :
    (random : ℕ → ℕ → ℕ) (fuel round remaining : ℕ)
    → remaining ≤ fuel
    → length (joined (chunks random fuel round remaining)) ≡ remaining
unfolding chunks joined
length-chunks random zero round remaining h = ground arith
length-chunks random (suc fuel) round remaining h =
    let n = chunk_size remaining in
    let b = block (random round) 0 n in
    ground (
      arith,
      length-chunks random fuel (suc round) (remaining - n),
      length-block (random round) 0 n,
      length-append b (joined (chunks random fuel (suc round) (remaining - n))),
    )

pub FitsBuffer : Bytes → Type 0
FitsBuffer c = (1 ≤ length c) × (length c ≤ 65536)

pub chunks-FitsBuffer :
    (random : ℕ → ℕ → ℕ) (fuel round remaining : ℕ)
    → All FitsBuffer (chunks random fuel round remaining)
unfolding chunks FitsBuffer
chunks-FitsBuffer random zero round remaining = tt
chunks-FitsBuffer random (suc fuel) round remaining =
    let n = chunk_size remaining in
    ground (
      arith,
      chunks-FitsBuffer random fuel (suc round) (remaining - n),
      length-block (random round) 0 n,
    )

pub count-chunks :
    (random : ℕ → ℕ → ℕ) (fuel round remaining : ℕ)
    → remaining ≤ fuel
    → length (chunks random fuel round remaining) ≡ (remaining + 65535) / 65536
unfolding chunks
count-chunks random zero round remaining h = ground arith
count-chunks random (suc fuel) round remaining h =
    ground (arith, count-chunks random fuel (suc round) (remaining - chunk_size remaining))

-- What a transport has after it took these chunks.
unfoldable pub send_all {ℓ} : {W : Type ℓ} → (Bytes → W → W) → List Bytes → W → W
send_all step [] w = w
send_all step (c ∷ cs) w = send_all step cs (step c w)

-- A loop of sends that do not fail hands over the chunks in order, and the hash has all their bytes.
pub send_chunks-sends {ℓ κ μ} :
    {W : Type ℓ} {E : Type κ} (random : ℕ → ℕ → ℕ) (send : Bytes → W → W × Option E)
    (step : Bytes → W → W)
    → (P : W → Type μ) → ((c : Bytes) (w : W) → P w → send c w ≡ (step c w, none))
    → ((c : Bytes) (w : W) → P w → P (step c w))
    → (fuel round remaining : ℕ) (hashed buf : Bytes) (w : W) → P w
    → send_chunks random send fuel round remaining hashed buf w ≡ record {
      world = send_all step (chunks random fuel round remaining) w;
      hashed = hashed ++ joined (chunks random fuel round remaining);
      failure = none;
    }
unfolding send_chunks send_all joined chunks
send_chunks-sends random send step P h k zero round remaining hashed buf w p =
    ground (arith, append-nil hashed)
send_chunks-sends random send step P h k (suc fuel) round remaining hashed buf w p =
    let n = chunk_size remaining in
    let b = block (random round) 0 n in
    let buf' = read_into (random round) n buf in
    ground (
      arith,
      append-nil hashed,
      take-read_into (random round) n buf,
      h b w p,
      append_assoc hashed b (joined (chunks random fuel (suc round) (remaining - n))),
      send_chunks-sends random send step P h k fuel (suc round) (remaining - n) (hashed ++ b) buf'
          (step b w) (k b w p),
    )
