-- ===== src/Files.antt =====
-- example/go/service/file_service.go: files as streams of chunks. The random bytes, the hash and protobuf's
-- coding are parameters; `random round i` is byte `i` of what the round's `rng.Read` writes. A size that is
-- not positive sends nothing, and is 0 here.
pub mod Chunks
pub mod Transfer
pub mod Sharing
pub mod Calls
pub mod Echo
pub mod Handlers
mod Tests
use synurang.Common.{
  ℕ, zero, suc, ◌+◌, ◌-◌, ◌%◌, ◌^◌, Bytes, Map, List, [], ◌∷◌, ◌++◌, Option, none, some, str, ltb,
  if◌then◌else◌, length, take, drop, min, insert, bytes_eq, ℤ, pos, negsuc,
}

abbrev pub buf_size : ℕ
buf_size = 65536

abbrev pub remaining_of : ℤ → ℕ
remaining_of (pos n) = n
remaining_of (negsuc n) = 0

-- The first `n` bytes that a source gives, from the byte `i` on.
unfoldable pub block : (ℕ → ℕ) → (i n : ℕ) → Bytes
block source i zero = []
block source i (suc n) = source i ∷ block source (i + 1) n

-- `rng.Read(buf[:n])`
unfoldable pub read_into : (ℕ → ℕ) → ℕ → Bytes → Bytes
unfolding block
read_into source n buf = block source 0 n ++ drop n buf

abbrev pub chunk_size : ℕ → ℕ
chunk_size remaining = if ltb remaining buf_size then remaining else buf_size

-- Where a loop of sends ends: the transport, what the hash has been fed, and the error that stopped it.
pub record Sending {ℓ κ} (W : Type ℓ) (E : Type κ) : Type (ℓ ⊔ κ) where
  pub world : W
  pub hashed : Bytes
  pub failure : Option E

module _ {ℓ κ} {W : Type ℓ} {E : Type κ} (random : ℕ → ℕ → ℕ)
    (send : Bytes → W → W × Option E) where
  -- The loop that fills the buffer, feeds the hash and sends. Each round sends at least a byte: `fuel` is
  -- what remains.
  unfoldable pub send_chunks : (fuel round remaining : ℕ) → (hashed buf : Bytes) → W → Sending W E
  unfolding read_into
  send_chunks zero round remaining hashed buf w = record {
    world = w;
    hashed = hashed;
    failure = none;
  }
  send_chunks (suc fuel) round remaining hashed buf w =
      let n = chunk_size remaining in
      let buf' = read_into (random round) n buf in
      let chunk = take n buf' in
      let w' = (send chunk w).0 in
      let rest = send_chunks fuel (suc round) (remaining - n) (hashed ++ chunk) buf' w' in
      if ltb 0 remaining
      then (elim (send chunk w).1 [
        | some e ↦ record { world = w'; hashed = hashed ++ chunk; failure = some e }
        | none ↦ rest
      ])
      else record { world = w; hashed = hashed; failure = none }

-- A gRPC stream as the handlers see it: the chunks that have been sent, and the trailer.
pub record Stream : Type 0 where
  pub sent : List Bytes
  pub trailer : Map Bytes Bytes

-- The results of `Recv`, of which the last is followed by the end of the stream.
pub data Incoming (E : Type 0) : Type 0 where
  content : Bytes → Incoming E
  broken : E → Incoming E

-- What a handler returns: the status of an upload is the received size.
pub data Returned (E : Type 0) : Type 0 where
  status : ℕ → Returned E
  done : Returned E
  fails : E → Returned E

abbrev pub hash_key : Bytes
hash_key = str "x-file-hash"

-- `make([]byte, n)`
unfoldable pub make_buf : ℕ → Bytes
make_buf zero = []
make_buf (suc n) = 0 ∷ make_buf n

module _ {E : Type 0} where
  -- `stream.Send`, which fails when `failing` says so of the chunks sent so far.
  unfoldable pub stream_send : (failing : ℕ → Option E) → Bytes → Stream → Stream × Option E
  stream_send failing c s = elim (failing (length s.sent)) [
    | some e ↦ (s, some e)
    | none ↦ (record s { sent = s.sent ++ c ∷ [] }, none)
  ]

  -- `BidiFile`
  unfoldable pub bidi_file :
      (failing : ℕ → Option E) → List (Incoming E) → Stream → Stream × Returned E
  unfolding stream_send
  bidi_file failing [] s = (s, done)
  bidi_file failing (broken e ∷ rest) s = (s, fails e)
  bidi_file failing (content c ∷ rest) s = elim (stream_send failing c s).1 [
    | some e ↦ ((stream_send failing c s).0, fails e)
    | none ↦ bidi_file failing rest (stream_send failing c s).0
  ]

-- `SendAndClose`, which fails or hands over the status.
abbrev pub replied : {E : Type 0} → Option E → ℕ → Returned E
replied none total = status total
replied (some e) total = fails e

module _ {E : Type 0} (hex_sum : Bytes → Bytes) where
  -- `UploadFile`; `closing` is the error of its `SendAndClose`, and `total` the pattern of 64 bits of
  -- `totalSize`.
  unfoldable pub upload_file :
      (closing : Option E)
      → List (Incoming E)
      → (hashed : Bytes) (total : ℕ) → Stream
      → Stream × Returned E
  unfolding insert
  upload_file closing [] hashed total s =
      (record s { trailer = insert hash_key (hex_sum hashed) s.trailer }, replied closing total)
  upload_file closing (broken e ∷ rest) hashed total s = (s, fails e)
  upload_file closing (content c ∷ rest) hashed total s =
      upload_file closing rest (hashed ++ c) ((total + length c) % 2 ^ 64) s

  -- `DownloadFile`
  unfoldable pub download_file :
      (random : ℕ → ℕ → ℕ) (failing : ℕ → Option E) (size : ℤ) → Stream → Stream × Returned E
  unfolding send_chunks stream_send make_buf insert
  download_file random failing size s =
      let n = remaining_of size in
      let r = send_chunks random (stream_send failing) n 0 n [] (make_buf buf_size) s in
      elim r.failure [
        | some e ↦ (r.world, fails e)
        | none ↦
            let w = r.world in
            (record w { trailer = insert hash_key (hex_sum r.hashed) w.trailer }, done)
      ]
