-- ===== src/Files/Transfer.antt =====
-- example/go/service/file_service.go: a file that is sent in chunks and put together again.
use synurang.Common.{
  ℕ, ◌+◌, ◌/◌, ◌%◌, ◌^◌, ◌<◌, ◌≡◌, refl, Bytes, List, [], ◌∷◌, ◌++◌, Option, none, some, arith,
  length, map, length-append, insert, bytes_eq, beq_refl, lookup, lookup-insert, All, ℤ,
}
use mathlib.Core.List.{append_assoc, append-nil}
use synurang.Files.{
  buf_size, Stream, content, status, replied, done, hash_key, upload_file, stream_send, bidi_file,
  download_file, make_buf, remaining_of,
}
use synurang.Files.Chunks.{
  chunks, joined, FitsBuffer, chunks-FitsBuffer, count-chunks, length-chunks, send_all,
  send_chunks-sends,
}

add_chunk : Bytes → Stream → Stream
add_chunk c s = record s { sent = s.sent ++ c ∷ [] }

send_all-add_chunk :
    (cs : List Bytes) (s : Stream) → send_all add_chunk cs s ≡ record s { sent = s.sent ++ cs }
unfolding add_chunk send_all
send_all-add_chunk [] s = ground (arith, append-nil s.sent)
send_all-add_chunk (c ∷ cs) s =
    ground (arith, send_all-add_chunk cs (add_chunk c s), append_assoc s.sent (c ∷ []) cs)

stream_send-add_chunk :
    {E : Type 0} (c : Bytes) (s : Stream)
    → stream_send {E = E} (λ n. none) c s ≡ (add_chunk c s, none)
unfolding stream_send add_chunk
stream_send-add_chunk c s = refl

abbrev pub file_chunks : (ℕ → ℕ → ℕ) → ℤ → List Bytes
file_chunks random size = chunks random (remaining_of size) 0 (remaining_of size)

abbrev pub after : (Bytes → Bytes) → (ℕ → ℕ → ℕ) → ℤ → Stream → Stream
after hex_sum random size s = record {
  sent = s.sent ++ file_chunks random size;
  trailer = insert hash_key (hex_sum (joined (file_chunks random size))) s.trailer;
}

pub download_file-sends :
    {E : Type 0} (hex_sum : Bytes → Bytes) (random : ℕ → ℕ → ℕ) (size : ℤ) (s : Stream)
    → download_file {E = E} hex_sum random (λ n. none) size s ≡ (after hex_sum random size s, done)
unfolding download_file
download_file-sends {E} hex_sum random size s =
    let n = remaining_of size in
    ground (
      arith,
      send_chunks-sends random (stream_send {E = E} (λ k. none)) add_chunk (λ w. Unit {0})
          (λ c w p. stream_send-add_chunk c w) (λ c w p. p) n 0 n [] (make_buf buf_size) s tt,
      send_all-add_chunk (file_chunks random size) s,
    )

-- A download whose sends do not fail sends, in order, the bytes that each round read from the generator,
-- as many as remain and 65536 at most, and nothing else: as many chunks as the size needs, none of them
-- empty or longer than 64 KiB, and the size together. It ends without an error, and its trailer has the hash
-- of all the bytes.
pub download_file_lem :
    {E : Type 0} (hex_sum : Bytes → Bytes) (random : ℕ → ℕ → ℕ) (size : ℤ) (s : Stream)
    → s.sent ≡ []
    → ((download_file {E = E} hex_sum random (λ n. none) size s).1 ≡ done)
      × ((download_file {E = E} hex_sum random (λ n. none) size s).0.sent ≡ file_chunks random size)
      × (length (joined (download_file {E = E} hex_sum random (λ n. none) size s).0.sent)
          ≡ remaining_of size)
      × All FitsBuffer (download_file {E = E} hex_sum random (λ n. none) size s).0.sent
      × (length (download_file {E = E} hex_sum random (λ n. none) size s).0.sent
          ≡ (remaining_of size + 65535) / 65536)
      × (lookup hash_key (download_file {E = E} hex_sum random (λ n. none) size s).0.trailer
          ≡ some
              (hex_sum (joined (download_file {E = E} hex_sum random (λ n. none) size s).0.sent)))
download_file_lem {E} hex_sum random size s e =
    let n = remaining_of size in
    let cs = file_chunks random size in
    let h = hex_sum (joined cs) in
    ground (
      arith,
      e,
      download_file-sends {E = E} hex_sum random size s,
      chunks-FitsBuffer random n 0 n,
      count-chunks random n 0 n,
      length-chunks random n 0 n,
      lookup-insert hash_key hash_key h s.trailer,
      beq_refl hash_key,
    )

pub total-lem :
    {E : Type 0} (hex_sum : Bytes → Bytes) (closing : Option E) (cs : List Bytes) (hashed : Bytes)
    (total : ℕ) (s : Stream)
    → upload_file {E = E} hex_sum closing (map content cs) hashed (total % 2 ^ 64) s ≡ (
      record s { trailer = insert hash_key (hex_sum (hashed ++ joined cs)) s.trailer },
      replied closing ((total + length (joined cs)) % 2 ^ 64),
    )
unfolding upload_file joined
total-lem hex_sum closing [] hashed total s = ground (arith, append-nil hashed)
total-lem {E} hex_sum closing (c ∷ cs) hashed total s = ground (
  arith,
  total-lem {E = E} hex_sum closing cs (hashed ++ c) (total + length c) s,
  append_assoc hashed c (joined cs),
  length-append c (joined cs),
)

bidi_file-echoes :
    {E : Type 0} (cs : List Bytes) (s : Stream)
    → bidi_file {E = E} (λ n. none) (map content cs) s ≡ (record s { sent = s.sent ++ cs }, done)
unfolding bidi_file stream_send
bidi_file-echoes [] s = ground (arith, append-nil s.sent)
bidi_file-echoes {E} (c ∷ cs) s = ground (
  arith,
  bidi_file-echoes {E = E} cs (add_chunk c s),
  append_assoc s.sent (c ∷ []) cs,
  stream_send-add_chunk {E = E} c s,
)

-- A file that is downloaded, echoed and uploaded arrives whole: the echo sends the chunks of the download,
-- and the upload counts the file's size and has its hash in the trailer. The sends and the closing of the
-- upload do not fail, and the size is an int64.
pub upload-bidi-download :
    {E : Type 0} (hex_sum : Bytes → Bytes) (random : ℕ → ℕ → ℕ) (size : ℤ) (s t u : Stream)
    → s.sent ≡ []
    → t.sent ≡ []
    → remaining_of size < 2 ^ 63
    → ((bidi_file {E = E}
          (λ n. none)
          (map content (download_file {E = E} hex_sum random (λ n. none) size s).0.sent)
          t).0.sent
        ≡ (download_file {E = E} hex_sum random (λ n. none) size s).0.sent)
      × ((upload_file {E = E} hex_sum none
            (map content
              (bidi_file {E = E}
                (λ n. none)
                (map content (download_file {E = E} hex_sum random (λ n. none) size s).0.sent)
                t).0.sent)
            []
            0
            u).1
          ≡ status (remaining_of size))
      × (lookup hash_key
            (upload_file {E = E} hex_sum none
              (map content
                (bidi_file {E = E}
                  (λ n. none)
                  (map content (download_file {E = E} hex_sum random (λ n. none) size s).0.sent)
                  t).0.sent)
              []
              0
              u).0.trailer
          ≡ lookup hash_key (download_file {E = E} hex_sum random (λ n. none) size s).0.trailer)
upload-bidi-download {E} hex_sum random size s t u e f bound =
    let n = remaining_of size in
    let cs = file_chunks random size in
    let h = hex_sum (joined cs) in
    ground (
      arith,
      e,
      f,
      download_file-sends {E = E} hex_sum random size s,
      bidi_file-echoes {E = E} cs t,
      total-lem {E = E} hex_sum none cs [] 0 u,
      length-chunks random n 0 n,
      lookup-insert hash_key hash_key h s.trailer,
      lookup-insert hash_key hash_key h u.trailer,
      beq_refl hash_key,
    )
