-- ===== src/Files/Sharing.antt =====
-- example/go/service/file_service.go over pkg/synurang/synurang.go: `DownloadFile` as the handler of an
-- `FfiClientConn`, whose streams pass the message itself. Each chunk is a slice of the handler's one buffer,
-- and is known by its length. The stream's SetTrailer does nothing.
use synurang.Common.{
  ℕ, zero, suc, ◌+◌, ◌-◌, ◌*◌, ◌≤◌, ◌<◌, ◌≡◌, refl, subst, false, Bytes, List, [], ◌∷◌, ◌++◌,
  Option, none, some, arith, ltb, if◌then◌else◌, length, take, Chan, make_chan, chan_send,
  chan_recv, accepted, full, panics, got, drained, empty, length-append,
}
use mathlib.Core.List.{append_assoc, append-nil}
use synurang.Files.{block, read_into, chunk_size, buf_size, make_buf}
use synurang.Files.Chunks.{chunks, joined, take-read_into}

-- The handler's buffer, the messages that wait for the client, and what it has received.
pub record Shared : Type 0 where
  pub buf : Bytes
  pub waiting : Chan ℕ
  pub received : List Bytes

-- The client's RecvMsg copies the message as it is by then.
unfoldable pub client_recv : Shared → Shared
client_recv st = elim (chan_recv st.waiting) [
  | got n c ↦ record st { waiting = c; received = st.received ++ take n st.buf ∷ [] }
  | drained ↦ st
  | empty ↦ st
]

unfoldable pub client_recvs : ℕ → Shared → Shared
unfolding client_recv
client_recvs zero st = st
client_recvs (suc n) st = client_recvs n (client_recv st)

-- The handler's loop; `ahead round` messages are received between the round's read of random bytes and its
-- send. `none`: it is blocked in a send. With the bytes that the hash was fed.
unfoldable pub direct_chunks :
    (random : ℕ → ℕ → ℕ) (ahead : ℕ → ℕ) (fuel round remaining : ℕ)
    → Bytes
    → Shared
    → Option (Shared × Bytes)
unfolding read_into client_recvs
direct_chunks random ahead zero round remaining hashed st = some (st, hashed)
direct_chunks random ahead (suc fuel) round remaining hashed st =
    let n = chunk_size remaining in
    let buf' = read_into (random round) n st.buf in
    let st' = client_recvs (ahead round) (record st { buf = buf' }) in
    if ltb 0 remaining
    then (elim (chan_send st'.waiting n) [
      | accepted c ↦
          direct_chunks random ahead fuel (suc round) (remaining - n) (hashed ++ take n buf')
            (record st' { waiting = c })
      | full ↦ none
      | panics ↦ none
    ])
    else some (st, hashed)

unfoldable pub direct_download :
    (random : ℕ → ℕ → ℕ) (ahead : ℕ → ℕ) (size : ℕ) → Option (Shared × Bytes)
unfolding direct_chunks make_buf
direct_download random ahead size =
    direct_chunks random ahead size 0 size []
      (record { buf = make_buf buf_size; waiting = make_chan 16; received = [] })

abbrev pub copies {ℓ} : {A : Type ℓ} → ℕ → A → List A
copies zero a = []
copies (suc n) a = a ∷ copies n a

direct_chunks-end :
    (random : ℕ → ℕ → ℕ) (ahead : ℕ → ℕ) (fuel round : ℕ) (hashed : Bytes) (st : Shared)
    → direct_chunks random ahead fuel round 0 hashed st ≡ some (st, hashed)
unfolding direct_chunks
direct_chunks-end random ahead zero round hashed st = refl
direct_chunks-end random ahead (suc fuel) round hashed st = refl

-- The state once a round has sent a chunk of `n` bytes.
abbrev sent_one : (ℕ → ℕ) → ℕ → Shared → Shared
sent_one source n st = record st {
  buf = read_into source n st.buf;
  waiting = record st.waiting { buf = st.waiting.buf ++ n ∷ [] };
}

direct_chunks-round :
    (random : ℕ → ℕ → ℕ) (n left fuel round remaining : ℕ) (hashed : Bytes) (st : Shared)
    → chunk_size remaining ≡ n
    → remaining ≡ n + left
    → 0 < remaining
    → st.waiting.closed ≡ false
    → length st.waiting.buf < st.waiting.cap
    → direct_chunks random (λ r. 0) (suc fuel) round remaining hashed st
      ≡ direct_chunks random
          (λ r. 0)
          fuel
          (suc round)
          left
          (hashed ++ block (random round) 0 n)
          (sent_one (random round) n st)
unfolding direct_chunks client_recvs
direct_chunks-round random n left fuel round remaining hashed st e r pos_ open_ room =
    let l : remaining - chunk_size remaining ≡ left = ground (arith, e, r) in
    subst
      (λ x.
        direct_chunks random (λ r. 0) (suc fuel) round remaining hashed st
        ≡ direct_chunks random (λ r. 0) fuel (suc round) x (hashed ++ block (random round) 0 n)
            (sent_one (random round) n st))
      l (ground (arith, e, take-read_into (random round) n st.buf))

joined-cons : (c : Bytes) (cs : List Bytes) → joined (c ∷ cs) ≡ c ++ joined cs
unfolding joined
joined-cons c cs = refl

joined-one : (c : Bytes) → joined (c ∷ []) ≡ c
unfolding joined
joined-one c = append-nil c

-- What holds of a loop that has `k + 1` full chunks of `b` bytes to send.
record Fills (random : ℕ → ℕ → ℕ) (b k fuel round : ℕ) (hashed : Bytes) (st : Shared) : Type 0 where
  last : Bytes
  ends :
      direct_chunks random (λ r. 0) fuel round (suc k * b) hashed st
      ≡ some (
        record st {
          buf = last;
          waiting = record st.waiting { buf = st.waiting.buf ++ copies (suc k) b };
        },
        hashed ++ joined (chunks random fuel round (suc k * b)),
      )
  latest : take b last ≡ block (random (round + k)) 0 b

module _ (random : ℕ → ℕ → ℕ) (b : ℕ) (nonzero : 0 < b)
    (size : (k : ℕ) → chunk_size (suc k * b) ≡ b) where
  chunks-end : (fuel round : ℕ) → chunks random fuel round 0 ≡ []
  unfolding chunks
  chunks-end zero round = refl
  chunks-end (suc fuel) round = refl

  chunks-round :
      (k fuel round : ℕ)
      → chunks random (suc fuel) round (suc k * b)
        ≡ block (random round) 0 b ∷ chunks random fuel (suc round) (k * b)
  unfolding chunks
  chunks-round k fuel round = ground (arith, size k, nonzero)

  direct_chunks-full :
      (k fuel round : ℕ) (hashed : Bytes) (st : Shared)
      → suc k * b ≤ fuel
      → st.waiting.closed ≡ false
      → length st.waiting.buf + suc k ≤ st.waiting.cap
      → Fills random b k fuel round hashed st
  direct_chunks-full k zero round hashed st h open_ room = absurd (ground (arith, nonzero, h))
  direct_chunks-full zero (suc fuel) round hashed st h open_ room =
      let one : 1 * b ≡ b + 0 = ground arith in
      let pos_ : 0 < 1 * b = ground (arith, nonzero) in
      let room' : length st.waiting.buf < st.waiting.cap = ground (arith, room) in
      let zero_left : 0 * b ≡ 0 = ground arith in
      let none_left : chunks random (suc fuel) round (1 * b)
          ≡ block (random round) 0 b ∷ chunks random fuel (suc round) 0 =
        subst
          (λ x.
            chunks random (suc fuel) round (1 * b)
            ≡ block (random round) 0 b ∷ chunks random fuel (suc round) x)
          zero_left (chunks-round 0 fuel round) in
      record {
        last = read_into (random round) b st.buf;
        ends = ground (
          arith,
          direct_chunks-round random b 0 fuel round (1 * b) hashed st (size 0) one pos_ open_ room',
          direct_chunks-end random (λ r. 0) fuel (suc round) (hashed ++ block (random round) 0 b)
              (sent_one (random round) b st),
          none_left,
          chunks-end fuel (suc round),
          joined-one (block (random round) 0 b),
        );
        latest = ground (arith, take-read_into (random round) b st.buf);
      }
  direct_chunks-full (suc k) (suc fuel) round hashed st h open_ room =
      let st' = sent_one (random round) b st in
      let next : suc (suc k) * b ≡ b + suc k * b = ground arith in
      let more : 0 < suc (suc k) * b = ground (arith, nonzero) in
      let less : suc k * b ≤ fuel = ground (arith, h, nonzero) in
      let room' : length st'.waiting.buf + suc k ≤ st'.waiting.cap =
        ground (arith, room, length-append st.waiting.buf (b ∷ [])) in
      let room'' : length st.waiting.buf < st.waiting.cap = ground (arith, room) in
      let rest =
        direct_chunks-full k fuel (suc round) (hashed ++ block (random round) 0 b) st' less open_
          room' in
      record {
        last = rest.last;
        ends = ground (
          arith,
          direct_chunks-round random b (suc k * b) fuel round (suc (suc k) * b) hashed st
              (size (suc k)) next more open_ room'',
          rest.ends,
          chunks-round (suc k) fuel round,
          joined-cons (block (random round) 0 b) (chunks random fuel (suc round) (suc k * b)),
          append_assoc hashed (block (random round) 0 b)
              (joined (chunks random fuel (suc round) (suc k * b))),
          append_assoc st.waiting.buf (b ∷ []) (copies (suc k) b),
        );
        latest = ground (arith, rest.latest);
      }

client_recvs-take :
    (n : ℕ) (b : ℕ) (st : Shared)
    → st.waiting.buf ≡ copies n b
    → (client_recvs n st).received ≡ st.received ++ copies n (take b st.buf)
unfolding client_recvs client_recv
client_recvs-take zero b st e = ground (arith, append-nil st.received)
client_recvs-take (suc n) b st e = ground (
  arith,
  e,
  client_recvs-take n b (client_recv st),
  append_assoc st.received (take b st.buf ∷ []) (copies n (take b st.buf)),
)

full_size : (k : ℕ) → chunk_size (suc k * buf_size) ≡ buf_size
full_size k = ground arith

-- A file of `k + 1` full chunks, at most the 16 that the channel holds, whose client receives after the
-- handler is done: the handler is never blocked, its hash has all the bytes that were read, and each of the
-- `k + 1` messages that the client receives is the last chunk.
pub direct_download_repeats :
    (random : ℕ → ℕ → ℕ) (k : ℕ)
    → k < 16
    → (st : Shared) × (direct_download random (λ r. 0) (suc k * buf_size)
        ≡ some (st, joined (chunks random (suc k * buf_size) 0 (suc k * buf_size))))
      × ((client_recvs (suc k) st).received ≡ copies (suc k) (block (random k) 0 buf_size))
unfolding direct_download
direct_download_repeats random k h =
    let start : Shared = record {
      buf = make_buf buf_size;
      waiting = make_chan 16;
      received = [];
    } in
    let run =
      direct_chunks-full random buf_size (ground arith) full_size k (suc k * buf_size) 0 [] start
        (ground arith) refl (ground (arith, h)) in
    let st : Shared = record start {
      buf = run.last;
      waiting = record start.waiting { buf = copies (suc k) buf_size };
    } in
    let k_rounds : 0 + k ≡ k = ground arith in
    let latest : take buf_size run.last ≡ block (random k) 0 buf_size =
      subst (λ x. take buf_size run.last ≡ block (random x) 0 buf_size) k_rounds run.latest in
    (
      st,
      run.ends,
      subst (λ c. (client_recvs (suc k) st).received ≡ copies (suc k) c) latest
          (client_recvs-take (suc k) buf_size st refl),
    )
