-- ===== src/Files/Echo/Verified.antt =====
-- example/go/service/file_service.go: what a verified echo says.
use synurang.Common.{
  ℕ, zero, suc, ◌+◌, ◌-◌, ◌%◌, ◌^◌, length, ◌≤◌, ◌<◌, ◌≡◌, ◌≢◌, ◌⊎◌, refl, sym, subst, Bool, true,
  false, Bool-cases, Bytes, List, [], ◌∷◌, ◌++◌, Option, none, some, arith, ltb, bytes_beq_iff,
  take, ℤ, Option-cases, inl, inr,
}
use mathlib.Core.List.{append_assoc, append-nil}
use synurang.Core.Dart.{World, Dart, Failure, returned, Pick, open_session, method_with_id}
use synurang.Session.{bidi_stream}
use synurang.Files.{block, read_into, chunk_size}
use synurang.Files.Chunks.{chunks, joined, take-read_into}
use synurang.Files.Transfer.{file_chunks}
use synurang.Files.Calls.{Report, dart_send}
use synurang.Files.Calls.Claims.{deferred-returned}
use synurang.Files.Echo.{
  Sender, Turn, sender_turn, look_turn, sender_step, Seen, chunk_seen, end_seen, nothing_seen,
  timeout_seen, failed_seen, select_echo, verified, await_hash, echo_loop, echo_with_dart,
  call_dart_bidi_file, new_sender,
}

-- More fuel than the bytes that remain makes no difference.
chunks-fuel :
    (random : ℕ → ℕ → ℕ) (f g round remaining : ℕ)
    → remaining ≤ f
    → remaining ≤ g
    → chunks random f round remaining ≡ chunks random g round remaining
unfolding chunks
chunks-fuel random zero zero round remaining a b = refl
chunks-fuel random zero (suc g) round remaining a b = ground arith
chunks-fuel random (suc f) zero round remaining a b = ground arith
chunks-fuel random (suc f) (suc g) round remaining a b =
    ground (arith, chunks-fuel random f g (suc round) (remaining - chunk_size remaining))

-- What the sender has hashed and what it has still to send are the file.
record IsOnFile (random : ℕ → ℕ → ℕ) (size : ℤ) (s : Sender) : Type 0 where
  file :
      s.hashed ++ joined (chunks random s.remaining s.round s.remaining)
      ≡ joined (file_chunks random size)
  all_sent : s.sent ≡ true → s.remaining ≡ 0

chunks-next :
    (random : ℕ → ℕ → ℕ) (round remaining : ℕ)
    → 0 < remaining
    → chunks random remaining round remaining
      ≡ block (random round) 0 (chunk_size remaining)
        ∷ chunks random
            (remaining - chunk_size remaining)
            (suc round)
            (remaining - chunk_size remaining)
unfolding chunks
chunks-next random round zero h = absurd (ground arith)
chunks-next random round (suc r) h =
    let n = chunk_size (suc r) in
    ground (arith, chunks-fuel random r (suc r - n) (suc round) (suc r - n))

joined-cons : (c : Bytes) (cs : List Bytes) → joined (c ∷ cs) ≡ c ++ joined cs
unfolding joined
joined-cons c cs = refl

joined-none : (random : ℕ → ℕ → ℕ) (round : ℕ) → joined (chunks random 0 round 0) ≡ []
unfolding joined chunks
joined-none random round = refl

-- A look after which the call returns an error.
abbrev IsOver : Seen → Type 0
IsOver x = (x ≡ timeout_seen) ⊎ ((f : Failure) × (x ≡ failed_seen f))

Seen-cases :
    (x : Seen)
    → ((d : Bytes) × (v : World) × (x ≡ chunk_seen d v))
      ⊎ ((x ≡ end_seen) ⊎ ((x ≡ nothing_seen) ⊎ IsOver x))
Seen-cases (chunk_seen d v) = inl (d, v, refl)
Seen-cases end_seen = inr (inl refl)
Seen-cases nothing_seen = inr (inr (inl refl))
Seen-cases timeout_seen = inr (inr (inr (inl refl)))
Seen-cases (failed_seen f) = inr (inr (inr (inr (f, refl))))

module _ (hex_sum marshal : Bytes → Bytes) (random : ℕ → ℕ → ℕ) (size : ℤ) where
  abbrev after_round : Sender → Option Failure → Sender
  after_round s f =
      let n = chunk_size s.remaining in
      let buf' = read_into (random s.round) n s.buf in
      record {
        round = suc s.round;
        remaining = s.remaining - n;
        hashed = s.hashed ++ take n buf';
        buf = buf';
        sent = false;
        failure = f;
      }

  after_round-IsOnFile :
      (s : Sender) (f : Option Failure)
      → 0 < s.remaining
      → IsOnFile random size s
      → IsOnFile random size (after_round s f)
  after_round-IsOnFile s f more h =
      let n = chunk_size s.remaining in
      let b = block (random s.round) 0 n in
      let rest = chunks random (s.remaining - n) (suc s.round) (s.remaining - n) in
      record {
        file = ground (
          arith,
          h.file,
          take-read_into (random s.round) n s.buf,
          chunks-next random s.round s.remaining more,
          joined-cons b rest,
          append_assoc s.hashed b (joined rest),
        );
        all_sent = λ e. absurd (ground arith);
      }

  step-IsOnFile :
      (dart : Dart) (n : ℕ) (s : Sender) (w : World)
      → IsOnFile random size s
      → IsOnFile random size (sender_step hex_sum marshal random dart n s w).0
  unfolding sender_step
  step-IsOnFile dart n s w h =
      let c =
        take (chunk_size s.remaining) (read_into (random s.round) (chunk_size s.remaining) s.buf) in
      let f = (dart_send marshal dart n c (w, 0)).1 in
      let s' = (sender_step hex_sum marshal random dart n s w).0 in
      elim (Option-cases s.failure) [
        | inr (e, ef) ↦
            let same : s' ≡ s = ground (arith, ef) in subst (IsOnFile random size) (sym same) h
        | inl ef ↦ elim (Bool-cases s.sent) [
          | inl es ↦
              let same : s' ≡ s = ground (arith, ef, es) in
              subst (IsOnFile random size) (sym same) h
          | inr es ↦ elim (Bool-cases (ltb 0 s.remaining)) [
            | inl er ↦
                let same : s' ≡ after_round s f = ground (arith, ef, es, er) in
                subst (IsOnFile random size) (sym same)
                  (after_round-IsOnFile s f (ground (arith, er)) h)
            | inr er ↦
                let same : s' ≡ record s { sent = true } = ground (arith, ef, es, er) in
                subst (IsOnFile random size) (sym same)
                  (record { file = h.file; all_sent = λ e. ground (arith, er) })
          ]
        ]
      ]

  -- A sender whose hash has been sent has hashed the whole file.
  sent-file :
      (s : Sender)
      → IsOnFile random size s
      → s.sent ≡ true
      → s.hashed ≡ joined (file_chunks random size)
  sent-file s h e =
      let z : s.remaining ≡ 0 = h.all_sent e in
      let f : s.hashed ++ joined (chunks random 0 s.round 0) ≡ joined (file_chunks random size) =
        subst
          (λ r. s.hashed ++ joined (chunks random r s.round r) ≡ joined (file_chunks random size)) z
          h.file in
      ground (arith, f, joined-none random s.round, append-nil s.hashed)

  await_hash-verified :
      (dart : Dart) (ts : List Turn) (n : ℕ) (s : Sender) (received : Bytes) (total count : ℕ)
      (w : World) (r : Report)
      → IsOnFile random size s
      → (await_hash hex_sum marshal random dart ts n s received total count w).1
        ≡ returned (verified r)
      → (r.hash ≡ hex_sum (joined (file_chunks random size)))
  unfolding await_hash
  await_hash-verified dart [] n s received total count w r f h = absurd (ground arith)
  await_hash-verified dart (sender_turn between ∷ ts) n s received total count w r f h =
      let x = sender_step hex_sum marshal random dart n s (between w) in
      await_hash-verified dart ts n x.0 received total count x.1 r
        (step-IsOnFile dart n s (between w) f) h
  await_hash-verified dart (look_turn between pick fired ∷ ts) n s received total count w r f h =
      ground (
        arith,
        h,
        sent-file s f,
        bytes_beq_iff (hex_sum received) (hex_sum s.hashed),
        await_hash-verified dart ts n s received total count (between w) r f,
      )

  not_verified :
      (unmarshal : Bytes → Option Bytes) (dart : Dart) (ts : List Turn) (n : ℕ) (s : Sender)
      (received : Bytes) (total count : ℕ) (w : World) (r : Report) (between : World → World)
      (pick : Pick) (fired : Bool)
      → IsOver (select_echo hex_sum marshal random n pick fired s (between w))
      → (echo_loop hex_sum marshal random unmarshal dart
          (look_turn between pick fired ∷ ts)
          n
          s
          received
          total
          count
          w).1
        ≢ returned (verified r)
  unfolding echo_loop
  not_verified unmarshal dart ts n s received total count w r between pick fired (inl e) h =
      ground (arith, e, h)
  not_verified unmarshal dart ts n s received total count w r between pick fired (inr (g, e)) h =
      ground (arith, e, h)

  echo_loop-verified :
      (unmarshal : Bytes → Option Bytes) (dart : Dart) (ts : List Turn) (n : ℕ) (s : Sender)
      (received : Bytes) (total count : ℕ) (w : World) (r : Report)
      → IsOnFile random size s
      → (echo_loop hex_sum marshal random unmarshal dart ts n s received total count w).1
        ≡ returned (verified r)
      → r.hash ≡ hex_sum (joined (file_chunks random size))
  unfolding echo_loop
  echo_loop-verified unmarshal dart [] n s received total count w r f h = absurd (ground arith)
  echo_loop-verified unmarshal dart (sender_turn between ∷ ts) n s received total count w r f h =
      let x = sender_step hex_sum marshal random dart n s (between w) in
      echo_loop-verified unmarshal dart ts n x.0 received total count x.1 r
        (step-IsOnFile dart n s (between w) f) h
  echo_loop-verified unmarshal dart (look_turn between pick fired ∷ ts) n s received total count w r
        f h =
      elim (Seen-cases (select_echo hex_sum marshal random n pick fired s (between w))) [
        | inl (d, v, e) ↦ elim (Option-cases (unmarshal d)) [
          | inl u ↦ absurd (ground (arith, e, u, h))
          | inr (c, u) ↦
              echo_loop-verified unmarshal dart ts n s (received ++ c) ((total + length c) % 2 ^ 64)
                (suc count) v r f (ground (arith, e, u, h))
        ]
        | inr (inl e) ↦
            await_hash-verified dart ts n s received total count (between w) r f
              (ground (arith, e, h))
        | inr (inr (inl e)) ↦
            echo_loop-verified unmarshal dart ts n s received total count (between w) r f
              (ground (arith, e, h))
        | inr (inr (inr o)) ↦
            absurd
              (not_verified unmarshal dart ts n s received total count w r between pick fired o h)
      ]

  echo_with_dart-verified :
      (unmarshal : Bytes → Option Bytes) (dart : Dart) (ts : List Turn) (method : Bytes) (n : ℕ)
      (w : World) (r : Report)
      → (echo_with_dart hex_sum marshal random unmarshal dart ts method size n w).1
        ≡ returned (verified r)
      → r.hash ≡ hex_sum (joined (file_chunks random size))
  unfolding echo_with_dart
  echo_with_dart-verified unmarshal dart ts method n w r h =
      let answer = dart.callback (method_with_id method n) [] w in
      let start : IsOnFile random size (new_sender hex_sum marshal random size) = record {
        file = refl;
        all_sent = λ e. absurd (ground arith);
      } in
      elim (Option-cases answer.1) [
        | inl e ↦ absurd (ground (arith, e, h))
        | inr (reply, e) ↦
            echo_loop-verified unmarshal dart ts n (new_sender hex_sum marshal random size) [] 0 0
              answer.0 r start (ground (arith, e, h))
      ]

  -- An echo that `CallDartBidiFile` reports as verified has the hash of the whole file that was sent: of all
  -- the bytes that the sender read for this size, whatever Dart and others do and however the sender and
  -- the call take turns.
  pub call_dart_bidi_file-verified :
      (unmarshal : Bytes → Option Bytes) (dart : Option Dart) (ts : List Turn) (method : Bytes)
      (w : World) (r : Report)
      → (call_dart_bidi_file hex_sum marshal random unmarshal dart ts method size w).1
        ≡ returned (verified r)
      → r.hash ≡ hex_sum (joined (file_chunks random size))
  unfolding call_dart_bidi_file
  call_dart_bidi_file-verified unmarshal none ts method w r h = absurd (ground arith)
  call_dart_bidi_file-verified unmarshal (some dart) ts method w r h =
      let (v, n) = open_session method bidi_stream w in
      let x = echo_with_dart hex_sum marshal random unmarshal dart ts method size n v in
      echo_with_dart-verified unmarshal dart ts method n v r
        (deferred-returned n x.0 x.1 (verified r) h)
