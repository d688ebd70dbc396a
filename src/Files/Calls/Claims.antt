-- ===== src/Files/Calls/Claims.antt =====
-- example/go/service/file_service.go: what a call into Dart says of the file that it sent.
use synurang.Common.{
  ℕ, zero, suc, ◌-◌, ◌≡◌, Bytes, List, [], ◌++◌, Option, none, some, arith, take, ℤ, Option-cases,
  inl, inr,
}
use mathlib.Core.List.{append_assoc, append-nil}
use synurang.Core.{Config}
use synurang.Core.Dart.{
  World, Dart, Failure, Outcome, returned, fails, running, crashed, Turn, deferred, close_then,
  open_session, await_response, send_end, method_with_id,
}
use synurang.Session.{client_stream}
use synurang.Files.{
  block, read_into, chunk_size, buf_size, Sending, send_chunks, make_buf, remaining_of,
}
use synurang.Files.Chunks.{chunks, joined, take-read_into}
use synurang.Files.Transfer.{file_chunks}
use synurang.Files.Calls.{
  Report, dart_send, uploaded, after_chunks, upload_to_dart, call_dart_upload_file,
}

-- A loop of sends that ends without an error has fed the hash with all the chunks.
send_chunks-hashed {ℓ κ} :
    {W : Type ℓ} {E : Type κ} (random : ℕ → ℕ → ℕ) (send : Bytes → W → W × Option E)
    (fuel round remaining : ℕ) (hashed buf : Bytes) (w : W)
    → (send_chunks random send fuel round remaining hashed buf w).failure ≡ none
    → (send_chunks random send fuel round remaining hashed buf w).hashed
      ≡ hashed ++ joined (chunks random fuel round remaining)
unfolding send_chunks joined chunks
send_chunks-hashed random send zero round remaining hashed buf w h =
    ground (arith, append-nil hashed)
send_chunks-hashed random send (suc fuel) round remaining hashed buf w h =
    let n = chunk_size remaining in
    let b = block (random round) 0 n in
    let buf' = read_into (random round) n buf in
    let w' = (send (take n buf') w).0 in
    ground (
      arith,
      append-nil hashed,
      take-read_into (random round) n buf,
      append_assoc hashed b (joined (chunks random fuel (suc round) (remaining - n))),
      send_chunks-hashed random send fuel (suc round) (remaining - n) (hashed ++ take n buf') buf'
          w',
    )

pub deferred-returned {ℓ} :
    {A : Type ℓ} (n : ℕ) (w : World) (o : Outcome A) (a : A)
    → (deferred n (w, o)).1 ≡ returned a
    → o ≡ returned a
unfolding deferred close_then
deferred-returned n w (returned b) a h = ground arith
deferred-returned n w (fails f) a h = absurd (ground arith)
deferred-returned n w running a h = absurd (ground arith)
deferred-returned n w crashed a h = absurd (ground arith)

module _ (hex_sum marshal : Bytes → Bytes) (timer : Config) where
  uploaded-hash :
      (r : Sending (World × ℕ) Failure) (w : World) (o : Outcome ℕ) (rep : Report)
      → (uploaded hex_sum marshal timer r (w, o)).1 ≡ returned rep
      → rep.hash ≡ hex_sum r.hashed
  uploaded-hash r w (returned size) rep h = ground arith
  uploaded-hash r w (fails f) rep h = absurd (ground arith)
  uploaded-hash r w running rep h = absurd (ground arith)
  uploaded-hash r w crashed rep h = absurd (ground arith)

  after_chunks-hash :
      (status : Bytes → Option ℕ) (dart : Dart) (turns : List Turn) (n : ℕ)
      (r : Sending (World × ℕ) Failure) (rep : Report)
      → (after_chunks hex_sum marshal timer status dart turns n r).1 ≡ returned rep
      → (r.failure ≡ none) × (rep.hash ≡ hex_sum r.hashed)
  unfolding after_chunks
  after_chunks-hash status dart turns n r rep h = elim (Option-cases r.failure) [
    | inl e ↦
        let w = send_end (λ m. none) status dart n r.world.0 in
        let x = await_response (λ m. none) status timer turns n w in
        (e, uploaded-hash r x.0 x.1 rep (ground (arith, e, h)))
    | inr (f, e) ↦ absurd (ground (arith, e, h))
  ]

  upload-hash :
      (status : Bytes → Option ℕ) (random : ℕ → ℕ → ℕ) (dart : Dart) (turns : List Turn)
      (method : Bytes) (size : ℤ) (n : ℕ) (w : World) (rep : Report)
      → (upload_to_dart hex_sum marshal timer status random dart turns method size n w).1
        ≡ returned rep
      → rep.hash ≡ hex_sum (joined (file_chunks random size))
  unfolding upload_to_dart
  upload-hash status random dart turns method size n w rep h =
      let v = (dart.callback (method_with_id method n) [] w).0 in
      let sz = remaining_of size in
      let r = send_chunks random (dart_send marshal dart n) sz 0 sz [] (make_buf buf_size) (v, 0) in
      elim (Option-cases (dart.callback (method_with_id method n) [] w).1) [
        | inl e ↦ absurd (ground (arith, e, h))
        | inr (reply, e) ↦
            let (ok_, same) = after_chunks-hash status dart turns n r rep (ground (arith, e, h)) in
            ground (
              arith,
              same,
              send_chunks-hashed random (dart_send marshal dart n) sz 0 sz [] (make_buf buf_size)
                  (v, 0) ok_,
            )
      ]

  -- Whatever Dart and others do, a call of `CallDartUploadFile` that returns reports the hash of the bytes
  -- that it read from the random source for this size: what Dart received has no part in it.
  pub call_dart_upload_file-hash :
      (status : Bytes → Option ℕ) (random : ℕ → ℕ → ℕ) (dart : Option Dart) (turns : List Turn)
      (method : Bytes) (size : ℤ) (w : World) (rep : Report)
      → (call_dart_upload_file hex_sum marshal timer status random dart turns method size w).1
        ≡ returned rep
      → rep.hash ≡ hex_sum (joined (file_chunks random size))
  unfolding call_dart_upload_file
  call_dart_upload_file-hash status random none turns method size w rep h = absurd (ground arith)
  call_dart_upload_file-hash status random (some dart) turns method size w rep h =
      let (v, n) = open_session method client_stream w in
      let x = upload_to_dart hex_sum marshal timer status random dart turns method size n v in
      upload-hash status random dart turns method size n v rep (deferred-returned n x.0 x.1 rep h)
