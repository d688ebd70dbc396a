-- ===== src/Files/Handlers/Uploading.antt =====
-- example/go/service/file_service.go: the upload from Dart against the one on a gRPC stream.
use synurang.Common.{
  ℕ, zero, suc, ◌+◌, ◌%◌, ◌^◌, ◌≡◌, refl, true, false, Bytes, Map, List, [], ◌∷◌, ◌++◌, Option,
  some, arith, map, length, bytes_eq, length-append, lookup, lookup-insert, beq_refl,
}
use mathlib.Core.List.{append_assoc, append-nil}
use synurang.Session.{Session, event, data_msg, end_msg, trailer_msg, send_from_stream, set_trailer}
use synurang.Session.Encoding.{encode_pairs}
use synurang.Files.{hash_key, Stream, upload_file, replied, content}
use synurang.Files.Chunks.{joined}
use synurang.Files.Transfer.{total-lem}
use synurang.Files.Handlers.{Look, returned, finish_upload, handle_upload_file}
use synurang.Files.Handlers.Same.{IsOpen, ending, over, end_after-open}

-- Chunks wait in the channel of a session whose input has ended.
pub record Uploads (unmarshal : Bytes → Option Bytes) (cs : List Bytes) (s : Session) : Type 0 where
  pub is_open : IsOpen s
  pub ended : s.data_chan.closed ≡ true
  pub waiting_chunks : map unmarshal s.data_chan.buf ≡ map some cs

-- Looks at the select with nothing in between.
pub quiet : ℕ → List Look
quiet zero = []
quiet (suc n) = record { before = λ s. s; done_first = false } ∷ quiet n

module _ (hex_sum : Bytes → Bytes) (marshal_size : ℕ → Bytes) (unmarshal : Bytes → Option Bytes)
    (unmarshal_error : Bytes) (order : Map Bytes Bytes → Map Bytes Bytes) where
  finish_upload-open :
      (hashed : Bytes) (total : ℕ) (s : Session)
      → IsOpen s
      → ((e : Bytes × Bytes) → order (e ∷ []) ≡ e ∷ [])
      → finish_upload hex_sum marshal_size unmarshal unmarshal_error order hashed total s
        ≡ some (
          over (hex_sum hashed) s,
          event s data_msg (marshal_size total) ∷ ending hex_sum hashed s,
        )
  unfolding finish_upload set_trailer send_from_stream event
  finish_upload-open hashed total s o one =
      let d = event s data_msg (marshal_size total) in
      ground (
        arith,
        o.open_,
        o.heard,
        end_after-open order (hex_sum hashed) (d ∷ []) s o (one (hash_key, hex_sum hashed)),
      )

  abbrev taken : List Bytes → Session → Session
  taken ds s = record s { data_chan = record s.data_chan { buf = ds } }

  taken-IsOpen : (ds : List Bytes) (s : Session) → IsOpen s → IsOpen (taken ds s)
  taken-IsOpen ds s o = record {
    open_ = o.open_;
    going = o.going;
    heard = o.heard;
    no_trailers = o.no_trailers;
    input = o.input;
  }

  uploads :
      (ds cs : List Bytes) (hashed : Bytes) (total : ℕ) (s : Session)
      → IsOpen s
      → s.data_chan.closed ≡ true
      → s.data_chan.buf ≡ ds
      → map unmarshal ds ≡ map some cs
      → ((e : Bytes × Bytes) → order (e ∷ []) ≡ e ∷ [])
      → handle_upload_file hex_sum marshal_size unmarshal unmarshal_error order
          (quiet (suc (length cs)))
          hashed
          (total % 2 ^ 64)
          s
        ≡ returned (
            some (
              over
                  (hex_sum (hashed ++ joined cs))
                  (record s { data_chan = record s.data_chan { buf = [] } }),
              event s data_msg (marshal_size ((total + length (joined cs)) % 2 ^ 64))
                  ∷ ending hex_sum (hashed ++ joined cs) s,
            ))
  unfolding handle_upload_file quiet joined event
  uploads [] [] hashed total s o closed buf same one =
      ground
        (arith, closed, buf, append-nil hashed, finish_upload-open hashed (total % 2 ^ 64) s o one)
  uploads (d ∷ ds) [] hashed total s o closed buf same one = absurd (ground (arith, same))
  uploads [] (c ∷ cs) hashed total s o closed buf same one = absurd (ground (arith, same))
  uploads (d ∷ ds) (c ∷ cs) hashed total s o closed buf same one =
      let first : unmarshal d ≡ some c = ground (arith, same) in
      let rest : map unmarshal ds ≡ map some cs = ground (arith, same) in
      ground (
        arith,
        closed,
        buf,
        first,
        uploads ds cs (hashed ++ c) (total + length c) (taken ds s) (taken-IsOpen ds s o) closed
            refl rest one,
        append_assoc hashed c (joined cs),
        length-append c (joined cs),
      )

-- On an open session whose input has ended with these chunks waiting, the handler of Dart's upload answers as
-- `UploadFile` does for these chunks on a gRPC stream: its status has the same size, and its trailer the same
-- hash. Nothing else touches the session, and the order of a map with one entry is that entry.
pub handle_upload_file-same :
    (E : Type 0) (closing : Option E) (hex_sum : Bytes → Bytes) (marshal_size : ℕ → Bytes)
    (unmarshal : Bytes → Option Bytes) (unmarshal_error : Bytes)
    (order : Map Bytes Bytes → Map Bytes Bytes) (cs : List Bytes) (s : Session) (t : Stream)
    → Uploads unmarshal cs s
    → ((e : Bytes × Bytes) → order (e ∷ []) ≡ e ∷ [])
    → (size : ℕ) × (hash : Bytes) × (u : Session) × ((upload_file {E = E} hex_sum closing
          (map content cs)
          []
          0
          t).1
        ≡ replied closing size)
      × (lookup hash_key (upload_file {E = E} hex_sum closing (map content cs) [] 0 t).0.trailer
          ≡ some hash)
      × (handle_upload_file hex_sum marshal_size unmarshal unmarshal_error order
            (quiet (suc (length cs)))
            []
            0
            s
          ≡ returned (
              some (
                u,
                event s data_msg (marshal_size size)
                    ∷ event s trailer_msg (encode_pairs ((hash_key, hash) ∷ []))
                    ∷ event s end_msg []
                    ∷ [],
              )))
handle_upload_file-same E closing hex_sum marshal_size unmarshal unmarshal_error order cs s t w
      one =
    let h = hex_sum (joined cs) in
    let grpc = total-lem {E = E} hex_sum closing cs [] 0 t in
    (
      length (joined cs) % 2 ^ 64,
      h,
      over h (record s { data_chan = record s.data_chan { buf = [] } }),
      ground (arith, grpc),
      ground (arith, grpc, lookup-insert hash_key hash_key h t.trailer, beq_refl hash_key),
      ground (
        arith,
        uploads hex_sum marshal_size unmarshal unmarshal_error order s.data_chan.buf cs [] 0 s
            w.is_open w.ended refl w.waiting_chunks one,
      ),
    )
