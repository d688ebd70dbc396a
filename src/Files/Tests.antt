-- ===== src/Files/Tests.antt =====
-- A file of two chunks, on every transport.
use synurang.Common.{
  ℕ, ◌+◌, ◌/◌, ◌≡◌, refl, true, false, Bytes, List, [], ◌∷◌, ◌++◌, Option, none, some, str, length,
  map, All, ℤ, pos, lookup, bytes_eq, arith, ◌*◌,
}
use synurang.Session.{
  Session, new_session, server_stream, client_stream, event, data_msg, trailer_msg, end_msg,
}
use synurang.Session.Encoding.{encode_pairs}
use synurang.Files.{
  block, buf_size, Stream, content, status, done, hash_key, upload_file, download_file, bidi_file,
  remaining_of,
}
use synurang.Files.Chunks.{chunks, joined, FitsBuffer}
use synurang.Files.Transfer.{file_chunks, download_file_lem, upload-bidi-download}
use synurang.Files.Sharing.{Shared, direct_download, client_recvs, copies, direct_download_repeats}
use synurang.Files.Handlers.{handle_download_file, handle_upload_file, returned}
use synurang.Files.Handlers.Same.{IsOpen, over, ending, data_event, handle_download_file-same}
use synurang.Files.Handlers.Uploading.{Uploads, quiet, handle_upload_file-same}

abbrev random : ℕ → ℕ → ℕ
random round i = round + i

-- A checksum in place of the hash.
abbrev checksum : Bytes → Bytes
checksum bytes = length bytes ∷ []

abbrev fresh : Stream
fresh = record { sent = []; trailer = [] }

abbrev size : ℤ
size = pos 100000

abbrev sent : List Bytes
sent = (download_file {E = ℕ} checksum random (λ n. none) size fresh).0.sent

abbrev echoed : List Bytes
echoed = (bidi_file {E = ℕ} (λ n. none) (map content sent) fresh).0.sent

uploads_three :
    (upload_file {E = ℕ} checksum none (content (1 ∷ 2 ∷ []) ∷ content (3 ∷ []) ∷ []) [] 0 fresh).1
    ≡ status 3
unfolding upload_file
uploads_three = refl

download_file_lem_example :
    ((download_file {E = ℕ} checksum random (λ n. none) size fresh).1 ≡ done)
    × (sent ≡ file_chunks random size)
    × (length (joined sent) ≡ remaining_of size)
    × All FitsBuffer sent
    × (length sent ≡ (remaining_of size + 65535) / 65536)
    × (lookup hash_key (download_file {E = ℕ} checksum random (λ n. none) size fresh).0.trailer
        ≡ some (checksum (joined sent)))
download_file_lem_example = download_file_lem checksum random size fresh refl

upload-bidi-download_example :
    (echoed ≡ sent)
    × ((upload_file {E = ℕ} checksum none (map content echoed) [] 0 fresh).1 ≡ status 100000)
    × (lookup hash_key (upload_file {E = ℕ} checksum none (map content echoed) [] 0 fresh).0.trailer
        ≡ lookup hash_key (download_file {E = ℕ} checksum random (λ n. none) size fresh).0.trailer)
upload-bidi-download_example =
    upload-bidi-download checksum random size fresh fresh fresh refl refl (omega arith)

direct_download_repeats_example :
    (st : Shared) × (direct_download random (λ r. 0) (2 * buf_size)
      ≡ some (st, joined (chunks random (2 * buf_size) 0 (2 * buf_size))))
    × ((client_recvs 2 st).received ≡ copies 2 (block (random 1) 0 buf_size))
direct_download_repeats_example = direct_download_repeats random 1 (omega arith)

abbrev marshal : Bytes → Bytes
marshal c = 10 ∷ c

abbrev unmarshal : Bytes → Option Bytes
unmarshal [] = none
unmarshal (tag ∷ c) = some c

abbrev unmarshal_size : Bytes → Option ℤ
unmarshal_size d = some size

abbrev downloading : Session
downloading = record (new_session 1 (str "/a/Download") server_stream true false) { ready = true }

abbrev uploading : Session
uploading = record (new_session 2 (str "/a/Upload") client_stream true false) {
  input_closed = true;
  data_chan = record {
    buf = marshal (1 ∷ 2 ∷ []) ∷ marshal (3 ∷ []) ∷ [];
    cap = 100;
    closed = true;
  };
}

downloading-IsOpen : IsOpen downloading
unfolding new_session
downloading-IsOpen = record {
  open_ = refl;
  going = refl;
  heard = refl;
  no_trailers = refl;
  input = refl;
}

uploading-Uploads : Uploads unmarshal ((1 ∷ 2 ∷ []) ∷ (3 ∷ []) ∷ []) uploading
unfolding new_session
uploading-Uploads = record {
  is_open = record { open_ = refl; going = refl; heard = refl; no_trailers = refl; input = refl };
  ended = refl;
  waiting_chunks = refl;
}

handle_download_file-same_example :
    handle_download_file checksum marshal unmarshal_size [] random
      (λ m. m)
      (λ n s. s)
      true
      []
      downloading
    ≡ some (
      over (checksum (joined sent)) downloading,
      map (data_event marshal downloading) sent ++ ending checksum (joined sent) downloading,
    )
handle_download_file-same_example =
    handle_download_file-same ℕ checksum marshal unmarshal_size [] random (λ m. m) [] size
      downloading fresh downloading-IsOpen (λ e. refl) refl refl

handle_upload_file-same_example :
    (size : ℕ) × (hash : Bytes) × (u : Session) × ((upload_file {E = ℕ} checksum none
        (map content ((1 ∷ 2 ∷ []) ∷ (3 ∷ []) ∷ []))
        []
        0
        fresh).1
      ≡ status size)
    × (lookup hash_key
          (upload_file {E = ℕ} checksum none
            (map content ((1 ∷ 2 ∷ []) ∷ (3 ∷ []) ∷ []))
            []
            0
            fresh).0.trailer
        ≡ some hash)
    × (handle_upload_file checksum (λ n. n ∷ []) unmarshal [] (λ m. m) (quiet 3) [] 0 uploading
        ≡ returned (
            some (
              u,
              event uploading data_msg (size ∷ [])
                  ∷ event uploading trailer_msg (encode_pairs ((hash_key, hash) ∷ []))
                  ∷ event uploading end_msg []
                  ∷ [],
            )))
handle_upload_file-same_example =
    handle_upload_file-same ℕ none checksum (λ n. n ∷ []) unmarshal [] (λ m. m)
      ((1 ∷ 2 ∷ []) ∷ (3 ∷ []) ∷ []) uploading fresh uploading-Uploads (λ e. refl)
