-- ===== src/Backend/Exports.antt =====
-- cmd/server/main.go: the exports for streams and for the cache. Memory of the caller is a list of bytes
-- with a length; `none` is a panic.
use synurang.Common.{
  ℕ, ◌%◌, ◌^◌, ◌≡◌, refl, Bool, true, false, Bytes, [], ◌∷◌, Option, none, some, take, ltb,
  if◌then◌else◌, ℤ, pos, negsuc, arith, ap, ◌∙◌,
}
use synurang.Session.Store.{
  Store, Service, Sending, delivered, refused, waits, panics, send_to_stream, handle_server_stream,
}
use synurang.Cache.Table.{get}
use synurang.Cache.Engine.{Sqlite}
use synurang.Cache.Service.{
  Cache, Reply, ok, failed, reads, get_value, put_value, contains_key, delete_value,
}
use synurang.Cache.Service.Access.{kept_at, IsInRange, get_value-put_value}
use synurang.Backend.Invoke.{FfiData, answer, slice}

-- `C.GoBytes(data, C.int(n))`, with the 64-bit pattern of the length.
unfoldable pub go_bytes : Bytes → ℕ → Option Bytes
go_bytes memory n = if ltb (n % 2 ^ 32) (2 ^ 31) then some (take (n % 2 ^ 32) memory) else none

module _ {ℓ} {H : Type ℓ} where
  -- A length that is not positive is no data.
  unfoldable pub invoke_backend_server_stream :
      Bytes → Bytes → ℤ → Service H → Option (Service H × Option ℕ)
  unfolding go_bytes handle_server_stream
  invoke_backend_server_stream method memory (pos n) x = elim (go_bytes memory n) [
    | none ↦ none
    | some d ↦ some (handle_server_stream method d x)
  ]
  invoke_backend_server_stream method memory (negsuc n) x = some (handle_server_stream method [] x)

-- The code 0 or -1 of `SendStreamData`.
pub data SendCode : Type 0 where
  sent : Store → SendCode
  minus_one waiting crashed : SendCode

abbrev code : Sending → SendCode
code (delivered w) = sent w
code (refused e) = minus_one
code waits = waiting
code panics = crashed

unfoldable pub send_stream_data : Bool → ℕ → Bytes → ℕ → Store → SendCode
unfolding go_bytes send_to_stream
send_stream_data data_first id memory n w = elim (go_bytes memory n) [
  | none ↦ crashed
  | some d ↦ code (send_to_stream data_first id d w)
]

-- The cache exports act on the service's cache, where there is one.
module _ (E : Sqlite) where
  abbrev nothing : FfiData
  nothing = record { content = []; len = pos 0 }

  abbrev value_answer : Reply (Option Bytes) → FfiData
  value_answer (ok (some (b ∷ bs))) = answer (b ∷ bs)
  value_answer (ok (some [])) = nothing
  value_answer (ok none) = nothing
  value_answer failed = nothing

  unfoldable pub cache_get : ℕ → ℕ → Bytes → Bytes → Option (Cache E) → Option (Cache E) × FfiData
  unfolding get_value answer
  cache_get now nanos store k none = (none, nothing)
  cache_get now nanos store k (some c) =
      let (c', r) = get_value E now nanos store k c in (some c', value_answer r)

  -- `true` is 0 and `false` is -1.
  abbrev succeeded : Reply (Unit {0}) → Bool
  succeeded (ok u) = true
  succeeded failed = false

  -- The cost is left out of the request, and so 0.
  abbrev put_bytes :
      ℕ → ℕ → Bytes → Bytes → Option Bytes → ℤ → Cache E → Option (Option (Cache E) × Bool)
  put_bytes now nanos store k none ttl c = none
  put_bytes now nanos store k (some v) ttl c =
      let (c', r) = put_value E now nanos store k v ttl (pos 0) c in some (some c', succeeded r)

  unfoldable pub cache_put :
      ℕ → ℕ → Bytes → Bytes → Bytes → ℤ → ℤ → Option (Cache E) → Option (Option (Cache E) × Bool)
  unfolding put_value slice
  cache_put now nanos store k memory len ttl none = some (none, false)
  cache_put now nanos store k memory len ttl (some c) =
      put_bytes now nanos store k (slice memory len) ttl c

  -- `none` is -1.
  abbrev truth : Reply Bool → Option Bool
  truth (ok b) = some b
  truth failed = none

  unfoldable pub cache_contains : ℕ → Bytes → Bytes → Option (Cache E) → Option Bool
  unfolding contains_key
  cache_contains now store k none = none
  cache_contains now store k (some c) = truth (contains_key E now store k c)

  unfoldable pub cache_delete : Bytes → Bytes → Option (Cache E) → Option (Cache E) × Bool
  unfolding delete_value
  cache_delete store k none = (none, false)
  cache_delete store k (some c) = let (c', r) = delete_value E store k c in (some c', succeeded r)

  value_shown :
      (b : Bool) (v : Bytes)
      → value_answer (ok (if b then some v else none)) ≡ (if b then answer v else nothing)
  unfolding answer
  value_shown true [] = refl
  value_shown true (x ∷ v) = refl
  value_shown false v = refl

  done_lem : (r : Reply (Unit {0})) → succeeded r ≡ true → r ≡ ok tt
  done_lem (ok u) h = refl
  done_lem failed h = absurd (ground arith)

  put_value-put :
      (now nanos : ℕ) (store k v : Bytes) (ttl : ℤ) (c c' : Cache E)
      → put_bytes now nanos store k (some v) ttl c ≡ some (some c', true)
      → put_value E now nanos store k v ttl (pos 0) c ≡ (c', ok tt)
  put_value-put now nanos store k v ttl c c' h =
      ground (arith, done_lem (put_value E now nanos store k v ttl (pos 0) c).1)

  -- What Dart puts with `CachePut`, and that answers 0 on an open cache, is what `CacheGet` hands back, byte by
  -- byte, as long as the value lives, and nothing later. An empty value comes back as nothing
  -- at all times.
  pub cache_get-cache_put :
      (now nanos later nanos' : ℕ) (store k memory : Bytes) (n : ℕ) (ttl : ℤ) (c c' : Cache E)
      → c.closed ≡ false
      → cache_put now nanos store k memory (pos n) ttl (some c) ≡ some (some c', true)
      → IsInRange now ttl
      → reads E (get store k) c' ≡ true
      → (cache_get later nanos' store k (some c')).1
        ≡ (if kept_at now ttl later then answer (take n memory) else nothing)
  unfolding cache_put cache_get
  cache_get-cache_put now nanos later nanos' store k memory n ttl c c' o h range answers =
      let put = put_value-put now nanos store k (take n memory) ttl c c' h in
      let got =
        get_value-put_value E now nanos store k (take n memory) ttl (pos 0) c c' o put later nanos'
          range answers in
      ap value_answer got ∙ value_shown (kept_at now ttl later) (take n memory)
