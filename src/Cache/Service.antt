-- ===== src/Cache/Service.antt =====
-- pkg/service/cache.go: `CacheServiceServer`. An operation takes the service to its new state and
-- answer; clock readings are arguments, `now` in seconds and `nanos` in nanoseconds.
pub mod Execute
pub mod Access
pub mod Evicting
pub mod Shrinking
pub mod Closing
use synurang.Common.{
  ℕ, zero, suc, ◌+◌, ◌-◌, ◌*◌, Bool, true, false, Bytes, Map, List, [], ◌∷◌, ◌++◌, Option, none,
  some, map, Chan, accepted, full, panics, chan_send, make_chan, insert, remove, lookup, bytes_eq,
  str, if◌then◌else◌, length, ltb, leb, not, ◌&&◌, take, select, ℤ, pos, negsuc, above, below,
  add64,
}
use synurang.Cache.Table.{
  Row, Stmt, put, del, clear, cleanup, update_access, evict_count, delete_rows, incremental_vacuum,
  set_auto_vacuum, vacuum, Query, get, contains, count, sum_size, oldest_rows, stats, keys, is_live,
  at_key, find_row, total, rows_of, row_size, ids_of,
}
use synurang.Cache.Engine.{Sqlite}

-- `accessUpdate`.
pub record Update : Type 0 where
  pub store_name : Bytes
  pub key : Bytes
  pub accessed_at : ℕ

pub data Reply {ℓ} (A : Type ℓ) : Type ℓ where
  ok : A → Reply A
  failed : Reply A

abbrev pub minute : ℕ
minute = 60_000_000_000

unfoldable pub expiry : ℕ → ℤ → ℤ
expiry now (pos zero) = pos 0
expiry now (pos (suc ttl)) = add64 now (suc ttl)
expiry now (negsuc ttl) = pos 0

unfoldable pub cost_of : ℤ → Bytes → ℕ
cost_of (pos zero) v = length v
cost_of (pos (suc n)) v = suc n
cost_of (negsuc n) v = length v

-- SELECT EXISTS(…) of the live rows at the key.
abbrev pub exists : (Row → Bool) → List Row → Bool
exists p [] = false
exists p (r ∷ rs) = if p r then true else exists p rs

module _ (E : Sqlite) where
  open E use {Db, rows, exec, answers, order}

  -- `timer` says whether a delayed pause is pending.
  pub record Cache : Type 0 where
    pub db : Db
    pub db_closed : Bool
    pub max_entries : Map Bytes ℤ
    pub max_bytes : Map Bytes ℤ
    pub access_chan : Chan Update
    pub cancelled : Bool
    pub closed : Bool
    pub paused : Bool
    pub timer : Bool

  unfoldable pub new_cache : Db → Cache
  new_cache db = record {
    db = db;
    db_closed = false;
    max_entries = [];
    max_bytes = [];
    access_chan = make_chan 4096;
    cancelled = false;
    closed = false;
    paused = false;
    timer = false;
  }

  -- A closed database answers every statement with an error.
  unfoldable pub execute : Stmt → Cache → Option Cache
  execute st c =
      if c.db_closed
      then none
      else elim (exec st c.db) [ none ↦ none | some db ↦ some (record c { db = db }) ]

  abbrev pub reads : Query → Cache → Bool
  reads q c = not c.db_closed && answers q c.db

  -- `_, _ = stmt.Exec(…)`.
  unfoldable pub attempt : Stmt → Cache → Cache
  unfolding execute
  attempt st c = elim (execute st c) [ none ↦ c | some c' ↦ c' ]

  abbrev pub report : Cache → Option Cache → Cache × Reply (Unit {0})
  report c none = (c, failed)
  report c (some c') = (c', ok tt)

  -- A full channel drops the update.
  unfoldable pub offer : Update → Cache → Cache
  offer u c = elim (chan_send c.access_chan u) [
    | accepted ch ↦ record c { access_chan = ch }
    | full ↦ c
    | panics ↦ c
  ]

  -- The answer is the value, or `none` for the empty response.
  unfoldable pub get_row : ℕ → ℕ → Bytes → Bytes → Cache → Option Row → Cache × Reply (Option Bytes)
  unfolding offer
  get_row now nanos store k c none = (c, ok none)
  get_row now nanos store k c (some r) =
      if above r.expires_at 0 && below r.expires_at now
      then (c, ok none)
      else if ltb (r.accessed_at + minute) nanos
      then (
        offer (record { store_name = store; key = k; accessed_at = nanos }) c,
        ok (some r.value),
      )
      else (c, ok (some r.value))

  unfoldable pub get_value : ℕ → ℕ → Bytes → Bytes → Cache → Cache × Reply (Option Bytes)
  unfolding get_row
  get_value now nanos store k c =
      if c.closed
      then (c, ok none)
      else if reads (get store k) c
      then get_row now nanos store k c (find_row store k (rows c.db))
      else (c, failed)

  unfoldable pub put_value :
      ℕ → ℕ → Bytes → Bytes → Bytes → ℤ → ℤ → Cache → Cache × Reply (Unit {0})
  unfolding execute expiry cost_of
  put_value now nanos store k v ttl cost c =
      if c.closed
      then (c, ok tt)
      else report c (execute (put store k v (expiry now ttl) nanos (cost_of cost v)) c)

  unfoldable pub delete_value : Bytes → Bytes → Cache → Cache × Reply (Unit {0})
  unfolding execute
  delete_value store k c = if c.closed then (c, ok tt) else report c (execute (del store k) c)

  unfoldable pub clear_store : Bytes → Cache → Cache × Reply (Unit {0})
  unfolding execute
  clear_store store c = if c.closed then (c, ok tt) else report c (execute (clear store) c)

  unfoldable pub contains_key : ℕ → Bytes → Bytes → Cache → Reply Bool
  contains_key now store k c =
      if c.closed
      then ok false
      else if reads (contains store k) c
      then ok (exists (λ r. at_key store k r && is_live now r) (rows c.db))
      else failed

  unfoldable pub live_keys : ℕ → Bytes → Cache → Reply (List Bytes)
  live_keys now store c =
      if c.closed
      then ok []
      else if reads (keys store) c
      then ok (map (λ r. r.key) (select (is_live now) (rows_of store (rows c.db))))
      else failed

  unfoldable pub set_max_entries : Bytes → ℤ → Cache → Cache
  set_max_entries store n c = record c { max_entries = insert store n c.max_entries }

  unfoldable pub set_max_bytes : Bytes → ℤ → Cache → Cache
  set_max_bytes store n c = record c { max_bytes = insert store n c.max_bytes }

  unfoldable pub get_stats : Bytes → Cache → Reply (ℕ × ℕ)
  get_stats store c =
      if c.closed
      then ok (0, 0)
      else if reads (stats store) c
      then ok (length (rows_of store (rows c.db)), total row_size (rows_of store (rows c.db)))
      else failed

  unfoldable pub compact : Cache → Cache × Reply (Unit {0})
  unfolding execute
  compact c = elim (execute set_auto_vacuum c) [
    | none ↦ (c, failed)
    | some c' ↦ report c' (execute vacuum c')
  ]

  unfoldable pub cleanup_expired : ℕ → Cache → Cache
  unfolding attempt
  cleanup_expired now c = attempt (cleanup now) c

  -- One store of the first pass of `evictOverCapacity`.
  unfoldable pub evict_entries : Bytes → ℤ → Cache → Cache
  unfolding attempt
  evict_entries store (negsuc n) c = c
  evict_entries store (pos zero) c = c
  evict_entries store (pos (suc n)) c =
      let have = length (rows_of store (rows c.db)) in
      if reads (count store) c && ltb (suc n) have
      then attempt (evict_count store (have - suc n)) c
      else c

  -- The loop of the second pass. `size` is the variable `totalSize`. The fuel bounds the rounds, each
  -- of which deletes a row; `none` is fuel that has run out.
  unfoldable pub shrink : ℕ → Bytes → ℕ → ℕ → Cache → Option Cache
  unfolding execute
  shrink zero store limit size c = none
  shrink (suc fuel) store limit size c =
      let oldest = take 50 (order store (rows c.db)) in
      let rest : Option Cache = elim (execute (delete_rows (ids_of oldest)) c) [
        | none ↦ some c
        | some c' ↦ shrink fuel store limit (size - total row_size oldest) c'
      ] in
      if leb size limit
      then some c
      else if reads (oldest_rows store) c
      then (if ltb 0 (length oldest) then rest else some c)
      else some c

  -- One store of the second pass.
  unfoldable pub evict_bytes : Bytes → ℤ → Cache → Option Cache
  unfolding shrink
  evict_bytes store (negsuc n) c = some c
  evict_bytes store (pos zero) c = some c
  evict_bytes store (pos (suc n)) c =
      let size = total row_size (rows_of store (rows c.db)) in
      if reads (sum_size store) c && ltb (suc n) size
      then shrink (suc (length (rows_of store (rows c.db)))) store (suc n) size c
      else some c

  unfoldable pub entries_pass : Map Bytes ℤ → Cache → Cache
  unfolding evict_entries
  entries_pass [] c = c
  entries_pass ((store, n) ∷ m) c = entries_pass m (evict_entries store n c)

  unfoldable pub bytes_pass : Map Bytes ℤ → Cache → Option Cache
  unfolding evict_bytes
  bytes_pass [] c = some c
  bytes_pass ((store, n) ∷ m) c = elim (evict_bytes store n c) [
    | none ↦ none
    | some c' ↦ bytes_pass m c'
  ]

  unfoldable pub evict_over_capacity : Cache → Option Cache
  unfolding entries_pass bytes_pass
  evict_over_capacity c = bytes_pass c.max_bytes (entries_pass c.max_entries c)

  -- One tick of `cleanupLoop`.
  unfoldable pub cleanup_tick : ℕ → Cache → Option Cache
  unfolding cleanup_expired evict_over_capacity attempt
  cleanup_tick now c =
      if c.paused then some c else elim (evict_over_capacity (cleanup_expired now c)) [
        | none ↦ none
        | some c' ↦ some (attempt incremental_vacuum c')
      ]

  -- `flushAccessUpdates`, over the map's entries in the order in which the runtime visits them.
  unfoldable pub flush_updates : List Update → Cache → Cache
  unfolding attempt
  flush_updates [] c = c
  flush_updates (u ∷ us) c =
      flush_updates us (attempt (update_access u.accessed_at u.store_name u.key) c)

  -- `Close`. The workers are told to stop; if they do so within the five seconds, the update loop
  -- has flushed what was pending; then the statements and the database are closed.
  unfoldable pub close_cache : Bool → List Update → Cache → Cache
  unfolding flush_updates
  close_cache in_time pending c =
      if c.closed
      then c
      else (let c' = record c { closed = true; timer = false; cancelled = true } in
          record (if in_time then flush_updates pending c' else c') { db_closed = true })
