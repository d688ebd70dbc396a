-- ===== src/Cache/Service/Access.antt =====
-- pkg/service/cache.go: `Get` and `Contains` after `Put` and `Delete`.
use synurang.Common.{
  ℕ, zero, suc, ◌+◌, ◌<◌, ◌^◌, ◌≡◌, refl, Bool, true, false, Bytes, List, Option, none, some, arith,
  bytes_beq, if◌then◌else◌, select, not, ◌&&◌, leb, ℤ, pos, negsuc, above, below,
}
use synurang.Cache.Table.{Row, Stmt, put, del, get, find_row, run, at_key}
use synurang.Cache.Engine.{Sqlite}
use synurang.Cache.Service.Execute.{execute-rows, report-ok}
use synurang.Cache.Service.{
  Cache, ok, reads, get_value, get_row, put_value, delete_value, expiry, cost_of,
}
use synurang.Cache.Rows.{Other, find-put, find-put_ne, find-del_cases}

-- What `Get` may show of a row.
abbrev pub visible : ℕ → Option Row → Option Bytes
visible now none = none
visible now (some r) = if above r.expires_at 0 && below r.expires_at now then none else some r.value

-- Until when a value that is put at `now` is kept: for ever where the time to live is not positive.
abbrev pub kept_at : ℕ → ℤ → ℕ → Bool
kept_at now (pos zero) later = true
kept_at now (pos (suc ttl)) later = leb later (now + suc ttl)
kept_at now (negsuc ttl) later = true

-- The expiry is a number of 63 bits.
abbrev pub IsInRange : ℕ → ℤ → Type 0
IsInRange now (pos ttl) = now + ttl < 2 ^ 63
IsInRange now (negsuc ttl) = Unit

visible-kept :
    (now later : ℕ) (ttl : ℤ) (r : Row)
    → IsInRange now ttl
    → r.expires_at ≡ expiry now ttl
    → visible later (some r) ≡ (if kept_at now ttl later then some r.value else none)
unfolding expiry
visible-kept now later (pos zero) r h e = ground arith
visible-kept now later (pos (suc ttl)) r h e = ground arith
visible-kept now later (negsuc ttl) r h e = ground arith

module _ (E : Sqlite) where
  open E use {rows, exec, new_rowid, order, exec_rows}

  run-del :
      (store k : Bytes) (rs : List Row)
      → run new_rowid order (del store k) rs ≡ select (λ r. not (at_key store k r)) rs
  unfolding run
  run-del store k rs = refl

  module _ (now nanos : ℕ) (store k : Bytes) where
    pub get_row-answer :
        (c : Cache E) (o : Option Row) → (get_row E now nanos store k c o).1 ≡ ok (visible now o)
    unfolding get_row
    get_row-answer c none = refl
    get_row-answer c (some r) = ground arith

    pub get_row-db : (c : Cache E) (o : Option Row) → (get_row E now nanos store k c o).0.db ≡ c.db
    unfolding get_row
    get_row-db c none = refl
    get_row-db c (some r) = ground arith

    -- On an open service whose statement succeeds `Get` answers the row's value unless the row is
    -- missing or has expired.
    pub get_value-answer :
        (c : Cache E)
        → c.closed ≡ false
        → reads E (get store k) c ≡ true
        → (get_value E now nanos store k c).1 ≡ ok (visible now (find_row store k (rows c.db)))
    unfolding get_value
    get_value-answer c is_open answers =
        ground (arith, get_row-answer c (find_row store k (rows c.db)))

  module _ (now nanos : ℕ) (store k v : Bytes) (ttl cost : ℤ) (c c' : Cache E)
      (is_open : c.closed ≡ false)
      (done : put_value E now nanos store k v ttl cost c ≡ (c', ok tt)) where
    abbrev upsert : Stmt
    upsert = put store k v (expiry now ttl) nanos (cost_of cost v)

    put_value-rows : (c'.closed ≡ false) × (rows c'.db ≡ run new_rowid order upsert (rows c.db))
    unfolding put_value
    put_value-rows = ground (arith, report-ok E upsert c c', execute-rows E upsert c c')

    -- What was put is what `Get` answers, as long as it lives: after a `Put` that succeeded on an
    -- open service, with an expiry that fits 63 bits, a `Get` of the key answers the value up to the
    -- second `now + ttl`, for ever if the time to live is not positive, and the empty response later.
    pub get_value-put_value :
        (later nanos' : ℕ)
        → IsInRange now ttl
        → reads E (get store k) c' ≡ true
        → (get_value E later nanos' store k c').1
          ≡ ok (if kept_at now ttl later then some v else none)
    get_value-put_value later nanos' fits answers =
        let (still_open, after) = put_value-rows in
        let (r, found, value, expires, _, _) =
          find-put store k v (expiry now ttl) nanos (cost_of cost v) new_rowid order (rows c.db) in
        ground (
          arith,
          get_value-answer later nanos' store k c' still_open answers,
          visible-kept now later ttl r fits expires,
        )

    -- After a `Put` that succeeded on an open service any other key, of this store or of another,
    -- answers what it answered before.
    get_value-put_value_ne :
        (later nanos' : ℕ) (store' k' : Bytes)
        → Other store k store' k'
        → reads E (get store' k') c ≡ true
        → reads E (get store' k') c' ≡ true
        → (get_value E later nanos' store' k' c').1 ≡ (get_value E later nanos' store' k' c).1
    get_value-put_value_ne later nanos' store' k' ne before answers =
        let (still_open, after) = put_value-rows in
        ground (
          arith,
          get_value-answer later nanos' store' k' c' still_open answers,
          get_value-answer later nanos' store' k' c is_open before,
          find-put_ne store k store' k' ne new_rowid order v (expiry now ttl) nanos (cost_of cost v)
              (rows c.db),
        )

  -- After a `Delete` that succeeded the key answers the empty response, and every other key what it
  -- answered before.
  get_value-delete_value :
      (later nanos : ℕ) (store k store' k' : Bytes) (c c' : Cache E)
      → c.closed ≡ false
      → delete_value E store k c ≡ (c', ok tt)
      → reads E (get store' k') c ≡ true
      → reads E (get store' k') c' ≡ true
      → (get_value E later nanos store' k' c').1 ≡ (
          if bytes_beq store store' && bytes_beq k k'
          then ok none
          else (get_value E later nanos store' k' c).1)
  unfolding delete_value
  get_value-delete_value later nanos store k store' k' c c' is_open done before answers = ground (
    arith,
    report-ok E (del store k) c c',
    execute-rows E (del store k) c c',
    run-del store k (rows c.db),
    get_value-answer later nanos store' k' c',
    get_value-answer later nanos store' k' c is_open before,
    find-del_cases store k store' k' (rows c.db),
  )
