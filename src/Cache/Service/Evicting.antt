-- ===== src/Cache/Service/Evicting.antt =====
-- pkg/service/cache.go: `evictOverCapacity`.
use synurang.Common.{
  ℕ, suc, ◌-◌, min, ◌≡◌, ◌∙◌, inl, inr, sym, true, false, Bytes, List, some, arith, nat_beq,
  if◌then◌else◌, take, drop, length, length-drop, ltb→lt, ltb, pos, Bool-cases,
}
use synurang.Cache.Table.{
  Row, evict_count, delete_rows, count, run, total, rows_of, in_store, ids_of,
}
use synurang.Cache.Totals.{
  IsNumbered, select-IsNumbered, outside, total-deleted, total-evicted, total-outside-take,
  length-total,
}
use synurang.Cache.Engine.{Sqlite}
use synurang.Cache.Service.Execute.{execute-rows}
use synurang.Cache.Service.{Cache, execute, attempt, reads, evict_entries}

module _ (E : Sqlite) where
  open E use {Db, rows, exec, answers, new_rowid, order, exec_rows, order_rows}

  order-IsNumbered : (store : Bytes) (rs : List Row) → IsNumbered rs → IsNumbered (order store rs)
  order-IsNumbered store rs h n = omega (
    arith,
    order_rows store rs (λ r. if nat_beq n r.rowid then 1 else 0),
    select-IsNumbered (in_store store) rs h n,
  )

  -- What is left of the store is what the order puts behind the first `n` rows.
  left-evict_count :
      (store : Bytes) (n : ℕ) (rs : List Row) (f : Row → ℕ)
      → IsNumbered rs
      → total f (rows_of store (run new_rowid order (evict_count store n) rs))
        ≡ total f (drop n (order store rs))
  unfolding run
  left-evict_count store n rs f h =
      total-evicted f store (ids_of (take n (order store rs))) rs
      ∙ sym (order_rows store rs (outside (ids_of (take n (order store rs))) f))
      ∙ total-outside-take f n (order store rs) (order-IsNumbered store rs h)

  pub left-delete_rows :
      (store : Bytes) (n : ℕ) (rs : List Row) (f : Row → ℕ)
      → IsNumbered rs
      → total f
          (rows_of store (run new_rowid order (delete_rows (ids_of (take n (order store rs)))) rs))
        ≡ total f (drop n (order store rs))
  unfolding run
  left-delete_rows store n rs f h =
      total-deleted f store (ids_of (take n (order store rs))) rs
      ∙ sym (order_rows store rs (outside (ids_of (take n (order store rs))) f))
      ∙ total-outside-take f n (order store rs) (order-IsNumbered store rs h)

  pub length-order :
      (store : Bytes) (rs : List Row) → length (order store rs) ≡ length (rows_of store rs)
  length-order store rs = omega (
    arith,
    length-total (order store rs),
    length-total (rows_of store rs),
    order_rows store rs (λ r. 1),
  )

  -- The rows of a store that remain, by what any sum over them gives.
  abbrev pub Remain : Bytes → List Row → List Row → Type 0
  Remain store rs kept = (f : Row → ℕ) → total f (rows_of store rs) ≡ total f kept

  pub Remain-length :
      (store : Bytes) (rs kept : List Row)
      → Remain store rs kept
      → length (rows_of store rs) ≡ length kept
  Remain-length store rs kept h =
      omega (arith, length-total (rows_of store rs), length-total kept, h (λ r. 1))

  module _ (store : Bytes) (n : ℕ) (c : Cache E) (numbered : IsNumbered (rows c.db)) where
    abbrev have : ℕ
    have = length (rows_of store (rows c.db))

    few : ltb (suc n) have ≡ false → have - suc n ≡ 0
    few within = ground arith

    within_limit : ltb (suc n) have ≡ false → evict_entries E store (pos (suc n)) c ≡ c
    unfolding evict_entries
    within_limit within = ground arith

    module _ (c' : Cache E) (works : execute E (evict_count store (have - suc n)) c ≡ some c') where
      evicted : Remain store (rows c'.db) (drop (have - suc n) (order store (rows c.db)))
      evicted f =
          let (_, after) = execute-rows E (evict_count store (have - suc n)) c c' works in
          rw after (left-evict_count store (have - suc n) (rows c.db) f numbered)

      over_limit :
          reads E (count store) c ≡ true
          → ltb (suc n) have ≡ true
          → evict_entries E store (pos (suc n)) c ≡ c'
      unfolding evict_entries attempt
      over_limit answers over = ground arith

      -- `evictOverCapacity` on a store with a positive limit leaves the rows that come last in the
      -- order by access, as many as the limit allows, and deletes the others: with the count and the
      -- deletion succeeding, what any sum over the store's rows gives afterwards is what it gives over
      -- that end of the order, and it has as many rows as before or as the limit, whichever is less.
      pub evict_entries-Remain :
          reads E (count store) c ≡ true
          → let after = evict_entries E store (pos (suc n)) c in
            Remain store (rows after.db) (drop (have - suc n) (order store (rows c.db)))
            × (length (rows_of store (rows after.db)) ≡ min have (suc n))
      evict_entries-Remain answers = elim (Bool-cases (ltb (suc n) have)) [
        | inl over ↦ rw (over_limit answers over) (
          evicted,
          omega (
            arith,
            Remain-length store (rows c'.db) (drop (have - suc n) (order store (rows c.db)))
                evicted,
            length-drop (have - suc n) (order store (rows c.db)),
            length-order store (rows c.db),
            ltb→lt (suc n) have over,
          ),
        )
        | inr within ↦
            rw (within_limit within, few within)
              (λ f. sym (order_rows store (rows c.db) f), omega (arith, few within))
      ]
