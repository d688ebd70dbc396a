-- ===== src/Cache/Service/Shrinking.antt =====
-- pkg/service/cache.go: the loop of `evictOverCapacity` that enforces `maxBytes`.
use synurang.Common.{
  ℕ, zero, suc, ◌+◌, ◌-◌, ◌≤◌, ◌<◌, ◌≡◌, ◌⊎◌, inl, inr, refl, true, false, Bytes, List, [], ◌∷◌,
  ◌∙◌, Option, none, some, arith, take, drop, length, length-drop, length-take, ltb, leb, ℤ, pos,
  negsuc, Bool-cases, Option-cases, not, ◌&&◌,
}
use synurang.Cache.Table.{
  Row, delete_rows, sum_size, oldest_rows, run, total, rows_of, has_id, ids_of, row_size,
}
use synurang.Cache.Totals.{IsNumbered, select-IsNumbered, total-split}
use synurang.Cache.Engine.{Sqlite}
use synurang.Cache.Service.Execute.{execute-rows}
use synurang.Cache.Service.Evicting.{Remain-length, left-delete_rows, length-order}
use synurang.Cache.Service.{Cache, execute, reads, shrink, evict_bytes}

module _ (E : Sqlite) (store : Bytes) where
  open E use {Db, rows, exec, answers, new_rowid, order, order_rows}

  -- Deletions and the query for the oldest rows succeed.
  abbrev pub IsHealthy : Type 0
  IsHealthy =
      (c : Cache E)
      → c.db_closed ≡ false
      → (reads E (oldest_rows store) c ≡ true)
        × ((ids : List ℕ) → (c' : Cache E) × (execute E (delete_rows ids) c ≡ some c'))

  abbrev pub size_of : Cache E → ℕ
  size_of c = total row_size (rows_of store (rows c.db))

  abbrev count_of : Cache E → ℕ
  count_of c = length (rows_of store (rows c.db))

  abbrev oldest : Cache E → List Row
  oldest c = take 50 (order store (rows c.db))

  -- What a round that deletes leaves.
  pub record Round (c c' : Cache E) : Type 0 where
    pub numbered : IsNumbered (rows c'.db)
    pub fewer : 0 < length (oldest c) → count_of c' < count_of c
    pub size : size_of c' + total row_size (oldest c) ≡ size_of c
    pub open_db : c'.db_closed ≡ c.db_closed

  round :
      (c c' : Cache E)
      → IsNumbered (rows c.db)
      → execute E (delete_rows (ids_of (oldest c))) c ≡ some c'
      → Round c c'
  unfolding run
  round c c' numbered e =
      let (same, after) = execute-rows E (delete_rows (ids_of (oldest c))) c c' e in
      let left : (f : Row → ℕ)
          → total f (rows_of store (rows c'.db)) ≡ total f (drop 50 (order store (rows c.db))) =
        λ f. rw after (left-delete_rows E store 50 (rows c.db) f numbered) in
      record {
        numbered = rw after (
            select-IsNumbered (λ r. not (has_id (ids_of (oldest c)) r.rowid)) (rows c.db) numbered);
        fewer = λ h. omega (
          arith,
          Remain-length E store (rows c'.db) (drop 50 (order store (rows c.db))) left,
          length-drop 50 (order store (rows c.db)),
          length-take 50 (order store (rows c.db)),
          length-order E store (rows c.db),
        );
        size = omega (
          arith,
          left row_size,
          total-split row_size 50 (order store (rows c.db)),
          order_rows store (rows c.db) row_size,
        );
        open_db = ground (arith, same);
      }

  total-empty : (f : Row → ℕ) (rs : List Row) → length rs ≡ 0 → total f rs ≡ 0
  total-empty f [] h = refl
  total-empty f (r ∷ rs) h = absurd (omega arith)

  nothing_left : (c : Cache E) → length (oldest c) ≡ 0 → size_of c ≡ 0
  nothing_left c h =
      total-empty row_size (rows_of store (rows c.db))
        (omega (arith, length-take 50 (order store (rows c.db)), length-order E store (rows c.db)))

  -- The loop returns, and on a healthy database it has reached the limit.
  abbrev Ends : ℕ → Cache E → Option (Cache E) → Type 0
  Ends limit c r =
      (z : Cache E) × (r ≡ some z) × (IsHealthy → c.db_closed ≡ false → size_of z ≤ limit)

  shrink_stop :
      (fuel limit size : ℕ) (c : Cache E)
      → size ≡ size_of c
      → (leb size limit ≡ true)
        ⊎ ((reads E (oldest_rows store) c ≡ false) ⊎ (length (oldest c) ≡ 0))
      → Ends limit c (shrink E (suc fuel) store limit size c)
  unfolding shrink
  shrink_stop fuel limit size c e (inl h) = (c, ground arith, λ healthy is_open. ground arith)
  shrink_stop fuel limit size c e (inr (inl h)) =
      (c, ground arith, λ healthy is_open. ground (arith, (healthy c is_open).0))
  shrink_stop fuel limit size c e (inr (inr h)) =
      (c, ground arith, λ healthy is_open. omega (arith, nothing_left c h))

  abbrev Goes : ℕ → ℕ → Cache E → Type 0
  Goes limit size c =
      (leb size limit ≡ false) × (reads E (oldest_rows store) c ≡ true) × (0 < length (oldest c))

  shrink_step :
      (fuel limit size : ℕ) (c : Cache E)
      → Goes limit size c
      → shrink E (suc fuel) store limit size c
        ≡ elim (execute E (delete_rows (ids_of (oldest c))) c) [
          | none ↦ some c
          | some c' ↦ shrink E fuel store limit (size - total row_size (oldest c)) c'
        ]
  unfolding shrink
  shrink_step fuel limit size c (over, answers, more) = ground arith

  shrink_cases :
      (limit size : ℕ) (c : Cache E)
      → ((leb size limit ≡ true)
          ⊎ ((reads E (oldest_rows store) c ≡ false) ⊎ (length (oldest c) ≡ 0)))
        ⊎ Goes limit size c
  shrink_cases limit size c = ground arith

  shrink-Ends :
      (fuel limit size : ℕ) (c : Cache E)
      → IsNumbered (rows c.db)
      → size ≡ size_of c
      → count_of c < fuel
      → Ends limit c (shrink E fuel store limit size c)
  shrink-Ends zero limit size c numbered e h = absurd (omega arith)
  shrink-Ends (suc fuel) limit size c numbered e h = elim (shrink_cases limit size c) [
    | inl stop ↦ shrink_stop fuel limit size c e stop
    | inr goes ↦ elim (Option-cases (execute E (delete_rows (ids_of (oldest c))) c)) [
      | inl fails ↦ (
        c,
        rw (shrink_step fuel limit size c goes, fails) refl,
        λ healthy is_open.
            let (c', works) = (healthy c is_open).1 (ids_of (oldest c)) in absurd (cc),
      )
      | inr (c', works) ↦
          let r = round c c' numbered works in
          let (z, ends, small) =
            shrink-Ends fuel limit (size - total row_size (oldest c)) c' r.numbered
              (omega (arith, r.size)) (omega (arith, r.fewer goes.2)) in
          (
            z,
            rw (shrink_step fuel limit size c goes, works) ends,
            λ healthy is_open. small healthy (r.open_db ∙ is_open),
          )
    ]
  ]

  evict_bytes-Ends :
      (limit : ℕ) (c : Cache E)
      → IsNumbered (rows c.db)
      → (z : Cache E) × (evict_bytes E store (pos (suc limit)) c ≡ some z)
        × (IsHealthy
            → c.db_closed ≡ false
            → reads E (sum_size store) c ≡ true
            → size_of z ≤ suc limit)
  unfolding evict_bytes
  evict_bytes-Ends limit c numbered =
      let (z, ends, small) =
        shrink-Ends (suc (count_of c)) (suc limit) (size_of c) c numbered refl (omega arith) in
      elim (Bool-cases (reads E (sum_size store) c && ltb (suc limit) (size_of c))) [
        | inl over ↦
            (z, rw (over, evict_bytes) ends, λ healthy is_open answers. small healthy is_open)
        | inr within ↦ (c, ground arith, λ healthy is_open answers. ground arith)
      ]

  -- The loop of `evictOverCapacity` over the bytes of a store ends, whatever the limit and whatever
  -- statement fails on the way: one round for each row of the store is more than enough.
  evict_bytes-total :
      (limit : ℤ) (c : Cache E)
      → IsNumbered (rows c.db)
      → (z : Cache E) × (evict_bytes E store limit c ≡ some z)
  unfolding evict_bytes
  evict_bytes-total (negsuc n) c numbered = (c, refl)
  evict_bytes-total (pos zero) c numbered = (c, refl)
  evict_bytes-total (pos (suc n)) c numbered =
      let (z, ends, _) = evict_bytes-Ends n c numbered in (z, ends)

  -- If the database is open and the store's queries and the deletions succeed, the loop over the
  -- bytes ends with the rows that are left within a positive limit.
  pub evict_bytes-le :
      (limit : ℕ) (c : Cache E)
      → IsNumbered (rows c.db)
      → IsHealthy
      → c.db_closed ≡ false
      → reads E (sum_size store) c ≡ true
      → (z : Cache E) × (evict_bytes E store (pos (suc limit)) c ≡ some z) × (size_of z ≤ suc limit)
  evict_bytes-le limit c numbered healthy is_open answers =
      let (z, ends, small) = evict_bytes-Ends limit c numbered in
      (z, ends, small healthy is_open answers)
