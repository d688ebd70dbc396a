-- ===== src/Cache/Rows.antt =====
-- The statements of pkg/service/cache.go on the rows: which row a key finds.
use synurang.Common.{
  ℕ, ◌≡◌, inl, inr, refl, true, false, Bytes, List, [], ◌∷◌, ◌++◌, none, some, arith, bytes_beq,
  bytes_beq_iff, if◌then◌else◌, select, not, ◌&&◌, ℤ, Option-cases, Bool-cases,
}
use synurang.Cache.Table.{Row, put, find_row, update_row, run, at_key}

abbrev pub row_at : ℕ → Bytes → Bytes → Bytes → ℤ → ℕ → ℕ → Row
row_at n store key v expires now size = record {
  rowid = n;
  store_name = store;
  key = key;
  value = v;
  expires_at = expires;
  accessed_at = now;
  size = size;
}

module _ (store k v : Bytes) (expires : ℤ) (now size : ℕ) where
  find-update :
      (rs : List Row) (r : Row)
      → find_row store k rs ≡ some r
      → find_row store k (update_row store k v expires now size rs)
        ≡ some (row_at r.rowid r.store_name r.key v expires now size)
  unfolding find_row update_row
  find-update [] r e = cc
  find-update (q ∷ rs) r e = ground (arith, find-update rs r)

  find-append :
      (rs : List Row) (r : Row)
      → find_row store k rs ≡ none
      → at_key store k r ≡ true
      → find_row store k (rs ++ r ∷ []) ≡ some r
  unfolding find_row
  find-append [] r e h = ground arith
  find-append (q ∷ rs) r e h = ground (arith, find-append rs r)

  module _ (new_rowid : List Row → ℕ) (order : Bytes → List Row → List Row) where
    -- After the upsert the key has one row to be found, with the new contents.
    pub find-put :
        (rs : List Row)
        → (r : Row) × (find_row store k (run new_rowid order (put store k v expires now size) rs)
            ≡ some r)
          × (r.value ≡ v)
          × (r.expires_at ≡ expires)
          × (r.accessed_at ≡ now)
          × (r.size ≡ size)
    unfolding run
    find-put rs = elim (Option-cases (find_row store k rs)) [
      | inl e ↦ (
        row_at (new_rowid rs) store k v expires now size,
        ground (
          arith,
          find-append rs (row_at (new_rowid rs) store k v expires now size),
          bytes_beq_iff store store,
          bytes_beq_iff k k,
        ),
        refl,
        refl,
        refl,
        refl,
      )
      | inr (r, e) ↦ (
        row_at r.rowid r.store_name r.key v expires now size,
        ground (arith, find-update rs r),
        refl,
        refl,
        refl,
        refl,
      )
    ]

-- Another key, or the same in another store.
abbrev pub Other : Bytes → Bytes → Bytes → Bytes → Type 0
Other store k store' k' = (bytes_beq store store' && bytes_beq k k') ≡ false

module _ (store k store' k' : Bytes) (ne : Other store k store' k') where
  at_key-ne : (r : Row) → at_key store k r ≡ true → at_key store' k' r ≡ false
  at_key-ne r e = ground (
    arith,
    bytes_beq_iff r.store_name store,
    bytes_beq_iff r.store_name store',
    bytes_beq_iff r.key k,
    bytes_beq_iff r.key k',
    bytes_beq_iff store store',
    bytes_beq_iff k k',
  )

  find-update_ne :
      (v : Bytes) (expires : ℤ) (now size : ℕ) (rs : List Row)
      → find_row store' k' (update_row store k v expires now size rs) ≡ find_row store' k' rs
  unfolding find_row update_row
  find-update_ne v expires now size [] = refl
  find-update_ne v expires now size (r ∷ rs) =
      ground (arith, find-update_ne v expires now size rs, at_key-ne r)

  find-append_ne :
      (r : Row) (rs : List Row)
      → at_key store k r ≡ true
      → find_row store' k' (rs ++ r ∷ []) ≡ find_row store' k' rs
  unfolding find_row
  find-append_ne r [] e = ground (arith, at_key-ne r)
  find-append_ne r (q ∷ rs) e = ground (arith, find-append_ne r rs)

  find-del_ne :
      (rs : List Row)
      → find_row store' k' (select (λ r. not (at_key store k r)) rs) ≡ find_row store' k' rs
  unfolding find_row
  find-del_ne [] = refl
  find-del_ne (r ∷ rs) = ground (arith, find-del_ne rs, at_key-ne r)

  pub find-put_ne :
      (new_rowid : List Row → ℕ) (order : Bytes → List Row → List Row) (v : Bytes) (expires : ℤ)
      (now size : ℕ) (rs : List Row)
      → find_row store' k' (run new_rowid order (put store k v expires now size) rs)
        ≡ find_row store' k' rs
  unfolding run
  find-put_ne new_rowid order v expires now size rs = elim (Option-cases (find_row store k rs)) [
    | inl e ↦ ground (
      arith,
      find-append_ne (row_at (new_rowid rs) store k v expires now size) rs,
      bytes_beq_iff store store,
      bytes_beq_iff k k,
    )
    | inr (r, e) ↦ ground (arith, find-update_ne v expires now size rs)
  ]

find-del :
    (store k : Bytes) (rs : List Row)
    → find_row store k (select (λ r. not (at_key store k r)) rs) ≡ none
unfolding find_row
find-del store k [] = refl
find-del store k (r ∷ rs) = ground (arith, find-del store k rs)

pub find-del_cases :
    (store k store' k' : Bytes) (rs : List Row)
    → find_row store' k' (select (λ r. not (at_key store k r)) rs)
      ≡ (if bytes_beq store store' && bytes_beq k k' then none else find_row store' k' rs)
find-del_cases store k store' k' rs = elim (Bool-cases (bytes_beq store store' && bytes_beq k k')) [
  | inr ne ↦ rw ne (find-del_ne store k store' k' ne rs)
  | inl eq ↦
      rw eq (ground (arith, bytes_beq_iff store store', bytes_beq_iff k k', find-del store k rs))
]
