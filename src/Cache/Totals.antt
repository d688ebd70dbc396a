-- ===== src/Cache/Totals.antt =====
-- Sums over the rows of pkg/service/cache.go, by which rows are counted and sized, and what is left
-- when the first rows of an ORDER BY are deleted by rowid.
use synurang.Common.{
  ℕ, zero, suc, ◌+◌, ◌≤◌, ◌<◌, ◌≡◌, refl, Bool, true, false, Bytes, List, [], ◌∷◌, ◌++◌, arith,
  nat_beq, nat_beq_iff, if◌then◌else◌, select, take, drop, length, not, ◌&&◌,
}
use synurang.Cache.Table.{Row, total, rows_of, in_store, has_id, ids_of}

abbrev pub unless : Bool → ℕ → ℕ
unless true n = 0
unless false n = n

total-select :
    (f : Row → ℕ) (p : Row → Bool) (rs : List Row)
    → total f (select p rs) ≡ total (λ r. if p r then f r else 0) rs
total-select f p [] = refl
total-select f p (r ∷ rs) = ground (arith, total-select f p rs)

total-select-le :
    (f : Row → ℕ) (p : Row → Bool) (rs : List Row) → total f (select p rs) ≤ total f rs
total-select-le f p [] = omega arith
total-select-le f p (r ∷ rs) = ground (arith, total-select-le f p rs)

pub total-append : (f : Row → ℕ) (xs ys : List Row) → total f (xs ++ ys) ≡ total f xs + total f ys
total-append f [] ys = omega arith
total-append f (x ∷ xs) ys = omega (arith, total-append f xs ys)

pub length-total : (rs : List Row) → length rs ≡ total (λ r. 1) rs
length-total [] = refl
length-total (r ∷ rs) = omega (arith, length-total rs)

abbrev has_rowid : ℕ → Row → ℕ
has_rowid n r = if nat_beq n r.rowid then 1 else 0

-- No rowid twice.
abbrev pub IsNumbered : List Row → Type 0
IsNumbered rs = (n : ℕ) → total (has_rowid n) rs ≤ 1

pub select-IsNumbered : (p : Row → Bool) (rs : List Row) → IsNumbered rs → IsNumbered (select p rs)
select-IsNumbered p rs h n = omega (arith, total-select-le (has_rowid n) p rs, h n)

-- Deleting by rowid, seen from one store.
abbrev pub outside : List ℕ → (Row → ℕ) → Row → ℕ
outside ids f r = unless (has_id ids r.rowid) (f r)

pub total-deleted :
    (f : Row → ℕ) (store : Bytes) (ids : List ℕ) (rs : List Row)
    → total f (rows_of store (select (λ r. not (has_id ids r.rowid)) rs))
      ≡ total (outside ids f) (rows_of store rs)
total-deleted f store ids [] = refl
total-deleted f store ids (r ∷ rs) = ground (arith, total-deleted f store ids rs)

pub total-evicted :
    (f : Row → ℕ) (store : Bytes) (ids : List ℕ) (rs : List Row)
    → total f (rows_of store (select (λ r. not (in_store store r && has_id ids r.rowid)) rs))
      ≡ total (outside ids f) (rows_of store rs)
total-evicted f store ids [] = refl
total-evicted f store ids (r ∷ rs) = ground (arith, total-evicted f store ids rs)

-- Rows whose rowids are among the deleted ones count for nothing.
has_id-cons : (i : ℕ) (ids : List ℕ) (n : ℕ) → has_id ids n ≡ true → has_id (i ∷ ids) n ≡ true
has_id-cons i ids n h = ground arith

total-outside_self :
    (f : Row → ℕ) (ids : List ℕ) (xs : List Row)
    → ((n : ℕ) → has_id (ids_of xs) n ≡ true → has_id ids n ≡ true)
    → total (outside ids f) xs ≡ 0
total-outside_self f ids [] h = refl
total-outside_self f ids (x ∷ xs) h = ground (
  arith,
  h x.rowid,
  nat_beq_iff x.rowid x.rowid,
  total-outside_self f ids xs (λ n q. h n (has_id-cons x.rowid (ids_of xs) n q)),
)

has_id-pos : (xs : List Row) (n : ℕ) → has_id (ids_of xs) n ≡ true → 0 < total (has_rowid n) xs
has_id-pos [] n h = cc
has_id-pos (x ∷ xs) n h = ground (arith, has_id-pos xs n)

-- Rows with other rowids all count.
total-outside_other :
    (f : Row → ℕ) (xs ys : List Row)
    → ((n : ℕ) → total (has_rowid n) xs + total (has_rowid n) ys ≤ 1)
    → total (outside (ids_of xs) f) ys ≡ total f ys
total-outside_other f xs [] h = refl
total-outside_other f xs (y ∷ ys) h = ground (
  arith,
  h y.rowid,
  has_id-pos xs y.rowid,
  nat_beq_iff y.rowid y.rowid,
  total-outside_other f xs ys (λ n. omega (arith, h n)),
)

pub total-split :
    (f : Row → ℕ) (n : ℕ) (ys : List Row) → total f ys ≡ total f (take n ys) + total f (drop n ys)
total-split f zero ys = omega arith
total-split f (suc n) [] = omega arith
total-split f (suc n) (y ∷ ys) = omega (arith, total-split f n ys)

-- When the first `n` rows are deleted by rowid, the others are what is left.
pub total-outside-take :
    (f : Row → ℕ) (n : ℕ) (ys : List Row)
    → IsNumbered ys
    → total (outside (ids_of (take n ys)) f) ys ≡ total f (drop n ys)
total-outside-take f n ys h = omega (
  arith,
  total-split (outside (ids_of (take n ys)) f) n ys,
  total-outside_self f (ids_of (take n ys)) (take n ys) (λ k e. e),
  total-outside_other f (take n ys) (drop n ys)
      (λ k. omega (arith, h k, total-split (has_rowid k) n ys)),
)
