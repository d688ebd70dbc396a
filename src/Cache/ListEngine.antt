-- ===== src/Cache/ListEngine.antt =====
-- A database that is a list of rows: what pkg/service/cache.go asks of SQLite can be met.
use synurang.Common.{
  ℕ, ◌+◌, ◌≤◌, ◌<◌, max, ◌≡◌, ◌≢◌, refl, true, Bytes, List, [], ◌∷◌, some, arith, if◌then◌else◌,
  leb, All,
}
use synurang.Cache.Table.{Row, run, total, rows_of}
use synurang.Cache.Engine.{IsSorted, Sqlite}

unfoldable pub insert_row : Row → List Row → List Row
insert_row r [] = r ∷ []
insert_row r (q ∷ rs) = if leb r.accessed_at q.accessed_at then r ∷ q ∷ rs else q ∷ insert_row r rs

unfoldable pub sort_rows : List Row → List Row
unfolding insert_row
sort_rows [] = []
sort_rows (r ∷ rs) = insert_row r (sort_rows rs)

unfoldable pub last_rowid : List Row → ℕ
last_rowid [] = 0
last_rowid (r ∷ rs) = max r.rowid (last_rowid rs)

total-insert_row :
    (f : Row → ℕ) (r : Row) (rs : List Row) → total f (insert_row r rs) ≡ f r + total f rs
unfolding insert_row
total-insert_row f r [] = refl
total-insert_row f r (q ∷ rs) = ground (arith, total-insert_row f r rs)

pub total-sort_rows : (f : Row → ℕ) (rs : List Row) → total f (sort_rows rs) ≡ total f rs
unfolding sort_rows
total-sort_rows f [] = refl
total-sort_rows f (r ∷ rs) =
    omega (arith, total-insert_row f r (sort_rows rs), total-sort_rows f rs)

abbrev From : ℕ → List Row → Type 0
From n = All (λ q. n ≤ q.accessed_at)

From-insert_row :
    (n : ℕ) (r : Row) (rs : List Row) → n ≤ r.accessed_at → From n rs → From n (insert_row r rs)
unfolding insert_row
From-insert_row n r [] h a = (h, tt)
From-insert_row n r (q ∷ rs) h a = ground (arith, From-insert_row n r rs h a.1)

From-mono : (m n : ℕ) (rs : List Row) → m ≤ n → From n rs → From m rs
From-mono m n [] h a = tt
From-mono m n (r ∷ rs) h a = (omega arith, From-mono m n rs h a.1)

insert_row-IsSorted : (r : Row) (rs : List Row) → IsSorted rs → IsSorted (insert_row r rs)
unfolding insert_row
insert_row-IsSorted r [] s = (tt, tt)
insert_row-IsSorted r (q ∷ rs) s = ground (
  arith,
  insert_row-IsSorted r rs s.1,
  From-insert_row q.accessed_at r rs,
  s.0,
  From-mono r.accessed_at q.accessed_at rs,
)

pub sort_rows-IsSorted : (rs : List Row) → IsSorted (sort_rows rs)
unfolding sort_rows
sort_rows-IsSorted [] = tt
sort_rows-IsSorted (r ∷ rs) = insert_row-IsSorted r (sort_rows rs) (sort_rows-IsSorted rs)

fresh_above : (n : ℕ) (rs : List Row) → last_rowid rs < n → All (λ r. r.rowid ≢ n) rs
unfolding last_rowid
fresh_above n [] h = tt
fresh_above n (r ∷ rs) h = (omega arith, fresh_above n rs (omega arith))

abbrev pub next_rowid : List Row → ℕ
next_rowid rs = last_rowid rs + 1

pub next_rowid_fresh : (rs : List Row) → All (λ r. r.rowid ≢ next_rowid rs) rs
next_rowid_fresh rs = fresh_above (last_rowid rs + 1) rs (omega arith)

abbrev pub by_access : Bytes → List Row → List Row
by_access store rs = sort_rows (rows_of store rs)

pub rows_of_some : (xs ys : List Row) → some ys ≡ some xs → xs ≡ ys
rows_of_some xs ys e = cc

abbrev pub list_engine : Sqlite
list_engine = record {
  Db = List Row;
  rows = λ rs. rs;
  exec = λ st rs. some (run next_rowid by_access st rs);
  answers = λ q rs. true;
  new_rowid = next_rowid;
  order = by_access;
  exec_rows = λ st rs rs' e. rows_of_some rs' (run next_rowid by_access st rs) e;
  new_rowid_fresh = next_rowid_fresh;
  order_rows = λ store rs f. total-sort_rows f (rows_of store rs);
  order_sorted = λ store rs. sort_rows-IsSorted (rows_of store rs);
}
