-- ===== src/Cache/Engine.antt =====
-- SQLite as pkg/service/cache.go relies on it: statements that succeed or fail as a whole, rowids
-- that are not used twice at a time, and ORDER BY.
use synurang.Common.{ℕ, ◌≤◌, ◌≡◌, ◌≢◌, Bool, Bytes, List, [], ◌∷◌, Option, some, All}
use synurang.Cache.Table.{Row, Stmt, Query, run, total, rows_of}

-- Ascending by `accessed_at`.
abbrev pub IsSorted : List Row → Type 0
IsSorted [] = Unit
IsSorted (r ∷ rs) = All (λ q. r.accessed_at ≤ q.accessed_at) rs × IsSorted rs

pub record Sqlite : Type 1 where
  pub Db : Type 0
  pub rows : Db → List Row
  -- `none` is an error, and the database is as it was.
  pub exec : Stmt → Db → Option Db
  -- Whether a query succeeds.
  pub answers : Query → Db → Bool
  pub new_rowid : List Row → ℕ
  pub order : Bytes → List Row → List Row
  pub exec_rows :
      (st : Stmt) (db db' : Db)
      → exec st db ≡ some db'
      → rows db' ≡ run new_rowid order st (rows db)
  pub new_rowid_fresh : (rs : List Row) → All (λ r. r.rowid ≢ new_rowid rs) rs
  -- The rows of the store, each as often as it stands there.
  pub order_rows :
      (store : Bytes) (rs : List Row) (f : Row → ℕ)
      → total f (order store rs) ≡ total f (rows_of store rs)
  pub order_sorted : (store : Bytes) (rs : List Row) → IsSorted (order store rs)
