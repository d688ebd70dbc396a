-- ===== src/Cache/Table.antt =====
-- pkg/service/cache.go: the table `cache_entries` and the statements of `prepareStatements`, read as
-- SQL. The engine that runs them is a parameter (Engine.antt).
use synurang.Common.{
  ℕ, ◌+◌, Bool, false, Bytes, List, [], ◌∷◌, ◌++◌, Option, none, some, map, nat_beq, bytes_beq,
  if◌then◌else◌, select, take, not, ◌&&◌, ◌||◌, ℤ, above, below, is_zero,
}

pub record Row : Type 0 where
  pub rowid : ℕ
  pub store_name : Bytes
  pub key : Bytes
  pub value : Bytes
  pub expires_at : ℤ
  pub accessed_at : ℕ
  pub size : ℕ

pub data Stmt : Type 0 where
  put : Bytes → Bytes → Bytes → ℤ → ℕ → ℕ → Stmt
  del : Bytes → Bytes → Stmt
  clear : Bytes → Stmt
  cleanup : ℕ → Stmt
  update_access : ℕ → Bytes → Bytes → Stmt
  evict_count : Bytes → ℕ → Stmt
  delete_rows : List ℕ → Stmt
  incremental_vacuum set_auto_vacuum vacuum : Stmt

-- The statements that ask, each of which can fail.
pub data Query : Type 0 where
  get contains : Bytes → Bytes → Query
  count sum_size oldest_rows stats keys : Bytes → Query

abbrev pub in_store : Bytes → Row → Bool
in_store store r = bytes_beq r.store_name store

abbrev pub at_key : Bytes → Bytes → Row → Bool
at_key store key r = in_store store r && bytes_beq r.key key

-- `expires_at = 0 OR expires_at > ?`
abbrev pub is_live : ℕ → Row → Bool
is_live now r = is_zero r.expires_at || above r.expires_at now

-- `expires_at > 0 AND expires_at < ?`
abbrev pub is_expired : ℕ → Row → Bool
is_expired now r = above r.expires_at 0 && below r.expires_at now

unfoldable pub find_row : Bytes → Bytes → List Row → Option Row
find_row store key [] = none
find_row store key (r ∷ rs) = if at_key store key r then some r else find_row store key rs

abbrev pub total : (Row → ℕ) → List Row → ℕ
total f [] = 0
total f (r ∷ rs) = f r + total f rs

abbrev pub rows_of : Bytes → List Row → List Row
rows_of store = select (in_store store)

abbrev pub row_size : Row → ℕ
row_size r = r.size

abbrev pub has_id : List ℕ → ℕ → Bool
has_id [] n = false
has_id (i ∷ ids) n = nat_beq i n || has_id ids n

abbrev pub ids_of : List Row → List ℕ
ids_of = map (λ r. r.rowid)

-- ON CONFLICT(store_name, key) DO UPDATE keeps the row and its rowid.
unfoldable pub update_row : Bytes → Bytes → Bytes → ℤ → ℕ → ℕ → List Row → List Row
update_row store key v expires now size [] = []
update_row store key v expires now size (r ∷ rs) =
    if at_key store key r
    then record r { value = v; expires_at = expires; accessed_at = now; size = size } ∷ rs
    else r ∷ update_row store key v expires now size rs

unfoldable pub touch_row : ℕ → Bytes → Bytes → List Row → List Row
touch_row now store key [] = []
touch_row now store key (r ∷ rs) =
    (if at_key store key r then record r { accessed_at = now } else r) ∷ touch_row now store key rs

-- What a statement makes of the rows. The engine chooses the rowid of a new row, and the order of
-- ORDER BY among rows with the same `accessed_at`.
module _ (new_rowid : List Row → ℕ) (order : Bytes → List Row → List Row) where
  unfoldable pub run : Stmt → List Row → List Row
  unfolding find_row update_row touch_row
  run (put store key v expires now size) rs = elim (find_row store key rs) [
    | some r ↦ update_row store key v expires now size rs
    | none ↦
        rs
        ++ record {
          rowid = new_rowid rs;
          store_name = store;
          key = key;
          value = v;
          expires_at = expires;
          accessed_at = now;
          size = size;
        }
          ∷ []
  ]
  run (del store key) rs = select (λ r. not (at_key store key r)) rs
  run (clear store) rs = select (λ r. not (in_store store r)) rs
  run (cleanup now) rs = select (λ r. not (is_expired now r)) rs
  run (update_access now store key) rs = touch_row now store key rs
  run (evict_count store n) rs =
      select (λ r. not (in_store store r && has_id (ids_of (take n (order store rs))) r.rowid)) rs
  run (delete_rows ids) rs = select (λ r. not (has_id ids r.rowid)) rs
  run incremental_vacuum rs = rs
  run set_auto_vacuum rs = rs
  run vacuum rs = rs
