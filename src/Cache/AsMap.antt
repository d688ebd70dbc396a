-- ===== src/Cache/AsMap.antt =====
-- pkg/service/cache.go: the requests of the cache against a function from the stores' keys to their values.
pub mod Refining
use synurang.Common.{
  ℕ, zero, suc, ◌≡◌, ◌⊎◌, inl, inr, refl, sym, ap, ap₂, subst, Bool, true, false, Bytes, List, [],
  ◌∷◌, Option, none, some, arith, bytes_beq, bytes_beq_iff, if◌then◌else◌, select, not, ◌&&◌, ℤ,
  pos, negsuc, above, below, Option-cases, Bool-cases,
}
use synurang.Cache.Table.{Row, Stmt, put, del, clear, get, find_row, run, in_store}
use synurang.Cache.Engine.{Sqlite}
use synurang.Cache.Rows.{Other, find-put, find-put_ne, find-del_cases}
use synurang.Cache.Service.{
  Cache, Reply, ok, failed, offer, reads, execute, report, get_value, get_row, put_value,
  delete_value, clear_store, expiry, cost_of,
}
use synurang.Cache.Service.Access.{get_row-answer, get_row-db, visible}
use synurang.Cache.Service.Execute.{execute-rows}

-- What the service keeps for a key: until when, and the value.
abbrev pub Entries : Type 0
Entries = Bytes → Bytes → Option (ℤ × Bytes)

pub data Request : Type 0 where
  put_request : (now nanos : ℕ) (store key value : Bytes) (ttl cost : ℤ) → Request
  delete_request : (store key : Bytes) → Request
  clear_request : (store : Bytes) → Request
  get_request : (now nanos : ℕ) (store key : Bytes) → Request

pub data Answer : Type 0 where
  answered : Option Bytes → Answer
  done failing : Answer

-- What a request does to the entries, and what it answers.
pub effect : Request → Entries → Entries
effect (put_request now nanos store key value ttl cost) m s k =
    if bytes_beq store s && bytes_beq key k then some (expiry now ttl, value) else m s k
effect (delete_request store key) m s k =
    if bytes_beq store s && bytes_beq key k then none else m s k
effect (clear_request store) m s k = if bytes_beq store s then none else m s k
effect (get_request now nanos store key) m s k = m s k

abbrev alive : ℕ → Option (ℤ × Bytes) → Option Bytes
alive now none = none
alive now (some (expires, value)) =
    if above expires 0 && below expires now then none else some value

pub answer : Request → Entries → Answer
answer (put_request now nanos store key value ttl cost) m = done
answer (delete_request store key) m = done
answer (clear_request store) m = done
answer (get_request now nanos store key) m = answered (alive now (m store key))

-- The requests on a function; a request whose statement fails does nothing.
pub replay : List Request → List Bool → Entries → Entries × List Answer
replay [] outcomes m = (m, [])
replay (q ∷ qs) [] m = (m, [])
replay (q ∷ qs) (true ∷ os) m =
    let rest = replay qs os (effect q m) in (rest.0, answer q m ∷ rest.1)
replay (q ∷ qs) (false ∷ os) m = let rest = replay qs os m in (rest.0, failing ∷ rest.1)

abbrev entry_of : Option Row → Option (ℤ × Bytes)
entry_of none = none
entry_of (some r) = some (r.expires_at, r.value)

module _ (E : Sqlite) where
  open E use {rows, exec, new_rowid, order, exec_rows}

  abbrev of_reply {ℓ} : {A : Type ℓ} → (A → Answer) → Cache E × Reply A → Cache E × Answer
  of_reply f (c, ok a) = (c, f a)
  of_reply f (c, failed) = (c, failing)

  unfoldable pub serve : Request → Cache E → Cache E × Answer
  serve (put_request now nanos store key value ttl cost) c =
      of_reply (λ u. done) (put_value E now nanos store key value ttl cost c)
  serve (delete_request store key) c = of_reply (λ u. done) (delete_value E store key c)
  serve (clear_request store) c = of_reply (λ u. done) (clear_store E store c)
  serve (get_request now nanos store key) c = of_reply answered (get_value E now nanos store key c)

  unfoldable pub serve_all : List Request → Cache E → Cache E × List Answer
  serve_all [] c = (c, [])
  serve_all (q ∷ qs) c =
      let first = serve q c in let rest = serve_all qs first.0 in (rest.0, first.1 ∷ rest.1)

  -- Whether the engine does what a request asks of it.
  abbrev works : Option (Cache E) → Bool
  works none = false
  works (some c) = true

  pub succeeds : Request → Cache E → Bool
  succeeds (put_request now nanos store key value ttl cost) c =
      works (execute E (put store key value (expiry now ttl) nanos (cost_of cost value)) c)
  succeeds (delete_request store key) c = works (execute E (del store key) c)
  succeeds (clear_request store) c = works (execute E (clear store) c)
  succeeds (get_request now nanos store key) c = reads E (get store key) c

  pub outcomes : List Request → Cache E → List Bool
  outcomes [] c = []
  outcomes (q ∷ qs) c = succeeds q c ∷ outcomes qs (serve q c).0

  -- The service is open, and its rows are these entries.
  pub record Keeps (m : Entries) (c : Cache E) : Type 0 where
    pub is_open : c.closed ≡ false
    pub keeps : (s k : Bytes) → entry_of (find_row s k (rows c.db)) ≡ m s k
