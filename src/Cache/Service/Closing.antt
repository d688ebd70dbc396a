-- ===== src/Cache/Service/Closing.antt =====
-- pkg/service/cache.go: what the service answers once `Close` has run.
use synurang.Common.{ℕ, ◌≡◌, refl, Bool, true, false, Bytes, List, [], ◌∷◌, none, arith, ℤ}
use synurang.Cache.Table.{Stmt, update_access}
use synurang.Cache.Engine.{Sqlite}
use synurang.Cache.Service.{
  Cache, Update, ok, failed, execute, attempt, get_value, put_value, delete_value, clear_store,
  contains_key, live_keys, get_stats, compact, set_max_entries, set_max_bytes, flush_updates,
  close_cache,
}

module _ (E : Sqlite) where
  attempt-closed : (st : Stmt) (c : Cache E) → (attempt E st c).closed ≡ c.closed
  unfolding attempt execute
  attempt-closed st c = ground arith

  flush-closed : (us : List Update) (c : Cache E) → (flush_updates E us c).closed ≡ c.closed
  unfolding flush_updates
  flush-closed [] c = refl
  flush-closed (u ∷ us) c = ground (
    arith,
    flush-closed us (attempt E (update_access u.accessed_at u.store_name u.key) c),
    attempt-closed (update_access u.accessed_at u.store_name u.key) c,
  )

  abbrev pub IsClosed : Cache E → Type 0
  IsClosed c = (c.closed ≡ true) × (c.db_closed ≡ true)

  close_cache-IsClosed :
      (in_time : Bool) (us : List Update) (c : Cache E)
      → c.closed ≡ false
      → IsClosed (close_cache E in_time us c)
  unfolding close_cache
  close_cache-IsClosed in_time us c e =
      ground (arith, flush-closed us (record c { closed = true; timer = false; cancelled = true }))

  -- The requests, as a closed service answers it: no value, no key, no entry, no error, and no
  -- change; only `Compact` reports the closed database.
  abbrev pub IsQuiet : Cache E → Type 0
  IsQuiet c =
      ((now nanos : ℕ) (store k : Bytes) → get_value E now nanos store k c ≡ (c, ok none))
      × ((now nanos : ℕ) (store k v : Bytes) (ttl cost : ℤ)
          → put_value E now nanos store k v ttl cost c ≡ (c, ok tt))
      × ((store k : Bytes) → delete_value E store k c ≡ (c, ok tt))
      × ((store : Bytes) → clear_store E store c ≡ (c, ok tt))
      × ((now : ℕ) (store k : Bytes) → contains_key E now store k c ≡ ok false)
      × ((now : ℕ) (store : Bytes) → live_keys E now store c ≡ ok [])
      × ((store : Bytes) → get_stats E store c ≡ ok (0, 0))
      × (compact E c ≡ (c, failed))

  IsClosed-IsQuiet : (c : Cache E) → IsClosed c → IsQuiet c
  unfolding get_value put_value delete_value clear_store contains_key live_keys get_stats compact
      execute
  IsClosed-IsQuiet c (e, d) = (
    λ now nanos store k. ground arith,
    λ now nanos store k v ttl cost. ground arith,
    λ store k. ground arith,
    λ store. ground arith,
    λ now store k. ground arith,
    λ now store. ground arith,
    λ store. ground arith,
    ground arith,
  )

  -- After the first `Close` of a service, whether its workers stop in time or not, `Get`, `Put`, `Delete`,
  -- `Clear`, `Contains`, `Keys` and `GetStats` find nothing, report no error and change nothing, and `Compact`
  -- reports the closed database and changes nothing. This stays so when `SetMaxEntries` and `SetMaxBytes`, which
  -- a closed service still takes, set their limits. A second `Close` changes nothing.
  pub close_cache-IsQuiet :
      (in_time in_time' : Bool) (us us' : List Update) (store : Bytes) (entries bytes : ℤ)
      (c : Cache E)
      → c.closed ≡ false
      → let z = close_cache E in_time us c in
        IsQuiet z
        × IsQuiet (set_max_entries E store entries z)
        × IsQuiet (set_max_bytes E store bytes z)
        × (close_cache E in_time' us' z ≡ z)
  unfolding set_max_entries set_max_bytes
  close_cache-IsQuiet in_time in_time' us us' store entries bytes c e =
      let z = close_cache E in_time us c in
      let done = close_cache-IsClosed in_time us c e in
      (
        IsClosed-IsQuiet z done,
        IsClosed-IsQuiet (set_max_entries E store entries z) done,
        IsClosed-IsQuiet (set_max_bytes E store bytes z) done,
        again z done.0,
      )
    where
      again : (z : Cache E) → z.closed ≡ true → close_cache E in_time' us' z ≡ z
      again z h = unfold close_cache in ground arith
