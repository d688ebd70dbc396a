-- ===== src/Cache/AsMap/Refining.antt =====
-- pkg/service/cache.go: every request on the service does what it does on a function of the keys.
use synurang.Common.{
  ℕ, ◌≡◌, ◌⊎◌, inl, inr, refl, sym, ap, ap₂, subst, true, false, Bytes, List, [], ◌∷◌, Option, none,
  some, arith, bytes_beq, bytes_beq_iff, if◌then◌else◌, select, not, ◌&&◌, ℤ, Bool-cases,
}
use synurang.Cache.Table.{Row, Stmt, put, del, clear, get, find_row, run, in_store}
use synurang.Cache.Engine.{Sqlite}
use synurang.Cache.Rows.{find-put, find-put_ne, find-del_cases}
use synurang.Cache.Service.{
  Cache, Reply, failed, offer, reads, execute, report, get_value, get_row, put_value, delete_value,
  clear_store, expiry, cost_of,
}
use synurang.Cache.Service.Access.{get_row-answer, get_row-db, visible}
use synurang.Cache.Service.Execute.{execute-rows}
use synurang.Cache.AsMap.{
  Entries, Request, put_request, delete_request, clear_request, get_request, answered, done,
  failing, effect, alive, answer, replay, entry_of, of_reply, serve, serve_all, works, succeeds,
  outcomes, Keeps,
}

find-clear :
    (store s k : Bytes) (rs : List Row)
    → find_row s k (select (λ r. not (in_store store r)) rs)
      ≡ (if bytes_beq store s then none else find_row s k rs)
unfolding find_row
find-clear store s k [] = ground arith
find-clear store s k (r ∷ rs) = ground (
  arith,
  find-clear store s k rs,
  bytes_beq_iff r.store_name store,
  bytes_beq_iff r.store_name s,
  bytes_beq_iff store s,
)

module _ (E : Sqlite) where
  open E use {rows, exec, new_rowid, order, exec_rows}

  -- What holds once a request has been served.
  abbrev Served : Request → Entries → Cache E → Type 0
  Served q m c =
      ((succeeds E q c ≡ true)
        × ((serve E q c).1 ≡ answer q m)
        × Keeps E (effect q m) (serve E q c).0)
      ⊎ ((succeeds E q c ≡ false) × ((serve E q c).1 ≡ failing) × Keeps E m (serve E q c).0)

  find-put_cases :
      (store key value : Bytes) (expires : ℤ) (nanos size : ℕ) (s k : Bytes) (rs : List Row)
      → entry_of (find_row s k (run new_rowid order (put store key value expires nanos size) rs))
        ≡ (if bytes_beq store s && bytes_beq key k
            then some (expires, value)
            else entry_of (find_row s k rs))
  find-put_cases store key value expires nanos size s k rs =
      let (r, found, same, until, _, _) =
        find-put store key value expires nanos size new_rowid order rs in
      elim (Bool-cases (bytes_beq store s && bytes_beq key k)) [
        | inl e ↦ ground (arith, e, found, same, until, bytes_beq_iff store s, bytes_beq_iff key k)
        | inr ne ↦
            ground
              (arith, ne, find-put_ne store key s k ne new_rowid order value expires nanos size rs)
      ]

  -- What holds of a reply to a statement that makes the entries `m'` of the entries `m`.
  abbrev Written : Entries → Entries → Option (Cache E) → Cache E × Reply (Unit {0}) → Type 0
  Written m m' o r =
      ((works E o ≡ true)
        × ((of_reply E (λ u. done) r).1 ≡ done)
        × Keeps E m' (of_reply E (λ u. done) r).0)
      ⊎ ((works E o ≡ false)
          × ((of_reply E (λ u. done) r).1 ≡ failing)
          × Keeps E m (of_reply E (λ u. done) r).0)

  report-Written :
      (st : Stmt) (m m' : Entries) (c : Cache E) (o : Option (Cache E))
      → Keeps E m c
      → ((s k : Bytes) → entry_of (find_row s k (run new_rowid order st (rows c.db))) ≡ m' s k)
      → execute E st c ≡ o
      → Written m m' o (report E c o)
  report-Written st m m' c none h makes e = inr (refl, refl, h)
  report-Written st m m' c (some c') h makes e =
      let (same, after) = execute-rows E st c c' e in
      inl (
        refl,
        refl,
        record {
          is_open = ground (arith, same, h.is_open);
          keeps = λ s k. ground (arith, after, makes s k);
        },
      )

  write-Written :
      (st : Stmt) (m m' : Entries) (c : Cache E) (r : Cache E × Reply (Unit {0}))
      → Keeps E m c
      → ((s k : Bytes) → entry_of (find_row s k (run new_rowid order st (rows c.db))) ≡ m' s k)
      → report E c (execute E st c) ≡ r
      → Written m m' (execute E st c) r
  write-Written st m m' c r h makes e =
      subst (Written m m' (execute E st c)) e
        (report-Written st m m' c (execute E st c) h makes refl)

  alive-visible : (now : ℕ) (o : Option Row) → visible now o ≡ alive now (entry_of o)
  alive-visible now none = refl
  alive-visible now (some r) = refl

  get_row-closed :
      (now nanos : ℕ) (store key : Bytes) (c : Cache E) (o : Option Row)
      → (get_row E now nanos store key c o).0.closed ≡ c.closed
  unfolding get_row offer
  get_row-closed now nanos store key c none = refl
  get_row-closed now nanos store key c (some r) = ground arith

  open_put :
      (now nanos : ℕ) (store key value : Bytes) (ttl cost : ℤ) (c : Cache E)
      → c.closed ≡ false
      → report E c (execute E (put store key value (expiry now ttl) nanos (cost_of cost value)) c)
        ≡ put_value E now nanos store key value ttl cost c
  unfolding put_value
  open_put now nanos store key value ttl cost c h = ground arith

  open_delete :
      (store key : Bytes) (c : Cache E)
      → c.closed ≡ false
      → report E c (execute E (del store key) c) ≡ delete_value E store key c
  unfolding delete_value
  open_delete store key c h = ground arith

  open_clear :
      (store : Bytes) (c : Cache E)
      → c.closed ≡ false
      → report E c (execute E (clear store) c) ≡ clear_store E store c
  unfolding clear_store
  open_clear store c h = ground arith

  get-cases :
      (now nanos : ℕ) (store key : Bytes) (c : Cache E)
      → c.closed ≡ false
      → get_value E now nanos store key c ≡ (
          if reads E (get store key) c
          then get_row E now nanos store key c (find_row store key (rows c.db))
          else (c, failed))
  unfolding get_value
  get-cases now nanos store key c h = ground arith

  get-Served :
      (now nanos : ℕ) (store key : Bytes) (m : Entries) (c : Cache E)
      → Keeps E m c
      → Served (get_request now nanos store key) m c
  unfolding serve succeeds effect answer
  get-Served now nanos store key m c h =
      let row = find_row store key (rows c.db) in
      let after = (get_row E now nanos store key c row).0 in
      let kept : Keeps E m after = record {
        is_open = ground (arith, get_row-closed now nanos store key c row, h.is_open);
        keeps = λ s k. ground (arith, get_row-db E now nanos store key c row, h.keeps s k);
      } in
      let value = get_value E now nanos store key c in
      elim (Bool-cases (reads E (get store key) c)) [
        | inl e ↦
            let r : of_reply E answered value ≡ (after, answered (alive now (m store key))) =
              ground (
                arith,
                e,
                get-cases now nanos store key c h.is_open,
                get_row-answer E now nanos store key c row,
                alive-visible now row,
                h.keeps store key,
              ) in
            inl (e, ap (λ x. x.1) r, subst (Keeps E m) (sym (ap (λ x. x.0) r)) kept)
        | inr e ↦
            let r : of_reply E answered value ≡ (c, failing) =
              ground (arith, e, get-cases now nanos store key c h.is_open) in
            inr (e, ap (λ x. x.1) r, subst (Keeps E m) (sym (ap (λ x. x.0) r)) h)
      ]

  serve-Served : (q : Request) (m : Entries) (c : Cache E) → Keeps E m c → Served q m c
  unfolding serve succeeds effect answer run
  serve-Served (put_request now nanos store key value ttl cost) m c h =
      let until = expiry now ttl in
      write-Written (put store key value until nanos (cost_of cost value)) m
        (effect (put_request now nanos store key value ttl cost) m) c
        (put_value E now nanos store key value ttl cost c) h
        (λ s k. ground (
          arith,
          h.keeps s k,
          find-put_cases store key value until nanos (cost_of cost value) s k (rows c.db),
        ))
        (open_put now nanos store key value ttl cost c h.is_open)
  serve-Served (delete_request store key) m c h =
      write-Written (del store key) m (effect (delete_request store key) m) c
        (delete_value E store key c) h
        (λ s k. ground (arith, h.keeps s k, find-del_cases store key s k (rows c.db)))
        (open_delete store key c h.is_open)
  serve-Served (clear_request store) m c h =
      write-Written (clear store) m (effect (clear_request store) m) c (clear_store E store c) h
        (λ s k. ground (arith, h.keeps s k, find-clear store s k (rows c.db)))
        (open_clear store c h.is_open)
  serve-Served (get_request now nanos store key) m c h = get-Served now nanos store key m c h

  -- On an open service whose rows are the entries of a function, any Put, Delete, Clear and Get
  -- requests answer what they answer on the function, a request fails exactly when the engine does not do what it asks, and then it does
  -- nothing. Afterwards the rows are the entries that the function has then.
  pub serve_all-Refines :
      (qs : List Request) (m : Entries) (c : Cache E)
      → Keeps E m c
      → ((serve_all E qs c).1 ≡ (replay qs (outcomes E qs c) m).1)
        × Keeps E (replay qs (outcomes E qs c) m).0 (serve_all E qs c).0
  unfolding serve_all replay outcomes
  serve_all-Refines [] m c h = (refl, h)
  serve_all-Refines (q ∷ qs) m c h = elim (serve-Served q m c h) [
    | inl (s, a, k) ↦
        let (answers, kept) = serve_all-Refines qs (effect q m) (serve E q c).0 k in
        subst
          (λ b.
            ((serve E q c).1 ∷ (serve_all E qs (serve E q c).0).1
              ≡ (replay (q ∷ qs) (b ∷ outcomes E qs (serve E q c).0) m).1)
            × Keeps E (replay (q ∷ qs) (b ∷ outcomes E qs (serve E q c).0) m).0
                (serve_all E qs (serve E q c).0).0)
          (sym s) (ap₂ (λ x y. x ∷ y) a answers, kept)
    | inr (s, a, k) ↦
        let (answers, kept) = serve_all-Refines qs m (serve E q c).0 k in
        subst
          (λ b.
            ((serve E q c).1 ∷ (serve_all E qs (serve E q c).0).1
              ≡ (replay (q ∷ qs) (b ∷ outcomes E qs (serve E q c).0) m).1)
            × Keeps E (replay (q ∷ qs) (b ∷ outcomes E qs (serve E q c).0) m).0
                (serve_all E qs (serve E q c).0).0)
          (sym s) (ap₂ (λ x y. x ∷ y) a answers, kept)
  ]
