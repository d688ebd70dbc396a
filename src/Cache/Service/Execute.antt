-- ===== src/Cache/Service/Execute.antt =====
-- pkg/service/cache.go: what one statement does to the service's state.
use synurang.Common.{◌≡◌, ◌⊎◌, inl, inr, some, arith, Option-cases}
use synurang.Cache.Table.{Stmt, run}
use synurang.Cache.Engine.{Sqlite}
use synurang.Cache.Service.{Cache, ok, failed, execute, attempt, report}

module _ (E : Sqlite) (st : Stmt) (c : Cache E) where
  open E use {Db, rows, exec, new_rowid, order, exec_rows}

  execute-some :
      (db : Db)
      → exec st c.db ≡ some db
      → (c' : Cache E) → execute E st c ≡ some c'
      → (c' ≡ record c { db = db }) × (rows c'.db ≡ run new_rowid order st (rows c.db))
  unfolding execute
  execute-some db e c' h = ground (arith, exec_rows st c.db db e)

  -- A statement that succeeds changes the rows as SQL says, and nothing else of the service.
  pub execute-rows :
      (c' : Cache E)
      → execute E st c ≡ some c'
      → (c' ≡ record c { db = c'.db }) × (rows c'.db ≡ run new_rowid order st (rows c.db))
  unfolding execute
  execute-rows c' h = elim (Option-cases (exec st c.db)) [
    | inl e ↦ absurd (ground arith)
    | inr (db, e) ↦ ground (arith, execute-some db e c' h)
  ]

  -- A reported success is a statement that succeeded; a reported failure changes nothing.
  pub report-ok :
      (c' : Cache E) → report E c (execute E st c) ≡ (c', ok tt) → execute E st c ≡ some c'
  report-ok c' h = ground arith

  pub report-failed : (c' : Cache E) → report E c (execute E st c) ≡ (c', failed) → c' ≡ c
  report-failed c' h = ground arith

  -- An attempt succeeds, or leaves the service as it was.
  attempt-cases :
      (attempt E st c ≡ c)
      ⊎ ((attempt E st c ≡ record c { db = (attempt E st c).db })
          × (rows (attempt E st c).db ≡ run new_rowid order st (rows c.db)))
  unfolding attempt
  attempt-cases = elim (Option-cases (execute E st c)) [
    | inl e ↦ inl (ground arith)
    | inr (c', e) ↦ inr (ground (arith, execute-rows c' e))
  ]
