-- ===== src/Cache/Tests.antt =====
-- Runs of the cache over a list of rows, and its theorems at concrete states.
use synurang.Common.{
  ℕ, min, ◌≤◌, ◌≡◌, refl, true, false, Bytes, Map, List, [], ◌∷◌, none, some, arith, str, length, ℤ,
  pos, bytes_beq, drop, bytes_eq,
}
use synurang.Cache.Table.{Row, find_row, update_row, touch_row, run, rows_of, delete_rows}
use synurang.Cache.Totals.{IsNumbered}
use synurang.Cache.ListEngine.{
  list_engine, next_rowid, by_access, last_rowid, insert_row, sort_rows,
}
use synurang.Cache.Service.{
  Cache, Update, close_cache, set_max_entries, set_max_bytes, ok, execute, get_row, get_value,
  put_value, delete_value, contains_key, evict_entries, evict_bytes, cleanup_tick, expiry, cost_of,
}
use synurang.Cache.Service.Access.{get_value-put_value}
use synurang.Cache.Service.Closing.{IsQuiet, close_cache-IsQuiet}
use synurang.Cache.AsMap.{
  Request, put_request, delete_request, get_request, answered, done, replay, serve, serve_all,
  outcomes, Keeps,
}
use synurang.Cache.AsMap.Refining.{serve_all-Refines}
use synurang.Cache.Updates.{Loop, IsValid, update_of}
use synurang.Cache.Pausing.{Pausing}
use synurang.Cache.Service.Evicting.{Remain, evict_entries-Remain}
use synurang.Cache.Service.Shrinking.{IsHealthy, size_of, evict_bytes-le}

program : Unit {0}
unfolding execute get_value put_value delete_value contains_key evict_entries evict_bytes
    cleanup_tick expiry cost_of run find_row update_row touch_row last_rowid insert_row sort_rows
    bytes_beq
program = tt

abbrev row : ℕ → Bytes → Bytes → ℤ → ℕ → Row
row n k v expires at = record {
  rowid = n;
  store_name = str "s";
  key = k;
  value = v;
  expires_at = expires;
  accessed_at = at;
  size = length v;
}

abbrev service : List Row → Cache list_engine
service rs = record {
  db = rs;
  db_closed = false;
  max_entries = [];
  max_bytes = [];
  access_chan = record { buf = []; cap = 4096; closed = false };
  cancelled = false;
  closed = false;
  paused = false;
  timer = false;
}

abbrev two : Cache list_engine
two = service (row 1 (str "a") (str "xyz") (pos 0) 9 ∷ row 2 (str "b") (str "uv") (pos 50) 4 ∷ [])

abbrev after_put : Cache list_engine
after_put =
    service (row 1 (str "a") (str "new") (pos 17) 12 ∷ row 2 (str "b") (str "uv") (pos 50) 4 ∷ [])

put_runs :
    put_value list_engine 10 12 (str "s") (str "a") (str "new") (pos 7) (pos 0) two
    ≡ (after_put, ok tt)
unfolding program
put_runs = refl

evict_runs :
    evict_entries list_engine (str "s") (pos 1) two
    ≡ service (row 1 (str "a") (str "xyz") (pos 0) 9 ∷ [])
unfolding program
evict_runs = refl

shrink_runs : evict_bytes list_engine (str "s") (pos 1) two ≡ some (service [])
unfolding program
shrink_runs = refl

get_value-put_value_example :
    (get_value list_engine 17 20 (str "s") (str "a") after_put).1 ≡ ok (some (str "new"))
get_value-put_value_example =
    get_value-put_value list_engine 10 12 (str "s") (str "a") (str "new") (pos 7) (pos 0) two
      after_put refl put_runs 17 20 (omega arith) refl

abbrev after_delete : Cache list_engine
after_delete = service (row 2 (str "b") (str "uv") (pos 50) 4 ∷ [])

two-IsNumbered : IsNumbered two.db
two-IsNumbered n = ground arith

evict_entries-Remain_example :
    Remain list_engine
      (str "s")
      (evict_entries list_engine (str "s") (pos 1) two).db
      (drop 1 (by_access (str "s") two.db))
    × (length (rows_of (str "s") (evict_entries list_engine (str "s") (pos 1) two).db) ≡ min 2 1)
unfolding program
evict_entries-Remain_example =
    evict_entries-Remain list_engine (str "s") 0 two two-IsNumbered
      (service (row 1 (str "a") (str "xyz") (pos 0) 9 ∷ [])) refl refl

list_engine-IsHealthy : IsHealthy list_engine (str "s")
unfolding execute
list_engine-IsHealthy c is_open = (
  ground arith,
  λ ids. (record c { db = run next_rowid by_access (delete_rows ids) c.db }, ground arith),
)

evict_bytes-le_example :
    (z : Cache list_engine) × (evict_bytes list_engine (str "s") (pos 4) two ≡ some z)
    × (size_of list_engine (str "s") z ≤ 4)
unfolding program
evict_bytes-le_example =
    evict_bytes-le list_engine (str "s") 3 two two-IsNumbered list_engine-IsHealthy refl refl

close_cache-IsQuiet_example :
    IsQuiet list_engine (close_cache list_engine true [] two)
    × IsQuiet list_engine
        (set_max_entries list_engine (str "s") (pos 1) (close_cache list_engine true [] two))
    × IsQuiet list_engine
        (set_max_bytes list_engine (str "s") (pos 9) (close_cache list_engine true [] two))
    × (close_cache list_engine false [] (close_cache list_engine true [] two)
        ≡ close_cache list_engine true [] two)
close_cache-IsQuiet_example =
    close_cache-IsQuiet list_engine true false [] [] (str "s") (pos 1) (pos 9) two refl

abbrev visit : Map Bytes Update → Map Bytes Update
visit m = m

abbrev idle : Loop list_engine
idle = record { cache = two; pending = []; timer_on = false }

abbrev access : Update
access = update_of (str "s") (str "a") 12

idle-IsValid : IsValid list_engine idle
idle-IsValid = record { few = ground arith; timed = λ h. absurd (ground arith) }

abbrev piped : Update
piped = update_of (str "s|t") (str "k") 8

abbrev scheduled : Pausing
scheduled = record { timer = true; armed = true; started = 0; locked = 0; paused = false }

abbrev requests : List Request
requests =
    put_request 10 12 (str "s") (str "a") (str "new") (pos 7) (pos 0)
    ∷ get_request 17 20 (str "s") (str "a")
    ∷ get_request 18 21 (str "s") (str "a")
    ∷ delete_request (str "s") (str "a")
    ∷ get_request 18 22 (str "s") (str "a")
    ∷ []

nothing_kept : Keeps list_engine (λ s k. none) (service [])
unfolding find_row
nothing_kept = record { is_open = refl; keeps = λ s k. refl }

requests_run :
    (serve_all list_engine requests (service [])).1
    ≡ done ∷ answered (some (str "new")) ∷ answered none ∷ done ∷ answered none ∷ []
unfolding serve_all serve get_value get_row put_value delete_value execute expiry cost_of run
    find_row last_rowid bytes_beq
requests_run = refl

serve_all-Refines_example :
    ((serve_all list_engine requests (service [])).1
      ≡ (replay requests (outcomes list_engine requests (service [])) (λ s k. none)).1)
    × Keeps list_engine
        (replay requests (outcomes list_engine requests (service [])) (λ s k. none)).0
        (serve_all list_engine requests (service [])).0
serve_all-Refines_example =
    serve_all-Refines list_engine requests (λ s k. none) (service []) nothing_kept
