-- ===== src/Cache/Pausing.antt =====
-- pkg/service/cache.go: `Pause` and `Resume`, and the callback of the timer that `Pause` starts.
use synurang.Common.{ℕ, ◌+◌, ◌-◌, ◌≡◌, Bool, true, false, arith, if◌then◌else◌, ◌||◌}

-- `timer`: `pauseTimer` is not nil. `armed`: the runtime will still fire it. `started` callbacks have not
-- taken the lock yet, and `locked` ones have released it and are about to set `paused`.
pub record Pausing : Type 0 where
  pub timer : Bool
  pub armed : Bool
  pub started : ℕ
  pub locked : ℕ
  pub paused : Bool

unfoldable pub pause : Pausing → Pausing
pause s = if s.paused || s.timer then s else record s { timer = true; armed = true }

-- The three moments of a timer that is not stopped.
unfoldable pub fire : Pausing → Pausing
fire s = if s.armed then record s { armed = false; started = s.started + 1 } else s

unfoldable pub callback_lock : Pausing → Pausing
callback_lock s = record s { timer = false; started = s.started - 1; locked = s.locked + 1 }

unfoldable pub callback_swap : Pausing → Pausing
callback_swap s = record s { paused = true; locked = s.locked - 1 }

unfoldable pub resume : Pausing → Pausing
resume s =
    let s' = if s.timer then record s { timer = false; armed = false } else s in
    record s' { paused = false }

-- A `Resume` before the pending timer fires stops it, and the service is not paused. A `Resume` after the
-- timer's callback has released the lock and before the callback sets `paused` is lost: the service is
-- paused afterwards, with no timer pending.
pub resume_races :
    (s : Pausing)
    → s.timer ≡ true
    → s.armed ≡ true
    → ((resume s).paused ≡ false)
      × (fire (resume s) ≡ resume s)
      × ((callback_swap (resume (callback_lock (fire s)))).paused ≡ true)
      × ((callback_swap (resume (callback_lock (fire s)))).timer ≡ false)
unfolding fire callback_lock callback_swap resume
resume_races s e a = ground arith
