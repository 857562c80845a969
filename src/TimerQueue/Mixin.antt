-- ===== src/TimerQueue/Mixin.antt =====
-- src/TimerMixin.h, src/TimerMixin.cpp: the timers of an object, which holds them by their ids, and
-- `runEvery` of src/EventLoop.cpp. The holders of the object are the only ones of its timers, so that
-- a timer that is cancelled is gone from the store.
pub mod Cancel
use liby_cpp.Base.{
  ℕ, suc, Bool, List, [], ◌∷◌, Option, none, some, ◌==◌, if◌then◌else◌, Run, ok, assertion_failed,
  ◌>>=◌, or_fault,
}
use liby_cpp.Timestamp
use liby_cpp.Timestamp.{Timestamp}
use liby_cpp.TimerQueue.{Timer, TimerQueue, put_timer, insert_shared, run_at, run_after}

-- `timerHolders_`: the addresses of the timers by their ids.
pub record TimerMixin : Type 0 where
  pub timer_holders : List (ℕ × ℕ)

unfoldable pub find_holder : ℕ → List (ℕ × ℕ) → Option ℕ
find_holder id [] = none
find_holder id ((key, p) ∷ rest) = if id == key then some p else find_holder id rest

unfoldable pub erase_holder : ℕ → List (ℕ × ℕ) → List (ℕ × ℕ)
erase_holder id [] = []
erase_holder id ((key, p) ∷ rest) =
    let others = erase_holder id rest in if id == key then others else (key, p) ∷ others

-- The last holder of a timer lets it go.
abbrev pub release : Option ℕ → TimerQueue → TimerQueue
release none q = q
release (some p) q = record q { timers = put_timer q.timers p none }

unfoldable pub release_all : List (ℕ × ℕ) → TimerQueue → TimerQueue
release_all [] q = q
release_all ((id, p) ∷ rest) q = release_all rest (release (some p) q)

-- `cancelTimer(id)`
unfoldable pub cancel_timer : ℕ → TimerMixin × TimerQueue → TimerMixin × TimerQueue
cancel_timer id (m, q) = (
  record { timer_holders = erase_holder id m.timer_holders },
  release (find_holder id m.timer_holders) q,
)

-- `cancelAllTimer()`
unfoldable pub cancel_all_timer : TimerMixin × TimerQueue → TimerMixin × TimerQueue
cancel_all_timer (m, q) = (record { timer_holders = [] }, release_all m.timer_holders q)

-- `runHelper(timerHolder)` of the timer at `p`: its id. A timer that had the id before is let go.
unfoldable pub run_helper : ℕ → TimerMixin × TimerQueue → Run (ℕ × (TimerMixin × TimerQueue))
run_helper p (m, q) = do
  t ← or_fault (q.timers p) assertion_failed
  let others = erase_holder t.id m.timer_holders
  let q' = release (find_holder t.id m.timer_holders) q
  ok (t.id, (record { timer_holders = (t.id, p) ∷ others }, q'))

-- `EventLoop::runEvery`, where `every p timestamp handler` is the number of the function that keeps
-- those three: the address of the timer.
unfoldable pub run_every :
    (ℕ → Timestamp → ℕ → ℕ) → TimerQueue → Timestamp → ℕ → Run (ℕ × TimerQueue)
run_every every q timestamp handler = do
  let p = q.fresh_ptr
  let t : Timer = record {
    id = q.timer_ids;
    timeout = timestamp;
    handler = every p timestamp handler;
  }
  let stored = record q {
    timers = put_timer q.timers p (some t);
    fresh_ptr = suc p;
    timer_ids = suc q.timer_ids;
  }
  q' ← insert_shared stored p
  ok (p, q')

-- The function that `runEvery` gives its timer, at the time `now`: it sets the next time, inserts
-- the timer once more and calls the handler of the user.
unfoldable pub run_again :
    (ℕ → TimerQueue → Run TimerQueue) → Timestamp → ℕ → Timestamp → ℕ → TimerQueue → Run TimerQueue
run_again run_handler now p timestamp handler q = elim (q.timers p) [
  | none ↦ ok q
  | some t ↦ do
    let later = record t { timeout = Timestamp.add timestamp now }
    q' ← insert_shared (record q { timers = put_timer q.timers p (some later) }) p
    run_handler handler q'
]

-- `runAt(timestamp, handler)` of the object: the id of the timer.
unfoldable pub mixin_run_at :
    Timestamp → ℕ → TimerMixin × TimerQueue → Run (ℕ × (TimerMixin × TimerQueue))
mixin_run_at timestamp handler (m, q) = do r ← run_at q timestamp handler; run_helper r.0 (m, r.1)

-- `runAfter(timestamp, handler)` of the object at the time `now`.
unfoldable pub mixin_run_after :
    Timestamp → Timestamp → ℕ → TimerMixin × TimerQueue → Run (ℕ × (TimerMixin × TimerQueue))
mixin_run_after now timestamp handler (m, q) = do
  r ← run_after now q timestamp handler
  run_helper r.0 (m, r.1)

-- `runEvery(timestamp, handler)` of the object.
unfoldable pub mixin_run_every :
    (ℕ → Timestamp → ℕ → ℕ)
    → Timestamp
    → ℕ
    → TimerMixin × TimerQueue
    → Run (ℕ × (TimerMixin × TimerQueue))
mixin_run_every every timestamp handler (m, q) = do
  r ← run_every every q timestamp handler
  run_helper r.0 (m, r.1)
