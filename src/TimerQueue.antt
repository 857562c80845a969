-- ===== src/TimerQueue.antt =====
-- src/TimerQueue.h and src/TimerQueue.cpp: timers, the weak holders that the heap keeps, and the
-- queue with its timerfd; and the calls of src/EventLoop.cpp and src/TimerMixin.cpp that insert
-- into it. A shared timer is a cell of a store, a weak pointer its address. What a user's handler
-- does is code outside the repository, a parameter. Timer ids do not wrap around at 2^64.
pub mod Late
pub mod Mixin
mod Tests
use liby_cpp.Base.{
  ℕ, zero, suc, ◌+◌, Bool, true, false, ◌&&◌, List, [], ◌∷◌, ◌++◌, Option, none, some, ltb, ◌==◌,
  if◌then◌else◌, Run, ok, fault, thrown, out_of_fuel, null_pointer, ◌>>=◌, or_fault, pos,
}
use liby_cpp.Timestamp
use liby_cpp.Timestamp.{Timestamp, less, timestamp}
use liby_cpp.BinaryHeap
use liby_cpp.BinaryHeap.{BinaryHeap, Element}

-- The handler is the name of a piece of the user's code.
pub record Timer : Type 0 where
  pub id : ℕ
  pub timeout : Timestamp
  pub handler : ℕ

-- The copy of id and time, and the weak pointer.
pub record WeakTimerHolder : Type 0 where
  pub id : ℕ
  pub timeout : Timestamp
  pub weak_timer_ptr : ℕ

-- `operator<` of the holders.
unfoldable pub holder_less : WeakTimerHolder → WeakTimerHolder → Bool
holder_less lhs rhs = less lhs.timeout rhs.timeout && ltb lhs.id rhs.id

abbrev pub no_holder : WeakTimerHolder
no_holder = record { id = 0; timeout = record { tv_sec = pos 0; tv_usec = 0 }; weak_timer_ptr = 0 }

instance abbrev pub holder_element : Element WeakTimerHolder
holder_element = record { less = holder_less; initial = no_holder }

-- The queue, `Timer::timerIds_`, and the shared timers that are still held, by address. `timerfd`
-- is the time that the timerfd is set to, and `fresh_ptr` the next address.
pub record TimerQueue : Type 0 where
  pub queue : BinaryHeap WeakTimerHolder
  pub timerfd : Option Timestamp
  pub timer_ids : ℕ
  pub timers : ℕ → Option Timer
  pub fresh_ptr : ℕ

abbrev pub put_timer : (ℕ → Option Timer) → ℕ → Option Timer → ℕ → Option Timer
put_timer timers p t q = if q == p then t else timers q

pub start : TimerQueue
start = record {
  queue = BinaryHeap.of_capacity 100;
  timerfd = none;
  timer_ids = 1;
  timers = λ p. none;
  fresh_ptr = 0;
}

-- `updateTimerfd(timeout)`, where `timerfd_settime` succeeds; a failure of it is only logged.
pub update_timerfd : TimerQueue → Timestamp → TimerQueue
update_timerfd q t = record q { timerfd = some t }

-- The common end of the three `insert`: the weak holder of the timer at `p`.
pub insert_holder : TimerQueue → ℕ → ℕ → Timestamp → Run TimerQueue
insert_holder q p id timeout =
    let armed = if BinaryHeap.empty q.queue then update_timerfd q timeout else q in
    do
      heap ← BinaryHeap.insert q.queue (record { id = id; timeout = timeout; weak_timer_ptr = p })
      ok (record armed { queue = heap })

-- `insert(const Timer &)`: the address of the shared copy that the caller gets.
pub insert_timer : TimerQueue → Timer → Run (ℕ × TimerQueue)
insert_timer q t = if t.id == 0 then fault thrown else do
  let p = q.fresh_ptr
  q' ← insert_holder q p t.id t.timeout
  ok (p, record q' { timers = put_timer q.timers p (some t); fresh_ptr = suc p })

-- `insert(timeout, handler)`, which gives the timer the next id.
pub insert : TimerQueue → Timestamp → ℕ → Run (ℕ × TimerQueue)
insert q timeout handler = do
  let p = q.fresh_ptr
  let t : Timer = record { id = q.timer_ids; timeout = timeout; handler = handler }
  q' ← insert_holder q p q.timer_ids timeout
  ok (
    p,
    record q' {
      timers = put_timer q.timers p (some t);
      fresh_ptr = suc p;
      timer_ids = suc q.timer_ids;
    },
  )

-- `insert(const std::shared_ptr<Timer> &)`
pub insert_shared : TimerQueue → ℕ → Run TimerQueue
insert_shared q p = do t ← or_fault (q.timers p) null_pointer; insert_holder q p t.id t.timeout

-- `destroy()`: the timerfd is closed and the heap emptied.
pub destroy : TimerQueue → TimerQueue
destroy q = record q { timerfd = none; queue = BinaryHeap.clear q.queue }

-- `getMinTimestamp()`
pub get_min_timestamp : TimerQueue → Run (Option Timestamp)
get_min_timestamp q =
    if BinaryHeap.empty q.queue
    then ok none
    else do h ← BinaryHeap.find_min q.queue; ok (some h.timeout)

-- `EventLoop::runAt`
pub run_at : TimerQueue → Timestamp → ℕ → Run (ℕ × TimerQueue)
run_at q timestamp handler = insert q timestamp handler

-- `EventLoop::runAfter`, at the time `now`.
pub run_after : Timestamp → TimerQueue → Timestamp → ℕ → Run (ℕ × TimerQueue)
run_after now q timestamp handler = insert q (Timestamp.add timestamp now) handler

module _ (run_handler : ℕ → TimerQueue → Run TimerQueue) where
  -- `if (!expired()) lock()->runHandler()`
  run_timer : TimerQueue → Option Timer → Run TimerQueue
  run_timer q none = ok q
  run_timer q (some t) = run_handler t.handler q

  -- The loop of `handleTimeoutEvents` at the time `now`.
  pub timeout_loop : ℕ → Timestamp → TimerQueue → Run TimerQueue
  timeout_loop zero now q = fault out_of_fuel
  timeout_loop (suc f) now q =
      let fire : WeakTimerHolder → Run TimerQueue = λ min. do
        q' ← run_timer q (q.timers min.weak_timer_ptr)
        heap ← BinaryHeap.delete_min q'.queue
        timeout_loop f now (record q' { queue = heap })
      in let round : Run TimerQueue = do
        min ← BinaryHeap.find_min q.queue
        let rest = fire min
        if less now min.timeout then ok q else rest
        in if BinaryHeap.empty q.queue then ok q else round

  -- `handleTimeoutEvents()` at the time `now`, with fuel for its loop.
  pub handle_timeout_events : ℕ → Timestamp → TimerQueue → Run TimerQueue
  handle_timeout_events f now q = if BinaryHeap.empty q.queue then ok q else do
    q' ← timeout_loop f now q
    if BinaryHeap.empty q'.queue
        then ok q'
        else do min ← BinaryHeap.find_min q'.queue; ok (update_timerfd q' min.timeout)
