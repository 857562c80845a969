-- ===== src/EventQueue.antt =====
-- src/EventQueue.h, src/EventQueue.cpp, src/EventLoop.cpp: the handlers that threads hand to a loop,
-- and the eventfd that wakes it, as it is built on Linux.
pub mod Wakeup
mod Tests
use liby_cpp.Base.{
  ℕ, zero, suc, ◌+◌, ◌-◌, ◌^◌, Bool, true, false, List, [], ◌∷◌, ltb, ◌==◌, if◌then◌else◌, Run, ok,
  fault, out_of_fuel, ◌>>=◌, ◌>>◌,
}
use liby_cpp.BlockingQueue.{BlockingQueue, push_back, pop_front, is_empty_queue}

-- The queue of handlers, by their numbers; whether the eventfd is open, and its counter. The channel
-- that reports the eventfd to the poller is left out.
pub record EventQueue : Type 0 where
  pub eventfp_ : Bool
  pub counter : ℕ
  pub event_handlers : BlockingQueue ℕ

-- `EventQueue(poller)`: the counter of the eventfd begins at 1000.
unfoldable pub new_event_queue : EventQueue
new_event_queue = record {
  eventfp_ = true;
  counter = 1000;
  event_handlers = record { queue_ = [] };
}

-- `destroy()`
unfoldable pub destroy : EventQueue → EventQueue
destroy q = record q { eventfp_ = false }

-- `pushHandler(handler)`
unfoldable pub push_handler : EventQueue → ℕ → EventQueue
push_handler q handler = record q { event_handlers = push_back q.event_handlers handler }

-- `wakeup()`: a write of 1, which does nothing when the counter is at its largest value or the
-- eventfd is closed.
unfoldable pub wakeup : EventQueue → EventQueue
wakeup q =
    if q.eventfp_
    then (if ltb q.counter (2 ^ 64 - 2) then record q { counter = suc q.counter } else q)
    else q

-- `EventLoop::runEventHandler(handler)`
unfoldable pub run_event_handler : EventQueue → ℕ → EventQueue
run_event_handler q handler = wakeup (push_handler q handler)

module _ (act : ℕ → EventQueue → Run EventQueue) where
  -- `while (!eventHandlers_.empty()) eventHandlers_.pop_front()();`
  unfoldable pub run_handlers : ℕ → EventQueue → Run EventQueue
  run_handlers zero q = fault out_of_fuel
  run_handlers (suc fuel) q = elim (is_empty_queue q.event_handlers) [
    | true ↦ ok q
    | false ↦ do
      r ← pop_front q.event_handlers
      q' ← act r.0 (record q { event_handlers = r.1 })
      run_handlers fuel q'
  ]

  -- The handler of the read event that `start()` sets: a read of the eventfd, which resets it to 0.
  unfoldable pub handle_event : ℕ → EventQueue → Run EventQueue
  handle_event fuel q =
      if q.eventfp_
      then (if q.counter == 0 then ok q else run_handlers fuel (record q { counter = 0 }))
      else ok q
