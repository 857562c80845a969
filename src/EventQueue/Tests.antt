-- ===== src/EventQueue/Tests.antt =====
-- A thread hands a handler to a loop.
use liby_cpp.Base.{◌<◌, ◌≡◌, ◌⊎◌, refl, arith, true, false, [], ◌∷◌}
use liby_cpp.BlockingQueue.{push_back}
use liby_cpp.EventQueue.{new_event_queue, push_handler, wakeup}
use liby_cpp.EventQueue.Wakeup.{
  Shared, Steps, begin, step_after, reads, pushes, rests, signals, Steps-wakes,
}

-- The loop has read the first 1000 of the counter, then handler 4 came.
abbrev one_handler : Shared
one_handler = record {
  equeue = record { eventfp_ = true; counter = 1; event_handlers = record { queue_ = 4 ∷ [] } };
  unsignalled = 0;
  draining = false;
}

one_handler-Steps : Steps one_handler
unfolding new_event_queue push_handler push_back wakeup
one_handler-Steps =
    step_after
      (step_after (step_after (step_after begin (reads refl (omega arith))) (rests refl refl))
        (pushes 4))
      (signals 0 refl)

Steps-wakes_example : (one_handler.draining ≡ true) ⊎ (0 < one_handler.equeue.counter)
Steps-wakes_example = Steps-wakes one_handler 4 [] one_handler-Steps refl refl
