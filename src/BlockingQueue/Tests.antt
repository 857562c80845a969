-- ===== src/BlockingQueue/Tests.antt =====
-- Threads that push and wait on a queue.
use liby_cpp.Base.{ℕ, refl, [], ◌∷◌}
use liby_cpp.BlockingQueue.{push_back}
use liby_cpp.BlockingQueue.Monitor.{
  Monitor, Steps, none_taken, step_after, pop_wait_blocks, push_notify, starting, Fair, Steps-Fair,
}

-- Thread 7 waits, and then 5 is pushed with `push_notify`, while thread 8 waits on.
abbrev blocked : Monitor ℕ
blocked = record (starting []) { waiting = 8 ∷ 7 ∷ [] }

abbrev notified : Monitor ℕ
notified = record {
  queue = record { queue_ = 5 ∷ [] };
  waiting = 8 ∷ [];
  awake = 7 ∷ [];
  put_in = 5 ∷ [];
  taken_out = [];
  quiet = 0;
}

notified-Steps : Steps (starting []) notified
unfolding push_back
notified-Steps =
    step_after
      (step_after (step_after none_taken (pop_wait_blocks 7 refl)) (pop_wait_blocks 8 refl))
      (push_notify 5 1 7 refl)

Steps-Fair_example : Fair notified
Steps-Fair_example = Steps-Fair [] notified notified-Steps
