-- ===== src/BlockingQueue.antt =====
-- src/BlockingQueue.h: the queue, one step for each call since each holds the mutex, and the threads
-- that wait in `pop_wait`. `empty` and `front` take no lock.
pub mod Monitor
mod Tests
use liby_cpp.Base.{ℕ, Bool, true, false, List, [], ◌∷◌, ◌++◌, Run, ok, fault, out_of_bounds, ◌>>=◌}

module _ {ℓ} (T : Type ℓ) where
  pub record BlockingQueue : Type ℓ where
    pub queue_ : List T

module _ {ℓ} {T : Type ℓ} where
  -- `BlockingQueue({...})`
  unfoldable pub of_elements : List T → BlockingQueue T
  of_elements elements = record { queue_ = elements }

  -- What `push_notify`, `push_broadcast` and `push_back` all do to the list.
  unfoldable pub push_back : BlockingQueue T → T → BlockingQueue T
  push_back q e = record { queue_ = q.queue_ ++ e ∷ [] }

  -- `front()`
  unfoldable pub front : BlockingQueue T → Run T
  front q = elim q.queue_ [ [] ↦ fault out_of_bounds | t ∷ rest ↦ ok t ]

  -- `pop()`
  unfoldable pub pop : BlockingQueue T → Run (BlockingQueue T)
  pop q = elim q.queue_ [ [] ↦ fault out_of_bounds | t ∷ rest ↦ ok (record { queue_ = rest }) ]

  -- `pop_front()` and `pop_front_imp()`
  unfoldable pub pop_front : BlockingQueue T → Run (T × BlockingQueue T)
  pop_front q = do t ← front q; rest ← pop q; ok (t, rest)

  -- `empty()`
  unfoldable pub is_empty_queue : BlockingQueue T → Bool
  is_empty_queue q = elim q.queue_ [ [] ↦ true | t ∷ rest ↦ false ]
