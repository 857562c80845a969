-- ===== src/EventQueue/Wakeup.antt =====
-- src/EventQueue.cpp, src/EventLoop.cpp: threads that call `runEventHandler` while the loop reads the
-- eventfd and runs handlers, as a step relation.
use liby_cpp.Base.{
  ℕ, suc, ◌+◌, ◌-◌, ◌^◌, ◌<◌, ◌≡◌, refl, ap, ◌⊎◌, inl, inr, Bool, true, false, List, [], ◌∷◌, ◌++◌,
  ltb, Bool-cases, ltb-ge, arith, length, ok,
}
use liby_cpp.BlockingQueue.{BlockingQueue, pop_front, push_back}
use liby_cpp.EventQueue.{EventQueue, new_event_queue, push_handler, wakeup, run_event_handler}

-- The queue; how many threads have pushed a handler and not yet called `wakeup`; whether the loop is
-- between its read of the eventfd and the end of the loop over the handlers.
pub record Shared : Type 0 where
  pub equeue : EventQueue
  pub unsignalled : ℕ
  pub draining : Bool

-- One step of some thread. `runEventHandler` is two steps.
pub data Step (s : Shared) : Shared → Type 0 where
  pushes :
      (h : ℕ)
      → Step s (record s { equeue = push_handler s.equeue h; unsignalled = suc s.unsignalled })
  signals :
      (n : ℕ)
      → s.unsignalled ≡ suc n
      → Step s (record s { equeue = wakeup s.equeue; unsignalled = n })
  reads :
      s.draining ≡ false
      → 0 < s.equeue.counter
      → Step s (record s { equeue = record s.equeue { counter = 0 }; draining = true })
  runs :
      (h : ℕ) (rest : BlockingQueue ℕ)
      → s.draining ≡ true
      → pop_front s.equeue.event_handlers ≡ ok (h, rest)
      → Step s (record s { equeue = record s.equeue { event_handlers = rest } })
  rests :
      s.draining ≡ true
      → s.equeue.event_handlers.queue_ ≡ []
      → Step s (record s { draining = false })

pub data Steps : Shared → Type 0 where
  begin : Steps (record { equeue = new_event_queue; unsignalled = 0; draining = false })
  step_after : {s s' : Shared} → Steps s → Step s s' → Steps s'

-- The eventfd is open, and a handler in the queue is known of: the loop is at the handlers, or the
-- eventfd is readable, or a thread is about to make it so.
pub record Known (s : Shared) : Type 0 where
  pub is_open : s.equeue.eventfp_ ≡ true
  pub known :
      (s.equeue.event_handlers.queue_ ≡ [])
      ⊎ ((s.draining ≡ true) ⊎ (0 < s.equeue.counter + s.unsignalled))

wakeup-lem :
    (q : EventQueue) → q.eventfp_ ≡ true → (0 < (wakeup q).counter) × ((wakeup q).eventfp_ ≡ true)
unfolding wakeup
wakeup-lem q e = elim (Bool-cases (ltb q.counter (2 ^ 64 - 2))) [
  | inl h ↦ rw (e, h) (omega arith, refl)
  | inr h ↦ rw (e, h) (omega (arith, ltb-ge q.counter (2 ^ 64 - 2) h), refl)
]

Step-Known : (s s' : Shared) → Step s s' → Known s → Known s'
unfolding push_handler
Step-Known s s' (pushes h) k = record { is_open = k.is_open; known = inr (inr (omega arith)) }
Step-Known s s' (signals n e) k = record {
  is_open = (wakeup-lem s.equeue k.is_open).1;
  known = inr (inr (omega (arith, (wakeup-lem s.equeue k.is_open).0)));
}
Step-Known s s' (reads d more) k = record { is_open = k.is_open; known = inr (inl refl) }
Step-Known s s' (runs h rest d e) k = record { is_open = k.is_open; known = inr (inl d) }
Step-Known s s' (rests d nothing) k = record { is_open = k.is_open; known = inl nothing }

Steps-Known : (s : Shared) → Steps s → Known s
unfolding new_event_queue
Steps-Known s begin = record { is_open = refl; known = inl refl }
Steps-Known s' (step_after {s} steps step) = Step-Known s s' step (Steps-Known s steps)

-- No handler is forgotten: whatever the threads have done, when a handler is in the queue and no
-- thread is between its push and its wake-up, the loop is at the handlers or can read the eventfd,
-- so that the poller reports it.
pub Steps-wakes :
    (s : Shared) (h : ℕ) (rest : List ℕ)
    → Steps s
    → s.equeue.event_handlers.queue_ ≡ h ∷ rest
    → s.unsignalled ≡ 0
    → (s.draining ≡ true) ⊎ (0 < s.equeue.counter)
Steps-wakes s h rest steps waits none_between = elim (Steps-Known s steps).known [
  | inl nothing ↦ absurd (omega (arith, ap length nothing, ap length waits))
  | inr (inl d) ↦ inl d
  | inr (inr more) ↦ inr (omega (arith, more, none_between))
]

-- `runEventHandler` puts the handler behind the others.
pub run_event_handler-queue :
    (q : EventQueue) (h : ℕ)
    → (run_event_handler q h).event_handlers.queue_ ≡ q.event_handlers.queue_ ++ h ∷ []
unfolding run_event_handler push_handler wakeup push_back
run_event_handler-queue q h = ground arith
