-- ===== src/TimerQueue/Tests.antt =====
-- src/TimerQueue.h and src/TimerQueue.cpp: the theorems at a queue of one timer.
use mathlib.Core.Path.{subst}
use liby_cpp.Base.{
  ◌==◌, if◌then◌else◌, ne→==, ok-inj, fault, thrown, ℕ, zero, suc, ◌≤◌, ◌<◌, ◌≡◌, refl, [], ◌∷◌,
  none, some, arith, pos, Run, ok, Returns,
}
use liby_cpp.Timestamp.{Timestamp, less}
use liby_cpp.BinaryHeap.Order.{entry}
use liby_cpp.TimerQueue.{
  no_holder, Timer, holder_element, TimerQueue, update_timerfd, insert, handle_timeout_events,
}
use liby_cpp.TimerQueue.Mixin.{TimerMixin, find_holder, cancel_timer}
use liby_cpp.TimerQueue.Mixin.Cancel.{Without, cancel_timer-Silent}
use liby_cpp.TimerQueue.Late.{IsIssued, due_timer-late}

abbrev at : ℕ → Timestamp
at sec = record { tv_sec = pos sec; tv_usec = 0 }

-- Timer 1 waits for second 50.
abbrev waiting : TimerQueue
waiting = record {
  queue = record {
    heap =
        no_holder
        ∷ record { id = 1; timeout = at 50; weak_timer_ptr = 0 }
        ∷ no_holder
        ∷ no_holder
        ∷ [];
    size_ = 1;
  };
  timerfd = some (at 50);
  timer_ids = 2;
  timers = λ p. none;
  fresh_ptr = 1;
}

waiting-issued : (c : ℕ) → 0 < c → c ≤ 1 → (entry waiting.queue.heap c).id < 2
waiting-issued zero p q = absurd (omega arith)
waiting-issued (suc zero) p q = omega arith
waiting-issued (suc (suc c)) p q = absurd (omega arith)

waiting-IsIssued : IsIssued waiting
waiting-IsIssued = record { fits = omega arith; issued = waiting-issued }

-- Timer 2 is due at second 10, and does not fire at second 20.
due_timer-late_example :
    Returns
      (λ r.
        (run_handler : ℕ → TimerQueue → Run TimerQueue) (f : ℕ)
        → handle_timeout_events run_handler (suc f) (at 20) r.1 ≡ ok (update_timerfd r.1 (at 50)))
      (insert waiting (at 10) 7)
unfolding less
due_timer-late_example =
    due_timer-late waiting (at 10) (at 20) 7 waiting-IsIssued (omega arith) refl

-- Timer 1, at address 0, has the handler 7 and is held by an object.
abbrev held_timer : Timer
held_timer = record { id = 1; timeout = at 50; handler = 7 }

abbrev held : TimerQueue
held = record waiting { timers = λ p. if p == 0 then some held_timer else none }

abbrev holder : TimerMixin
holder = record { timer_holders = (1, 0) ∷ [] }

abbrev quiet : ℕ → TimerQueue → Run TimerQueue
quiet g q = ok q

abbrev throwing : ℕ → TimerQueue → Run TimerQueue
throwing g q = if g == 7 then fault thrown else ok q

quiet-throwing : (g : ℕ) (q : TimerQueue) → ¬ (g ≡ 7) → quiet g q ≡ throwing g q
quiet-throwing g q ne = rw (ne→== g 7 ne) refl

quiet-keep :
    (g : ℕ) (q q' : TimerQueue) → ¬ (g ≡ 7) → Without 7 q → quiet g q ≡ ok q' → Without 7 q'
quiet-keep g q q' ne without e = subst (Without 7) (ok-inj e) without

no_other : (p' : ℕ) (t : Timer) → ¬ (p' ≡ 0) → held.timers p' ≡ some t → ¬ (t.handler ≡ 7)
no_other p' t ne here =
    let nothing : held.timers p' ≡ none = rw (ne→== p' 0 ne) refl in absurd (cc (here, nothing))

cancel_timer-Silent_example :
    handle_timeout_events quiet 5 (at 60) (cancel_timer 1 (holder, held)).1
    ≡ handle_timeout_events throwing 5 (at 60) (cancel_timer 1 (holder, held)).1
unfolding find_holder
cancel_timer-Silent_example =
    cancel_timer-Silent quiet throwing 7 1 0 5 (at 60) holder held quiet-throwing quiet-keep refl
      no_other
