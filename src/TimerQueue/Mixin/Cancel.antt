-- ===== src/TimerQueue/Mixin/Cancel.antt =====
-- src/TimerMixin.cpp, src/TimerQueue.cpp: a timer that was cancelled does not fire.
use mathlib.Core.Path.{subst}
use liby_cpp.Base.{
  ℕ, zero, suc, ◌≡◌, refl, sym, ap, ◌∙◌, Bool, true, false, Bool-cases, inl, inr, Option, none,
  some, ◌==◌, ==_iff, if◌then◌else◌, Run, ok, ◌>>=◌, bind-cong, ok-inj,
}
use liby_cpp.Timestamp.{Timestamp, less}
use liby_cpp.BinaryHeap
use liby_cpp.BinaryHeap.{BinaryHeap}
use liby_cpp.TimerQueue.{
  Timer, holder_element, TimerQueue, run_timer, timeout_loop, handle_timeout_events, update_timerfd,
}
use liby_cpp.TimerQueue.Mixin.{TimerMixin, find_holder, release, cancel_timer}

-- No timer that is held has the handler `h`.
abbrev pub Without : ℕ → TimerQueue → Type 0
Without h q = (p : ℕ) (t : Timer) → q.timers p ≡ some t → ¬ (t.handler ≡ h)

-- What the loop does behind a handler.
abbrev after : ℕ → Timestamp → (ℕ → TimerQueue → Run TimerQueue) → TimerQueue → Run TimerQueue
after f now run_handler q' = do
  heap ← BinaryHeap.delete_min q'.queue
  timeout_loop run_handler f now (record q' { queue = heap })

if-cong {ℓ} :
    {A : Type ℓ} (b : Bool) (x : A) {y z : A} → y ≡ z → (if b then x else y) ≡ (if b then x else z)
if-cong true x e = refl
if-cong false x e = e

module _ (run_handler other : ℕ → TimerQueue → Run TimerQueue) (h : ℕ)
    (agree : (g : ℕ) (q : TimerQueue) → ¬ (g ≡ h) → run_handler g q ≡ other g q)
    (keep : (g : ℕ) (q q' : TimerQueue)
      → ¬ (g ≡ h)
      → Without h q
      → run_handler g q ≡ ok q'
      → Without h q') where
  run_timer-agree :
      (q : TimerQueue) (o : Option Timer)
      → ((t : Timer) → o ≡ some t → ¬ (t.handler ≡ h))
      → run_timer run_handler q o ≡ run_timer other q o
  unfolding run_timer
  run_timer-agree q none without = refl
  run_timer-agree q (some t) without = agree t.handler q (without t refl)

  run_timer-keep :
      (q q' : TimerQueue) (o : Option Timer)
      → ((t : Timer) → o ≡ some t → ¬ (t.handler ≡ h))
      → Without h q
      → run_timer run_handler q o ≡ ok q'
      → Without h q'
  unfolding run_timer
  run_timer-keep q q' none none_here without e = subst (Without h) (ok-inj e) without
  run_timer-keep q q' (some t) here without e = keep t.handler q q' (here t refl) without e

  timeout_loop-agree :
      (f : ℕ) (now : Timestamp) (q : TimerQueue)
      → Without h q
      → timeout_loop run_handler f now q ≡ timeout_loop other f now q
  unfolding timeout_loop
  timeout_loop-agree zero now q without = refl
  timeout_loop-agree (suc f) now q without = if-cong (BinaryHeap.empty q.queue) (ok q) (
      bind-cong (BinaryHeap.find_min q.queue) _ _ λ min _. if-cong (less now min.timeout) (ok q) (
        let o = q.timers min.weak_timer_ptr in
        let here = without min.weak_timer_ptr in
        bind-cong (run_timer run_handler q o) _ (after f now other) (λ q' e.
          bind-cong (BinaryHeap.delete_min q'.queue) _ _ λ heap _.
            timeout_loop-agree f now (record q' { queue = heap })
              (run_timer-keep q q' o here without e))
        ∙ ap (λ (call : Run TimerQueue). call >>= after f now other) (run_timer-agree q o here)))

  handle_timeout_events-agree :
      (f : ℕ) (now : Timestamp) (q : TimerQueue)
      → Without h q
      → handle_timeout_events run_handler f now q ≡ handle_timeout_events other f now q
  unfolding handle_timeout_events
  handle_timeout_events-agree f now q without = if-cong (BinaryHeap.empty q.queue) (ok q) (
      ap
        (λ (call : Run TimerQueue). call >>= λ q'.
          if BinaryHeap.empty q'.queue
          then ok q'
          else BinaryHeap.find_min q'.queue >>= λ min. ok (update_timerfd q' min.timeout))
        (timeout_loop-agree f now q without))

-- The store without the timer at `p`.
Without-release :
    (h p : ℕ) (q : TimerQueue)
    → ((p' : ℕ) (t : Timer) → ¬ (p' ≡ p) → q.timers p' ≡ some t → ¬ (t.handler ≡ h))
    → Without h (release (some p) q)
Without-release h p q only p' t here = elim (Bool-cases (p' == p)) [
  | inl e ↦
      let gone : (if p' == p then none else q.timers p') ≡ none = rw e refl in
      absurd (cc (here, gone))
  | inr e ↦
      let stays : (if p' == p then none else q.timers p') ≡ q.timers p' = rw e refl in
      only p' t (λ same. cc (e, (==_iff p' p).1 same)) (sym stays ∙ here)
]

-- After a timer was cancelled that no other timer shares its handler `h` with, `handleTimeoutEvents`
-- does the same whatever `h` would do, however many timers are due and at whatever time: `h` is not
-- called. The other handlers must not make a timer for `h`.
pub cancel_timer-Silent :
    (run_handler other : ℕ → TimerQueue → Run TimerQueue) (h id p f : ℕ) (now : Timestamp)
    (m : TimerMixin) (q : TimerQueue)
    → ((g : ℕ) (q : TimerQueue) → ¬ (g ≡ h) → run_handler g q ≡ other g q)
    → ((g : ℕ) (q q' : TimerQueue)
        → ¬ (g ≡ h)
        → Without h q
        → run_handler g q ≡ ok q'
        → Without h q')
    → find_holder id m.timer_holders ≡ some p
    → ((p' : ℕ) (t : Timer) → ¬ (p' ≡ p) → q.timers p' ≡ some t → ¬ (t.handler ≡ h))
    → handle_timeout_events run_handler f now (cancel_timer id (m, q)).1
      ≡ handle_timeout_events other f now (cancel_timer id (m, q)).1
unfolding cancel_timer
cancel_timer-Silent run_handler other h id p f now m q agree keep held only =
    handle_timeout_events-agree run_handler other h agree keep f now
      (release (find_holder id m.timer_holders) q)
      (subst (λ (o : Option ℕ). Without h (release o q)) (sym held) (Without-release h p q only))
