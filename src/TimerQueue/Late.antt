-- ===== src/TimerQueue/Late.antt =====
-- src/TimerQueue.h and src/TimerQueue.cpp: what the order of the timers does to the queue. Ids are
-- handed out in rising order, and `operator<` wants a smaller time and a smaller id.
use liby_cpp.Base.{
  ℕ, suc, ◌+◌, ◌/◌, ◌≤◌, ◌<◌, ◌≡◌, refl, ◌∙◌, ap, true, false, [], ◌∷◌, ◌++◌, arith, length,
  length-set, Run, ok, Returns, returns, Returns-map, pos,
}
use liby_cpp.Timestamp.{Timestamp, less}
use liby_cpp.BinaryHeap
use liby_cpp.BinaryHeap.{BinaryHeap}
use liby_cpp.BinaryHeap.Order.{IsStrictWeak, entry, entry-set}
use liby_cpp.BinaryHeap.Operations.{
  contents, make_room-HasRoom, insert-at_end, items-set_last, find_min-root, empty-size,
  of_capacity_lem,
}
use liby_cpp.TimerQueue.{
  WeakTimerHolder, holder_less, holder_element, TimerQueue, start, update_timerfd, insert_holder,
  insert, handle_timeout_events, timeout_loop,
}

abbrev at_second : ℕ → ℕ → WeakTimerHolder
at_second id sec = record {
  id = id;
  timeout = record { tv_sec = pos sec; tv_usec = 0 };
  weak_timer_ptr = 0;
}

-- `operator<` of the timers is no strict weak order: being incomparable is not transitive.
pub holder_less-not_weak : ¬ IsStrictWeak holder_less
unfolding holder_less less
holder_less-not_weak law =
    cc (law.neg_trans (at_second 2 2) (at_second 3 0) (at_second 1 1) refl refl)

-- A holder with a larger id is never less, whatever its time.
holder_less-younger : (lhs rhs : WeakTimerHolder) → rhs.id ≤ lhs.id → holder_less lhs rhs ≡ false
unfolding holder_less
holder_less-younger lhs rhs h = ground arith

-- The heap of the queue is within its vector, and its ids were handed out.
pub record IsIssued (q : TimerQueue) : Type 0 where
  pub fits : q.queue.size_ < length q.queue.heap
  pub issued : (c : ℕ) → 0 < c → c ≤ q.queue.size_ → (entry q.queue.heap c).id < q.timer_ids

abbrev pub root : TimerQueue → WeakTimerHolder
root q = entry q.queue.heap 1

-- What `insert(timeout, handler)` leaves.
pub record Appended (q : TimerQueue) (timeout : Timestamp) (r : ℕ × TimerQueue) : Type 0 where
  pub issued : IsIssued r.1
  pub at_end :
      contents r.1.queue
      ≡ contents q.queue
        ++ record { id = q.timer_ids; timeout = timeout; weak_timer_ptr = q.fresh_ptr } ∷ []
  pub same_root : 0 < q.queue.size_ → root r.1 ≡ root q
  pub same_timerfd : 0 < q.queue.size_ → r.1.timerfd ≡ q.timerfd
  pub grown : r.1.queue.size_ ≡ suc q.queue.size_

-- `insert(timeout, handler)` puts the new timer behind all the others, however early its time: the
-- root of the heap stays what it was, and a timerfd that is set stays as it is.
pub insert-Appended :
    (q : TimerQueue) (timeout : Timestamp) (handler : ℕ)
    → IsIssued q
    → Returns (Appended q timeout) (insert q timeout handler)
unfolding insert insert_holder
insert-Appended q timeout handler v =
    let h = q.queue in
    let n = h.size_ in
    let x : WeakTimerHolder = record {
      id = q.timer_ids;
      timeout = timeout;
      weak_timer_ptr = q.fresh_ptr;
    } in
    let room = BinaryHeap.make_room h in
    let r = make_room-HasRoom h v.fits in
    rw
      (insert-at_end h x v.fits (λ some_left.
        holder_less-younger x (entry h.heap ((n + 1) / 2))
          (omega (arith, v.issued ((n + 1) / 2) (omega arith) (omega arith)))))
      (returns (record {
        issued = record {
          fits = omega (arith, length-set room (suc n) x, r.long);
          issued = λ c p k. ground (arith, entry-set room (suc n) x c r.long, r.kept c, v.issued c);
        };
        at_end = items-set_last room n x r.long ∙ ap (λ l. l ++ x ∷ []) r.same;
        same_root = λ k. ground (arith, entry-set room (suc n) x 1 r.long, r.kept 1);
        same_timerfd = λ k. rw (empty-size h k);
        grown = refl;
      }))

-- With a root that is not due, `handleTimeoutEvents` runs no handler and takes no timer away: it
-- sets the timerfd to the time of the root, and a single round of its loop is enough.
idle :
    (run_handler : ℕ → TimerQueue → Run TimerQueue) (f : ℕ) (now : Timestamp) (q : TimerQueue)
    → 0 < q.queue.size_
    → q.queue.size_ < length q.queue.heap
    → less now (root q).timeout ≡ true
    → handle_timeout_events run_handler (suc f) now q ≡ ok (update_timerfd q (root q).timeout)
unfolding handle_timeout_events timeout_loop
idle run_handler f now q some_left fits early =
    rw (empty-size q.queue some_left, find_min-root q.queue (omega arith), early)
      (rw (empty-size q.queue some_left, find_min-root q.queue (omega arith)))

-- A timer that is inserted behind one that is not due yet does not fire, not even when it is due
-- itself: after `insert(timeout, handler)` into a queue whose root is later than `now`,
-- `handleTimeoutEvents` at `now` leaves the queue as it is and only sets the timerfd to the time of
-- that root, for every `timeout` and whatever the handlers do.
pub due_timer-late :
    (q : TimerQueue) (timeout now : Timestamp) (handler : ℕ)
    → IsIssued q
    → 0 < q.queue.size_
    → less now (root q).timeout ≡ true
    → Returns
        (λ r.
          (run_handler : ℕ → TimerQueue → Run TimerQueue) (f : ℕ)
          → handle_timeout_events run_handler (suc f) now r.1
            ≡ ok (update_timerfd r.1 (root q).timeout))
        (insert q timeout handler)
due_timer-late q timeout now handler v some_left early =
    Returns-map (insert-Appended q timeout handler v) λ r a. λ run_handler f.
      rw (← a.same_root some_left) (
        idle run_handler f now r.1 (omega (arith, a.grown)) a.issued.fits
          (rw (a.same_root some_left) early))

pub start-IsIssued : IsIssued start
unfolding start
start-IsIssued =
    rw (of_capacity_lem ⦃e = holder_element⦄ 100)
      (record { fits = omega arith; issued = λ c p k. absurd (omega arith) })
