-- ===== src/Poller/Select/Safety.antt =====
-- src/PollerSelect.cpp: `loop_once` makes no wrong access to memory.
use liby_cpp.Base.{
  ℕ, ◌≤◌, ◌<◌, ◌≡◌, Bool, List, Option, some, arith, Safe, safe, Safe-bind, Safe-if,
}
use liby_cpp.Timestamp.{Timestamp}
use liby_cpp.Poller.{Poller, Call}
use liby_cpp.Poller.Safety
use liby_cpp.Poller.Select.{
  Sets, Answer, fd_setsize, rounds, visit_writ, visit_at, visit, loop_once, wait_time,
}

-- The table has the `FD_SETSIZE` places that the loop may look at, `maxfd_` is no more than that, the
-- places hold channels that are alive, and the loop looks at all places that are set.
pub record Sound (w : Poller Sets) : Type 0 where
  pub places : fd_setsize ≤ w.open_max
  pub inside : rounds w ≤ fd_setsize
  pub alive : Safety.Live w
  pub watched : (fd p : ℕ) → w.channels_ fd ≡ some p → fd < rounds w

pub forgets :
    (w : Poller Sets) (ticks loops afters : List ℕ)
    → Sound w
    → Sound (record w {
      next_tick_handlers = ticks;
      next_loop_handlers = loops;
      after_loop_handlers = afters;
    })
forgets w ticks loops afters s = record {
  places = s.places;
  inside = s.inside;
  alive = s.alive;
  watched = s.watched;
}

module _ (call : Call Sets)
    (keeps : (h : ℕ) (w : Poller Sets) → Sound w → Safe Sound (call h w)) where
  pub live : (w : Poller Sets) → Sound w → Safety.Live w
  live w s = s.alive

  visit_writ-Safe :
      (a : Answer) (fd : ℕ) (flag : Bool) (w : Poller Sets)
      → fd < fd_setsize
      → Sound w
      → Safe (λ r. Sound r.1) (visit_writ call a fd flag w)
  unfolding visit_writ
  visit_writ-Safe a fd flag w inside s =
      Safe-if (a.wset fd)
        (λ _. Safety.get_channel-Safe w fd _ (omega (arith, s.places)) (safe s) λ p e.
          Safe-bind (Safety.handle_writ_event-Safe call Sound keeps live forgets fd p w e s)
            λ w' s'. safe s')
        λ _. safe s

  visit_at-Safe :
      (a : Answer) (fd p : ℕ) (w : Poller Sets)
      → fd < fd_setsize
      → w.channels_ fd ≡ some p
      → Sound w
      → Safe (λ r. Sound r.1) (visit_at call a fd p w)
  unfolding visit_at
  visit_at-Safe a fd p w inside e s =
      Safe-if (a.eset fd)
        (λ _.
          Safe-bind (Safety.handle_erro_event-Safe call Sound keeps live forgets fd p w e s)
            λ w' s'. safe s')
        λ _.
          Safe-bind
            (Safe-if (a.rset fd)
              (λ _. Safety.handle_read_event-Safe call Sound keeps live forgets fd p w e s)
              λ _. safe s)
            λ w' s'. visit_writ-Safe a fd (a.rset fd) w' inside s'

  pub visit-Safe :
      (a : Answer) (fd : ℕ) (w : Poller Sets)
      → Sound w
      → fd < rounds w
      → Safe (λ r. Sound r.1) (visit call a fd w)
  unfolding visit
  visit-Safe a fd w s inside =
      Safety.get_channel-Safe w fd _ (omega (arith, s.inside, s.places)) (safe s)
        λ p e. visit_at-Safe a fd p w (omega (arith, s.inside)) e s

  -- When all handlers keep the table sound, so does `loop_once`, and it makes no wrong access to
  -- memory, whatever `select` answers: the descriptors are inside of the sets and of the table, and
  -- no event is given to a channel that is gone.
  pub loop_once-Sound :
      (select : Sets → Option Timestamp → Answer) (now : Timestamp) (ticks fuel : ℕ)
      (ts : Option Timestamp) (w : Poller Sets)
      → Sound w
      → Safe Sound (loop_once call select now ticks fuel ts w)
  unfolding loop_once
  loop_once-Sound select now ticks fuel ts w s =
      Safe-bind (Safety.run_next_loop_handlers-Safe call Sound keeps live forgets ticks w s)
        λ w1 s1.
          Safe-bind
            (Safety.scan-Safe call Sound keeps live forgets rounds
              (visit call (select w1.own (wait_time ts now)))
              (λ i v good inside. visit-Safe (select w1.own (wait_time ts now)) i v good inside)
              ticks fuel 0 _ w1 s1)
            λ w2 s2. Safety.run_after_loop_handlers-Safe call Sound keeps live forgets ticks w2 s2
