-- ===== src/Poller/Select/Ready.antt =====
-- src/PollerSelect.cpp: the test of `nready` in the loop leaves no descriptor out.
use liby_cpp.Base.{
  ℕ, suc, ◌≤◌, ◌<◌, ◌≡◌, refl, Bool, true, false, ◌||◌, [], lt→ltb, arith, Option-cases, inl, inr,
  ok, Safe, Safe-Then,
}
use liby_cpp.Poller.{Poller, Call, get_channel}
use liby_cpp.Poller.Safety
use liby_cpp.Poller.Scan.{scan}
use liby_cpp.Poller.Scan.Full.{count_ready, scan_all, scan-scan_all}
use liby_cpp.Poller.Select.{Sets, Answer, fd_setsize, rounds, visit_writ, visit_at, visit}
use liby_cpp.Poller.Select.Safety.{Sound, forgets, live, visit-Safe}

-- Some bit of the descriptor is set in the answer.
abbrev pub is_ready : Answer → ℕ → Bool
is_ready a fd = a.eset fd || (a.rset fd || a.wset fd)

none_of : (a b c : Bool) → (a || (b || c)) ≡ false → (a ≡ false) × (b ≡ false) × (c ≡ false)
none_of false false false h = (refl, refl, refl)
none_of false false true h = absurd cc
none_of false true c h = absurd cc
none_of true b c h = absurd cc

visit-idle :
    (call : Call Sets) (a : Answer) (fd : ℕ) (w : Poller Sets)
    → Sound w
    → fd < rounds w
    → is_ready a fd ≡ false
    → visit call a fd w ≡ ok (false, w)
unfolding visit visit_at visit_writ get_channel
visit-idle call a fd w s inside h =
    let (e, r, t) = none_of (a.eset fd) (a.rset fd) (a.wset fd) h in
    rw (lt→ltb fd w.open_max (omega (arith, s.inside, s.places)))
      (elim (Option-cases (w.channels_ fd)) [
        | inl n ↦ rw n refl
        | inr (p, n) ↦ rw (n, e, r, t) refl
      ])

-- When all handlers keep the table sound, no handler waits for the next tick at the start, and
-- `select` counts at least the descriptors that have a bit in its answer: the loop that stops at
-- `nready` 0 does the same as one that goes through all descriptors below `maxfd_`.
pub scan-full :
    (call : Call Sets) (keeps : (h : ℕ) (w : Poller Sets) → Sound w → Safe Sound (call h w))
    (a : Answer) (ticks : ℕ) (w : Poller Sets)
    → Sound w
    → w.next_tick_handlers ≡ []
    → count_ready (is_ready a) 0 fd_setsize ≤ a.nready
    → scan call rounds (visit call a) ticks (suc fd_setsize) 0 a.nready w
      ≡ scan_all call rounds (visit call a) ticks (suc fd_setsize) 0 w
scan-full call keeps a ticks w s no_ticks counted =
    scan-scan_all call rounds (visit call a) Sound fd_setsize ticks (is_ready a)
      (λ v good. good.inside)
      (λ i v good inside. Safe-Then (visit-Safe call keeps a i v good inside))
      (λ v good. Safe-Then (
        Safety.run_next_tick_handlers-Safe call Sound keeps (live call keeps) forgets ticks v good))
      (visit-idle call a) fd_setsize 0 a.nready w s no_ticks (omega arith) counted
