-- ===== src/Poller/Poll/Safety.antt =====
-- src/PollerPoll.cpp: `loop_once` makes no wrong access to memory.
use liby_cpp.Base.{
  ℕ, zero, suc, ◌<◌, ◌≡◌, refl, ap, sym, ◌∙◌, Bool, ◌||◌, List, [], ◌∷◌, Option, none, some,
  Option-cases, inl, inr, get_elem?, get_elem?-ge, length, ℤ, pos, negsuc, arith, Safe, safe,
  Safe-bind, Safe-if,
}
use liby_cpp.Timestamp.{Timestamp}
use liby_cpp.Poller.{Poller, Call}
use liby_cpp.Poller.Safety
use liby_cpp.Poller.Poll.{
  PollFds, PollFd, Revents, Answer, fill, rounds, visit_writ, visit_at, visit_entry, visit,
  loop_once, inter_ms,
}

-- Every descriptor among the entries is a place of the table, which has `size` places; the
-- places that are set hold channels that are alive, and each of them has an entry.
pub record Polled (size : ℕ) (w : Poller PollFds) : Type 0 where
  pub places : w.open_max ≡ size
  pub inside :
      (i fd : ℕ) (entry : PollFd) → get_elem? w.own i ≡ some entry → entry.fd ≡ pos fd → fd < size
  pub inside_place : (fd p : ℕ) → w.channels_ fd ≡ some p → fd < size
  pub alive : Safety.Live w
  pub entered : (fd p : ℕ) → w.channels_ fd ≡ some p → fd < length w.own

length-fill : (rs : List Revents) (fds : PollFds) → length (fill rs fds) ≡ length fds
length-fill [] fds = refl
length-fill (r ∷ rs) [] = refl
length-fill (r ∷ rs) (f ∷ fds) = ap suc (length-fill rs fds)

-- `poll` changes no descriptor.
get_elem?-fill :
    (rs : List Revents) (fds : PollFds) (i : ℕ) (entry : PollFd)
    → get_elem? (fill rs fds) i ≡ some entry
    → (old : PollFd) × (get_elem? fds i ≡ some old) × (entry.fd ≡ old.fd)
get_elem?-fill [] fds i entry e = (entry, e, refl)
get_elem?-fill (r ∷ rs) [] i entry e = absurd cc
get_elem?-fill (r ∷ rs) (f ∷ fds) zero entry e =
    (f, refl, ap (λ (o : Option PollFd). elim o [ none ↦ entry.fd | some x ↦ x.fd ]) (sym e))
get_elem?-fill (r ∷ rs) (f ∷ fds) (suc i) entry e = get_elem?-fill rs fds i entry e

module _ (size : ℕ) where
  pub forgets :
      (w : Poller PollFds) (ticks loops afters : List ℕ)
      → Polled size w
      → Polled size (record w {
        next_tick_handlers = ticks;
        next_loop_handlers = loops;
        after_loop_handlers = afters;
      })
  forgets w ticks loops afters s = record {
    places = s.places;
    inside = s.inside;
    inside_place = s.inside_place;
    alive = s.alive;
    entered = s.entered;
  }

  pub live : (w : Poller PollFds) → Polled size w → Safety.Live w
  live w s = s.alive

  filled :
      (rs : List Revents) (w : Poller PollFds)
      → Polled size w
      → Polled size (record w { own = fill rs w.own })
  filled rs w s = record {
    places = s.places;
    inside = λ i fd entry e same.
        let (old, e', same') = get_elem?-fill rs w.own i entry e in
        s.inside i fd old e' (sym same' ∙ same);
    inside_place = s.inside_place;
    alive = s.alive;
    entered = λ fd p h. omega (arith, s.entered fd p h, length-fill rs w.own);
  }

  module _ (call : Call PollFds)
      (keeps : (h : ℕ) (w : Poller PollFds) → Polled size w → Safe (Polled size) (call h w)) where
    visit_writ-Safe :
        (r : Revents) (fd : ℕ) (flag : Bool) (w : Poller PollFds)
        → fd < size
        → Polled size w
        → Safe (λ q. Polled size q.1) (visit_writ call r fd flag w)
    unfolding visit_writ
    visit_writ-Safe r fd flag w inside s =
        Safe-if r.pollout
          (λ _. Safety.get_channel-Safe w fd _ (omega (arith, s.places)) (safe s) λ p e.
            Safe-bind
              (Safety.handle_writ_event-Safe call (Polled size) keeps live forgets fd p w e s)
              λ w' s'. safe s')
          λ _. safe s

    visit_at-Safe :
        (r : Revents) (fd p : ℕ) (w : Poller PollFds)
        → fd < size
        → w.channels_ fd ≡ some p
        → Polled size w
        → Safe (λ q. Polled size q.1) (visit_at call r fd p w)
    unfolding visit_at
    visit_at-Safe r fd p w inside e s =
        Safe-if (r.pollerr || r.pollrdhup)
          (λ _.
            Safe-bind
              (Safety.handle_erro_event-Safe call (Polled size) keeps live forgets fd p w e s)
              λ w' s'. safe s')
          λ _.
            Safe-bind
              (Safe-if r.pollin
                (λ _.
                  Safety.handle_read_event-Safe call (Polled size) keeps live forgets fd p w e s)
                λ _. safe s)
              λ w' s'. visit_writ-Safe r fd r.pollin w' inside s'

    visit_entry-Safe :
        (fd : ℤ) (r : Revents) (w : Poller PollFds)
        → ((n : ℕ) → fd ≡ pos n → n < size)
        → Polled size w
        → Safe (λ q. Polled size q.1) (visit_entry call fd r w)
    unfolding visit_entry
    visit_entry-Safe (negsuc n) r w inside s = safe s
    visit_entry-Safe (pos fd) r w inside s =
        Safety.get_channel-Safe w fd _ (omega (arith, s.places, inside fd refl)) (safe s)
          λ p e. visit_at-Safe r fd p w (inside fd refl) e s

    visit-Safe :
        (i : ℕ) (w : Poller PollFds)
        → Polled size w
        → i < rounds w
        → Safe (λ q. Polled size q.1) (visit call i w)
    unfolding visit
    visit-Safe i w s below = elim (Option-cases (get_elem? w.own i)) [
      | inl e ↦ absurd (omega (arith, get_elem?-ge w.own i e))
      | inr (entry, e) ↦
          rw e (visit_entry-Safe entry.fd entry.revents w (λ n same. s.inside i n entry e same) s)
    ]

    -- When all handlers keep the descriptors of the entries within the table, which stays as large as
    -- it is, and the channels in it alive, then so does `loop_once` of PollerPoll, and it makes no
    -- wrong access to memory, whatever `poll` answers.
    pub loop_once-Polled :
        (poll : PollFds → ℤ → Answer) (now : Timestamp) (ticks fuel : ℕ) (ts : Option Timestamp)
        (w : Poller PollFds)
        → Polled size w
        → Safe (Polled size) (loop_once call poll now ticks fuel ts w)
    unfolding loop_once
    loop_once-Polled poll now ticks fuel ts w s =
        Safe-bind
          (Safety.run_next_loop_handlers-Safe call (Polled size) keeps live forgets ticks w s)
          λ w1 s1.
            let answer = poll w1.own (inter_ms ts now) in
            Safe-bind
              (Safety.scan-Safe call (Polled size) keeps live forgets rounds (visit call)
                (λ i v good below. visit-Safe i v good below) ticks fuel 0 _ _
                (filled answer.revents w1 s1))
              λ w2 s2.
                Safety.run_after_loop_handlers-Safe call (Polled size) keeps live forgets ticks w2
                  s2
