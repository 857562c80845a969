-- ===== src/Poller/Epoll/Safety.antt =====
-- src/PollerEpoll.cpp: `loop_once` makes no wrong access to memory.
use liby_cpp.Base.{
  ℕ, ◌<◌, ◌≡◌, ◌||◌, List, [], ◌∷◌, some, arith, ◌>>=◌, Safe, safe, Safe-bind, Safe-if,
}
use liby_cpp.Poller.{Poller, Call, run_next_tick_handlers}
use liby_cpp.Poller.Safety
use liby_cpp.Poller.Epoll.{Kernel, Event, Own, dispatch, each_event, loop_once}
use liby_cpp.Poller.Epoll.Mirror.{Laws, Sound, forgets}

-- The descriptors of the events are below the limit of open files.
unfoldable pub AllBelow : ℕ → List Event → Type 0
AllBelow limit [] = Unit
AllBelow limit (e ∷ events) = (e.fd < limit) × AllBelow limit events

module _ (kernel : Kernel) (limit : ℕ) (laws : Laws kernel limit) (call : Call (Own kernel))
    (keeps : (h : ℕ) (w : Poller (Own kernel))
      → Sound kernel limit laws w
      → Safe (Sound kernel limit laws) (call h w)) where
  live : (w : Poller (Own kernel)) → Sound kernel limit laws w → Safety.Live w
  live w s = s.alive

  dispatch-Safe :
      (e : Event) (fd p : ℕ) (w : Poller (Own kernel))
      → w.channels_ fd ≡ some p
      → Sound kernel limit laws w
      → Safe (Sound kernel limit laws) (dispatch kernel call e p w)
  unfolding dispatch
  dispatch-Safe e fd p w here s =
      let good = Sound kernel limit laws in
      let gone = forgets kernel limit laws in
      Safe-if (e.epollrdhup || e.epollerr)
        (λ _. Safety.handle_erro_event-Safe call good keeps live gone fd p w here s)
        λ _.
          Safe-if e.epollin
            (λ _. Safety.handle_read_event-Safe call good keeps live gone fd p w here s)
            λ _.
              Safe-if e.epollout
                (λ _. Safety.handle_writ_event-Safe call good keeps live gone fd p w here s)
                λ _. safe s

  each_event-Safe :
      (ticks : ℕ) (events : List Event) (w : Poller (Own kernel))
      → AllBelow limit events
      → Sound kernel limit laws w
      → Safe (Sound kernel limit laws) (each_event kernel call ticks events w)
  unfolding each_event AllBelow
  each_event-Safe ticks [] w inside s = safe s
  each_event-Safe ticks (e ∷ events) w inside s =
      let good = Sound kernel limit laws in
      let gone = forgets kernel limit laws in
      let rest : (v : Poller (Own kernel))
          → good v
          → Safe good
              (run_next_tick_handlers call ticks v >>= each_event kernel call ticks events) =
        λ v s'.
          Safe-bind (Safety.run_next_tick_handlers-Safe call good keeps live gone ticks v s')
            λ v' s''. each_event-Safe ticks events v' inside.1 s'' in
      Safety.get_channel-Safe w e.fd _ (omega (arith, inside.0, s.places)) (rest w s)
        λ p here. Safe-bind (dispatch-Safe e e.fd p w here s) rest

  -- When all handlers keep the table and the kernel's list in agreement, so does `loop_once`, and it
  -- makes no wrong access to memory, if the kernel reports events of descriptors below its limit:
  -- no event is given to a channel that is gone, also when a handler deletes the channel of a later
  -- event of the same round.
  pub loop_once-Safe :
      (epoll_wait : kernel.Instance → ℕ → List Event)
      → ((k : kernel.Instance) (room : ℕ) → AllBelow limit (epoll_wait k room))
      → (ticks : ℕ) (w : Poller (Own kernel)) → Sound kernel limit laws w
      → Safe (Sound kernel limit laws) (loop_once kernel call epoll_wait ticks w)
  unfolding loop_once
  loop_once-Safe epoll_wait inside ticks w s =
      let good = Sound kernel limit laws in
      let gone = forgets kernel limit laws in
      Safe-bind (Safety.run_next_loop_handlers-Safe call good keeps live gone ticks w s) λ w1 s1.
        Safe-bind
          (each_event-Safe ticks (epoll_wait w1.own.instance_ w1.own.room) w1
            (inside w1.own.instance_ w1.own.room) s1)
          λ w2 s2.
            Safe-bind (Safety.run_after_loop_handlers-Safe call good keeps live gone ticks w2 s2)
              λ w3 s3. safe (record {
                places = s3.places;
                alive = s3.alive;
                below = s3.below;
                mirrored = s3.mirrored;
              })
