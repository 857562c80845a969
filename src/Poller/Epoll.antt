-- ===== src/Poller/Epoll.antt =====
-- src/PollerEpoll.h, src/PollerEpoll.cpp: the poller over `epoll`.
pub mod Mirror
pub mod Safety
mod Tests
use liby_cpp.Base.{
  ℕ, zero, suc, ◌+◌, ◌-◌, ◌*◌, ◌%◌, ◌^◌, Bool, true, false, ◌||◌, List, [], ◌∷◌, Option, none, some,
  ltb, if◌then◌else◌, Run, ok, fault, thrown, or_fault, ◌>>=◌,
}
use liby_cpp.Poller.{
  Channel, Poller, Call, checked_fd, deref, get_channel, set_channel, handle_read_event,
  handle_writ_event, handle_erro_event, run_next_tick_handlers, run_next_loop_handlers,
  run_after_loop_handlers, new_poller,
}
use liby_cpp.Poller.Class.{Class}

-- The bits asked for besides `EPOLLHUP | EPOLLRDHUP`.
pub record Interest : Type 0 where
  pub epollin : Bool
  pub epollout : Bool

-- `epoll_ctl` of the kernel on an epoll instance; `none` is an error.
pub record Kernel : Type 1 where
  pub Instance : Type 0
  pub create : Instance
  pub ctl_add : Instance → ℕ → Interest → Option Instance
  pub ctl_mod : Instance → ℕ → Interest → Option Instance
  pub ctl_del : Instance → ℕ → Option Instance

-- An entry that `epoll_wait` fills in.
pub record Event : Type 0 where
  pub fd : ℕ
  pub epollrdhup : Bool
  pub epollerr : Bool
  pub epollin : Bool
  pub epollout : Bool

module _ (kernel : Kernel) where
  -- `pollerfd_`, `eventsSize_` (64 bits wide) and the size of `events_`.
  pub record Own : Type 0 where
    pub instance_ : kernel.Instance
    pub events_size : ℕ
    pub room : ℕ

  -- `PollerEpoll()`, where `epoll_create1` succeeds.
  unfoldable pub new_epoll : ℕ → Poller Own
  new_epoll open_max =
      new_poller open_max (record { instance_ = kernel.create; events_size = 0; room = 48 })

  -- `addChanel(ch)`
  unfoldable pub add_chanel : ℕ → Poller Own → Run (Poller Own)
  add_chanel p w = do
    c ← deref w p
    fd ← checked_fd c.fd_
    let old = w.own
    k ←
        or_fault
          (kernel.ctl_add old.instance_ fd
            (record { epollin = c.readable_; epollout = c.writable_ }))
          thrown
    w' ← set_channel w fd (some p)
    ok (record w' {
      own = record old { instance_ = k; events_size = (old.events_size + 1) % 2 ^ 64 };
    })

  -- `updateChanel(ch, readable, writable)`
  unfoldable pub update_chanel : ℕ → Bool → Bool → Poller Own → Run (Poller Own)
  update_chanel p readable writable w = do
    c ← deref w p
    fd ← checked_fd c.fd_
    let old = w.own
    k ←
        or_fault
          (kernel.ctl_mod old.instance_ fd (record { epollin = readable; epollout = writable }))
          thrown
    ok (record w { own = record old { instance_ = k } })

  -- `removeChanel(ch)`
  unfoldable pub remove_chanel : ℕ → Poller Own → Run (Poller Own)
  remove_chanel p w = do
    c ← deref w p
    fd ← checked_fd c.fd_
    w' ← set_channel w fd none
    let old = w'.own
    k ← or_fault (kernel.ctl_del old.instance_ fd) thrown
    ok (record w' {
      own = record old { instance_ = k; events_size = (old.events_size + 2 ^ 64 - 1) % 2 ^ 64 };
    })

  unfoldable pub epoll_class : Class Own
  epoll_class = record {
    add_chanel = add_chanel;
    update_chanel = update_chanel;
    remove_chanel = remove_chanel;
  }

  module _ (call : Call Own) where
    -- The first of the three handlers that the bits ask for.
    unfoldable pub dispatch : Event → ℕ → Poller Own → Run (Poller Own)
    dispatch e p w =
        if e.epollrdhup || e.epollerr
        then handle_erro_event call p w
        else if e.epollin
        then handle_read_event call p w
        else if e.epollout
        then handle_writ_event call p w
        else ok w

    -- The loop over the events, with the handlers of `nextTick` at the end of each round.
    unfoldable pub each_event : ℕ → List Event → Poller Own → Run (Poller Own)
    each_event ticks [] w = ok w
    each_event ticks (e ∷ events) w = do
      ch ← get_channel w e.fd
      w1 ← elim ch [ none ↦ ok w | some p ↦ dispatch e p w ]
      w2 ← run_next_tick_handlers call ticks w1
      each_event ticks events w2

    -- `loop_once()`, with the answer of `epoll_wait`, an error counted as no event.
    unfoldable pub loop_once :
        (kernel.Instance → ℕ → List Event) → ℕ → Poller Own → Run (Poller Own)
    loop_once epoll_wait ticks w = do
      w1 ← run_next_loop_handlers call ticks w
      w2 ← each_event ticks (epoll_wait w1.own.instance_ w1.own.room) w1
      w3 ← run_after_loop_handlers call ticks w2
      let old = w3.own
      ok (record w3 {
        own = record old {
          room = if ltb old.room old.events_size then (old.events_size * 2) % 2 ^ 64 else old.room;
        };
      })
