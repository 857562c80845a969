-- ===== src/Poller/Kevent.antt =====
-- src/PollerKevent.h, src/PollerKevent.cpp: the poller over `kqueue`, which collects changes of
-- events and hands them to the kernel in batches.
pub mod Batches
pub mod Lost
mod Tests
use liby_cpp.Base.{
  ℕ, zero, suc, ◌+◌, ◌*◌, Bool, true, false, ◌||◌, List, [], ◌∷◌, ◌++◌, Option, none, some,
  if◌then◌else◌, length, ltb, ℤ, pos, negsuc, Run, ok, fault, out_of_fuel, ◌>>=◌,
}
use liby_cpp.Poller.{
  Channel, Poller, Call, checked_fd, deref, get_channel, set_channel, handle_read_event,
  handle_writ_event, handle_erro_event, run_next_tick_handlers, run_next_loop_handlers,
  run_after_loop_handlers, new_poller, is_empty,
}
use liby_cpp.Poller.Class.{Class}

-- The values of `filter`, and those of `flags` for a change.
pub data Filter : Type 0 where
  evfilt_read evfilt_write : Filter

pub data Flags : Type 0 where
  ev_add_enable ev_delete : Flags

-- A `struct kevent` that `EV_SET` fills in for a change.
pub record Change : Type 0 where
  pub ident : ℕ
  pub filter : Filter
  pub flags : Flags

-- A `struct kevent` that `kevent` fills in.
pub record Kevent : Type 0 where
  pub fd : ℕ
  pub filter : Filter
  pub ev_eof : Bool
  pub ev_error : Bool

-- `kevent` of the kernel with a list of changes; the result is not looked at.
pub record Kqueue : Type 1 where
  pub Instance : Type 0
  pub create : Instance
  pub change : Instance → List Change → Instance

abbrev pub change_of : ℕ → Filter → Bool → Change
change_of fd filter flag = record {
  ident = fd;
  filter = filter;
  flags = if flag then ev_add_enable else ev_delete;
}

module _ (kernel : Kqueue) where
  -- `kq_`, `eventsSize_`, the size of `events_` and `changes_`.
  pub record Own : Type 0 where
    pub kq_ : kernel.Instance
    pub events_size : ℤ
    pub room : ℕ
    pub changes_ : List Change

  abbrev push_changes : List Change → Poller Own → Poller Own
  push_changes cs w =
      let own = record w.own { changes_ = w.own.changes_ ++ cs } in record w { own = own }

  abbrev one_more : ℤ → ℤ
  one_more (pos n) = pos (suc n)
  one_more (negsuc zero) = pos 0
  one_more (negsuc (suc n)) = negsuc n

  abbrev one_less : ℤ → ℤ
  one_less (pos zero) = negsuc 0
  one_less (pos (suc n)) = pos n
  one_less (negsuc n) = negsuc (suc n)

  -- `PollerKevent()`
  unfoldable pub new_kevent : ℕ → Poller Own
  new_kevent open_max =
      new_poller open_max
        (record { kq_ = kernel.create; events_size = pos 0; room = 48; changes_ = [] })

  -- `for (; index < n && getChannel(changes_[index].ident) != nullptr; index++)`: the changes passed,
  -- and those from `index` on.
  unfoldable pub span : Poller Own → List Change → Run (List Change × List Change)
  span w [] = ok ([], [])
  span w (c ∷ cs) = do
    ch ← get_channel w c.ident
    elim ch [ none ↦ ok ([], c ∷ cs) | some p ↦ do r ← span w cs; ok (c ∷ r.0, r.1) ]

  -- `index++`
  abbrev pub behind : List Change → List Change
  behind [] = []
  behind (c ∷ cs) = cs

  -- The loop of `updateKevents`.
  unfoldable pub batches : ℕ → Poller Own → List Change → kernel.Instance → Run kernel.Instance
  batches fuel w [] k = ok k
  batches zero w (c ∷ cs) k = fault out_of_fuel
  batches (suc fuel) w (c ∷ cs) k = do
    r ← span w (c ∷ cs)
    batches fuel w (behind r.1) (if is_empty r.0 then k else kernel.change k r.0)

  -- `updateKevents()`
  unfoldable pub update_kevents : Poller Own → Run (Poller Own)
  update_kevents w = if is_empty w.own.changes_ then ok w else do
    k ← batches (length w.own.changes_) w w.own.changes_ w.own.kq_
    let own = record w.own { kq_ = k; changes_ = [] }
    ok (record w { own = own })

  -- `addChanel(ch)`
  unfoldable pub add_chanel : ℕ → Poller Own → Run (Poller Own)
  add_chanel p w = do
    c ← deref w p
    fd ← checked_fd c.fd_
    let reads = if c.readable_ then change_of fd evfilt_read true ∷ [] else []
    let writes = if c.writable_ then change_of fd evfilt_write true ∷ [] else []
    let w1 = push_changes (reads ++ writes) w
    let own = record w1.own { events_size = one_more w1.own.events_size }
    w2 ← set_channel (record w1 { own = own }) fd (some p)
    update_kevents w2

  -- `updateChanel(ch, readable, writable)`
  unfoldable pub update_chanel : ℕ → Bool → Bool → Poller Own → Run (Poller Own)
  update_chanel p readable writable w = do
    c ← deref w p
    fd ← checked_fd c.fd_
    ok (
        push_changes (change_of fd evfilt_read readable ∷ change_of fd evfilt_write writable ∷ [])
          w)

  -- `removeChanel(ch)`
  unfoldable pub remove_chanel : ℕ → Poller Own → Run (Poller Own)
  remove_chanel p w = do
    c ← deref w p
    fd ← checked_fd c.fd_
    let w1 = push_changes (change_of fd evfilt_read false ∷ change_of fd evfilt_write false ∷ []) w
    let own = record w1.own { events_size = one_less w1.own.events_size }
    set_channel (record w1 { own = own }) fd none

  unfoldable pub kevent_class : Class Own
  kevent_class = record {
    add_chanel = add_chanel;
    update_chanel = update_chanel;
    remove_chanel = remove_chanel;
  }

  -- `eventsSize_ > size` and `eventsSize_ * 2 + 1`.
  abbrev grown_room : ℤ → ℕ → ℕ
  grown_room (pos n) room = if ltb room n then n * 2 + 1 else room
  grown_room (negsuc n) room = room

  module _ (call : Call Own) where
    abbrev is_write : Filter → Bool
    is_write evfilt_read = false
    is_write evfilt_write = true

    -- What the loop does with an event for the channel at `p`.
    unfoldable pub dispatch : Kevent → ℕ → Poller Own → Run (Poller Own)
    dispatch e p w =
        if e.ev_eof || e.ev_error
        then handle_erro_event call p w
        else if is_write e.filter
        then handle_writ_event call p w
        else handle_read_event call p w

    -- The loop over the events, with the handlers of `nextTick` at the end of each round.
    unfoldable pub each_event : ℕ → List Kevent → Poller Own → Run (Poller Own)
    each_event ticks [] w = ok w
    each_event ticks (e ∷ events) w = do
      ch ← get_channel w e.fd
      w1 ← elim ch [ none ↦ ok w | some p ↦ dispatch e p w ]
      w2 ← run_next_tick_handlers call ticks w1
      each_event ticks events w2

    -- `loop_once()`, with the events that `kevent` answers, an error counted as no event.
    unfoldable pub loop_once :
        (kernel.Instance → ℕ → List Kevent) → ℕ → Poller Own → Run (Poller Own)
    loop_once wait ticks w = do
      w1 ← run_next_loop_handlers call ticks w
      w2 ← each_event ticks (wait w1.own.kq_ w1.own.room) w1
      w3 ← run_after_loop_handlers call ticks w2
      w4 ← update_kevents w3
      let own = record w4.own { room = grown_room w4.own.events_size w4.own.room }
      ok (record w4 { own = own })
