-- ===== src/Poller/Poll.antt =====
-- src/PollerPoll.h, src/PollerPoll.cpp: the poller over `poll`, as it is built on Linux.
pub mod Safety
pub mod Table
mod Tests
use liby_cpp.Base.{
  ℕ, ◌+◌, ◌-◌, ◌*◌, ◌%◌, ◌^◌, Bool, true, false, ◌||◌, List, [], ◌∷◌, ◌++◌, Option, none, some, ltb,
  leb, if◌then◌else◌, length, replicate, get_elem?, set, ℤ, pos, negsuc, Run, ok, out_of_bounds,
  or_fault, ◌>>=◌,
}
use liby_cpp.Timestamp.{Timestamp, less, subtract, to_mill_sec}
use liby_cpp.Poller.{
  Poller, Call, checked_fd, deref, get_channel, set_channel, handle_read_event, handle_writ_event,
  handle_erro_event, run_next_loop_handlers, run_after_loop_handlers, new_poller,
}
use liby_cpp.Poller.Class.{Class}
use liby_cpp.Poller.Scan.{scan}

-- The bits of `events`: `POLLRDHUP | POLLERR`, which every added entry has, `POLLIN` and `POLLOUT`.
pub record Events : Type 0 where
  pub base : Bool
  pub pollin : Bool
  pub pollout : Bool

-- The bits of `revents`.
pub record Revents : Type 0 where
  pub pollerr : Bool
  pub pollrdhup : Bool
  pub pollin : Bool
  pub pollout : Bool

pub record PollFd : Type 0 where
  pub fd : ℤ
  pub events : Events
  pub revents : Revents

-- An entry that `resize` makes: all bytes are 0, the descriptor too.
abbrev pub blank_entry : PollFd
blank_entry = record {
  fd = pos 0;
  events = record { base = false; pollin = false; pollout = false };
  revents = record { pollerr = false; pollrdhup = false; pollin = false; pollout = false };
}

-- `pollfds_.resize(n)` to a larger size.
abbrev pub grow : ℕ → List PollFd → List PollFd
grow n l = l ++ replicate (n - length l) blank_entry

abbrev pub PollFds : Type 0
PollFds = List PollFd

-- `PollerPoll()`
unfoldable pub new_poll : ℕ → Poller PollFds
new_poll open_max = new_poller open_max (grow 48 [])

-- `addChanel(ch)`; `revents` of the new entry holds what the memory held.
unfoldable pub add_chanel : Revents → ℕ → Poller PollFds → Run (Poller PollFds)
add_chanel garbage p w = do
  c ← deref w p
  fd ← checked_fd c.fd_
  let entry : PollFd = record {
    fd = pos fd;
    events = record { base = true; pollin = c.readable_; pollout = c.writable_ };
    revents = garbage;
  }
  let fds = if leb (length w.own) fd then grow (fd * 2 + 1) w.own else w.own
  set_channel (record w { own = set fds fd entry }) fd (some p)

-- `updateChanel(ch, readable, writable)`
unfoldable pub update_chanel : ℕ → Bool → Bool → Poller PollFds → Run (Poller PollFds)
update_chanel p readable writable w = do
  c ← deref w p
  fd ← checked_fd c.fd_
  entry ← or_fault (get_elem? w.own fd) out_of_bounds
  let bits = record entry.events { pollin = readable; pollout = writable }
  ok (record w { own = set w.own fd (record entry { events = bits }) })

-- `removeChanel(ch)`
unfoldable pub remove_chanel : ℕ → Poller PollFds → Run (Poller PollFds)
remove_chanel p w = do
  c ← deref w p
  fd ← checked_fd c.fd_
  w' ← set_channel w fd none
  entry ← or_fault (get_elem? w'.own fd) out_of_bounds
  ok (record w' { own = set w'.own fd (record entry { fd = negsuc 0 }) })

unfoldable pub poll_class : Revents → Class PollFds
poll_class garbage = record {
  add_chanel = add_chanel garbage;
  update_chanel = update_chanel;
  remove_chanel = remove_chanel;
}

-- `static_cast<int>`
abbrev pub to_int : ℕ → ℤ
to_int n = if ltb (n % 2 ^ 32) (2 ^ 31) then pos (n % 2 ^ 32) else negsuc (2 ^ 32 - n % 2 ^ 32 - 1)

-- `interMs`: -1 waits for ever.
unfoldable pub inter_ms : Option Timestamp → Timestamp → ℤ
inter_ms none now = negsuc 0
inter_ms (some ts) now = if less ts now then pos 0 else to_int (to_mill_sec (subtract ts now))

-- What `poll` gives: its value, -1 counted as 0, and the `revents` of each entry.
pub record Answer : Type 0 where
  pub nready : ℕ
  pub revents : List Revents

-- `poll` fills in `revents`.
abbrev pub fill : List Revents → PollFds → PollFds
fill [] fds = fds
fill (r ∷ rs) [] = []
fill (r ∷ rs) (e ∷ fds) = record e { revents = r } ∷ fill rs fds

abbrev pub rounds : Poller PollFds → ℕ
rounds w = length w.own

module _ (call : Call PollFds) where
  -- `if (revent & POLLOUT && (ch = getChannel(fd)) != nullptr)`
  unfoldable pub visit_writ : Revents → ℕ → Bool → Poller PollFds → Run (Bool × Poller PollFds)
  visit_writ r fd flag w =
      if r.pollout
      then (do
        ch ← get_channel w fd
        elim ch [
          | none ↦ ok (flag, w)
          | some p ↦ do w' ← handle_writ_event call p w; ok (true, w')
        ])
      else ok (flag, w)

  -- The events of the channel at `p`.
  unfoldable pub visit_at : Revents → ℕ → ℕ → Poller PollFds → Run (Bool × Poller PollFds)
  visit_at r fd p w =
      if r.pollerr || r.pollrdhup then (do w' ← handle_erro_event call p w; ok (false, w')) else do
        w' ← if r.pollin then handle_read_event call p w else ok w
        visit_writ r fd r.pollin w'

  -- The entry at `i`, when its descriptor is not negative.
  unfoldable pub visit_entry : ℤ → Revents → Poller PollFds → Run (Bool × Poller PollFds)
  visit_entry (negsuc n) r w = ok (false, w)
  visit_entry (pos fd) r w = do
    ch ← get_channel w fd
    elim ch [ none ↦ ok (false, w) | some p ↦ visit_at r fd p w ]

  -- The body of the loop.
  unfoldable pub visit : ℕ → Poller PollFds → Run (Bool × Poller PollFds)
  visit i w = do
    entry ← or_fault (get_elem? w.own i) out_of_bounds
    visit_entry entry.fd entry.revents w

  -- `loop_once(ts)`, with the answer of `poll` to its arguments and the clock.
  unfoldable pub loop_once :
      (PollFds → ℤ → Answer)
      → Timestamp
      → ℕ
      → ℕ
      → Option Timestamp
      → Poller PollFds
      → Run (Poller PollFds)
  loop_once poll now ticks fuel ts w = do
    w1 ← run_next_loop_handlers call ticks w
    let a = poll w1.own (inter_ms ts now)
    w2 ← scan call rounds visit ticks fuel 0 a.nready (record w1 { own = fill a.revents w1.own })
    run_after_loop_handlers call ticks w2
