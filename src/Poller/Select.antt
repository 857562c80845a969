-- ===== src/Poller/Select.antt =====
-- src/PollerSelect.h, src/PollerSelect.cpp: the poller over `select`.
pub mod Table
pub mod Ready
pub mod Safety
use liby_cpp.Base.{
  ℕ, zero, suc, ◌+◌, ◌-◌, Bool, true, false, not, ◌||◌, List, Option, none, some, ltb, leb, ◌==◌,
  if◌then◌else◌, ℤ, pos, negsuc, Run, ok, fault, out_of_bounds, thrown, ◌>>=◌, ◌>>◌,
}
use liby_cpp.Timestamp.{Timestamp, less, subtract}
use liby_cpp.Poller.{
  Channel, Poller, Call, put, checked_fd, deref, get_channel, set_channel, handle_read_event,
  handle_writ_event, handle_erro_event, run_next_loop_handlers, run_after_loop_handlers, new_poller,
}
use liby_cpp.Poller.Class.{Class}
use liby_cpp.Poller.Scan.{scan}

abbrev pub FdSet : Type 0
FdSet = ℕ → Bool

-- The three sets and `maxfd_`.
pub record Sets : Type 0 where
  pub rset_ : FdSet
  pub wset_ : FdSet
  pub eset_ : FdSet
  pub maxfd_ : ℤ

-- `FD_SETSIZE`
abbrev pub fd_setsize : ℕ
fd_setsize = 1024

-- `PollerSelect()`: the sets hold what the memory held.
unfoldable pub new_select : ℕ → FdSet → FdSet → FdSet → Poller Sets
new_select open_max r w e =
    new_poller open_max (record { rset_ = r; wset_ = w; eset_ = e; maxfd_ = negsuc 0 })

-- `FD_SET` and `FD_CLR`
unfoldable pub fd_write : FdSet → ℕ → Bool → Run FdSet
fd_write s fd b = if ltb fd fd_setsize then ok (put s fd b) else fault out_of_bounds

abbrev pub le_fd : ℤ → ℕ → Bool
le_fd (pos n) fd = leb n fd
le_fd (negsuc n) fd = true

-- `if (flag) FD_SET(fd, &s)`
abbrev pub set_if : Bool → FdSet → ℕ → Run FdSet
set_if true s fd = fd_write s fd true
set_if false s fd = ok s

-- `addChanel(ch)`
unfoldable pub add_chanel : ℕ → Poller Sets → Run (Poller Sets)
add_chanel p w = do
  c ← deref w p
  fd ← checked_fd c.fd_
  if leb fd_setsize fd then fault thrown else do
    let old = w.own
    w' ← set_channel w fd (some p)
    r ← set_if c.readable_ old.rset_ fd
    t ← set_if c.writable_ old.wset_ fd
    e ← fd_write old.eset_ fd true
    ok (record w' {
      own = record old {
        rset_ = r;
        wset_ = t;
        eset_ = e;
        maxfd_ = if le_fd old.maxfd_ fd then pos (suc fd) else old.maxfd_;
      };
    })

-- `updateChanel(ch, readable, writable)`
unfoldable pub update_chanel : ℕ → Bool → Bool → Poller Sets → Run (Poller Sets)
update_chanel p readable writable w = do
  c ← deref w p
  fd ← checked_fd c.fd_
  let old = w.own
  r ← fd_write old.rset_ fd readable
  t ← fd_write old.wset_ fd writable
  ok (record w { own = record old { rset_ = r; wset_ = t } })

-- `while (--maxfd_)` until a set holds it: the new `maxfd_`.
unfoldable pub lower_maxfd : Sets → ℕ → Run ℤ
lower_maxfd s zero = fault out_of_bounds
lower_maxfd s (suc n) =
    let rest = lower_maxfd s n in
    if n == 0 || (s.rset_ n || s.wset_ n || s.eset_ n) then ok (pos n) else rest

abbrev pub is_fd : ℤ → ℕ → Bool
is_fd (pos n) fd = n == fd
is_fd (negsuc n) fd = false

-- `removeChanel(ch)`
unfoldable pub remove_chanel : ℕ → Poller Sets → Run (Poller Sets)
remove_chanel p w = do
  c ← deref w p
  fd ← checked_fd c.fd_
  let old = w.own
  r ← fd_write old.rset_ fd false
  t ← fd_write old.wset_ fd false
  e ← fd_write old.eset_ fd false
  w' ← set_channel w fd none
  let sets = record old { rset_ = r; wset_ = t; eset_ = e }
  m ← if is_fd old.maxfd_ fd then lower_maxfd sets fd else ok old.maxfd_
  ok (record w' { own = record sets { maxfd_ = m } })

unfoldable pub select_class : Class Sets
select_class = record {
  add_chanel = add_chanel;
  update_chanel = update_chanel;
  remove_chanel = remove_chanel;
}

-- The time that `select` may wait, `none` for ever.
unfoldable pub wait_time : Option Timestamp → Timestamp → Option Timestamp
wait_time none now = none
wait_time (some ts) now =
    if less ts now then some (record { tv_sec = pos 0; tv_usec = 0 }) else some (subtract ts now)

-- What `select` gives: its value, -1 counted as 0, and the three sets.
pub record Answer : Type 0 where
  pub nready : ℕ
  pub rset : FdSet
  pub wset : FdSet
  pub eset : FdSet

abbrev pub rounds_of : ℤ → ℕ
rounds_of (pos n) = n
rounds_of (negsuc n) = 0

abbrev pub rounds : Poller Sets → ℕ
rounds w = rounds_of w.own.maxfd_

module _ (call : Call Sets) where
  -- The second half of a round: the channel is looked up again.
  unfoldable pub visit_writ : Answer → ℕ → Bool → Poller Sets → Run (Bool × Poller Sets)
  visit_writ a fd flag w =
      if a.wset fd
      then (do
        ch ← get_channel w fd
        elim ch [
          | none ↦ ok (flag, w)
          | some p ↦ do w' ← handle_writ_event call p w; ok (true, w')
        ])
      else ok (flag, w)

  -- The first half, where `ch` is at `p`.
  unfoldable pub visit_at : Answer → ℕ → ℕ → Poller Sets → Run (Bool × Poller Sets)
  visit_at a fd p w = if a.eset fd then (do w' ← handle_erro_event call p w; ok (false, w')) else do
    w' ← if a.rset fd then handle_read_event call p w else ok w
    visit_writ a fd (a.rset fd) w'

  -- The body of the loop for one descriptor.
  unfoldable pub visit : Answer → ℕ → Poller Sets → Run (Bool × Poller Sets)
  visit a fd w = do
    ch ← get_channel w fd
    elim ch [ none ↦ ok (false, w) | some p ↦ visit_at a fd p w ]

  -- `loop_once(ts)`, with the answer of `select` to its arguments and the clock. `ticks` is fuel for
  -- the lists of handlers.
  unfoldable pub loop_once :
      (Sets → Option Timestamp → Answer)
      → Timestamp
      → ℕ
      → ℕ
      → Option Timestamp
      → Poller Sets
      → Run (Poller Sets)
  loop_once select now ticks fuel ts w = do
    w1 ← run_next_loop_handlers call ticks w
    let a = select w1.own (wait_time ts now)
    w2 ← scan call rounds (visit a) ticks fuel 0 a.nready w1
    run_after_loop_handlers call ticks w2
