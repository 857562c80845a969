-- ===== src/Poller/Poll/Tests.antt =====
-- A round of PollerPoll whose handler deletes the channel that the event is for.
use liby_cpp.Base.{
  ℕ, zero, suc, ◌<◌, ◌≡◌, refl, true, false, [], ◌∷◌, Option, none, some, Option-cases, inl, inr,
  get_elem?, ℤ, pos, arith, ok, Safe, safe,
}
use liby_cpp.Timestamp.{Timestamp}
use liby_cpp.Poller.{Channel, Poller, Call, no_channel, put}
use liby_cpp.Poller.Class.{delete_channel}
use liby_cpp.Poller.Safety.{LiveTable, LiveTable-put, put-inv}
use liby_cpp.Poller.Poll.{PollFd, PollFds, Revents, Answer, blank_entry, poll_class, loop_once}
use liby_cpp.Poller.Poll.Safety.{Polled, loop_once-Polled}
use liby_cpp.Poller.Poll.Table.{delete_channel-Polled, same_fd}

abbrev readable : Revents
readable = record { pollerr = false; pollrdhup = false; pollin = true; pollout = true }

-- Every handler deletes the channel of descriptor 1, if there is one.
abbrev deleting : Call PollFds
deleting h w = elim (w.channels_ 1) [
  | none ↦ ok w
  | some p ↦ delete_channel (poll_class readable) p w
]

deleting-Safe : (h : ℕ) (w : Poller PollFds) → Polled 4 w → Safe (Polled 4) (deleting h w)
unfolding LiveTable
deleting-Safe h w s = elim (Option-cases (w.channels_ 1)) [
  | inl e ↦ rw (deleting, e) (safe s)
  | inr (p, e) ↦
      let (c, alive, fd_c) = s.alive 1 p e in
      rw (deleting, e) (delete_channel-Polled 4 readable w s p c alive 1 fd_c e)
]

abbrev fd_1 : Channel
fd_1 = record no_channel { fd_ = pos 1; poller_ = true; readable_ = true; read_callback = some 7 }

abbrev entry_1 : PollFd
entry_1 = record {
  fd = pos 1;
  events = record { base = true; pollin = true; pollout = true };
  revents = readable;
}

abbrev all_objects : ℕ → Option Channel
all_objects p = some fd_1

abbrev one_channel : Poller PollFds
one_channel = record {
  open_max = 4;
  channels_ = put (λ fd. none) 1 (some 0);
  next_tick_handlers = [];
  next_loop_handlers = [];
  after_loop_handlers = [];
  objects = all_objects;
  own = blank_entry ∷ entry_1 ∷ [];
}

one_channel-Polled : Polled 4 one_channel
unfolding LiveTable
one_channel-Polled = record {
  places = refl;
  inside = λ i fd entry e same. small i fd entry e same;
  inside_place = λ fd p h. elim (put-inv (λ n. none) 1 fd (some 0) (some p) h) [
    | inl (here, _) ↦ omega (arith, here)
    | inr (_, e) ↦ absurd cc
  ];
  alive = LiveTable-put (λ fd. none) all_objects 0 1 fd_1 (λ fd p h. absurd cc) refl refl;
  entered = λ fd p h. elim (put-inv (λ n. none) 1 fd (some 0) (some p) h) [
    | inl (here, _) ↦ omega (arith, here)
    | inr (_, e) ↦ absurd cc
  ];
}
  where
    small :
        (i fd : ℕ) (entry : PollFd)
        → get_elem? one_channel.own i ≡ some entry
        → entry.fd ≡ pos fd
        → fd < 4
    small zero fd entry e same = omega (arith, same_fd blank_entry entry 0 fd (cc) refl same)
    small (suc zero) fd entry e same = omega (arith, same_fd entry_1 entry 1 fd (cc) refl same)
    small (suc (suc i)) fd entry e same = absurd cc

abbrev at_second : ℕ → Timestamp
at_second n = record { tv_sec = pos n; tv_usec = 0 }

-- `poll` says that descriptor 1 can be read and written: the read handler deletes the channel.
abbrev both : PollFds → ℤ → Answer
both fds ms = record { nready = 1; revents = blank_entry.revents ∷ readable ∷ [] }

loop_once-Polled_example :
    Safe (Polled 4) (loop_once deleting both (at_second 1) 4 5 (some (at_second 2)) one_channel)
loop_once-Polled_example =
    loop_once-Polled 4 deleting deleting-Safe both (at_second 1) 4 5 (some (at_second 2))
      one_channel one_channel-Polled
