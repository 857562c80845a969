-- ===== src/Poller/Tests.antt =====
-- Concrete runs of the pollers.
use mathlib.Core.List.{append-nil}
use liby_cpp.Base.{
  ℕ, ◌≤◌, ◌≡◌, refl, sym, true, false, [], ◌∷◌, ◌++◌, Option, none, some, ltb, ◌==◌, if◌then◌else◌,
  length, length-append, ltb→lt, inl, inr, pos, arith, ok, Returns, returns, Returns-if, Safe, safe,
}
use liby_cpp.Timestamp.{Timestamp}
use liby_cpp.Poller.{
  Channel, Poller, Call, no_channel, put, next_tick, next_loop, run_next_tick_handlers,
}
use liby_cpp.Poller.Handlers.{Appends, RanAll, run_next_tick_handlers-RanAll}
use liby_cpp.Poller.Safety.{LiveTable, LiveTable-put, put-inv}
use liby_cpp.Poller.Scan.{scan}
use liby_cpp.Poller.Scan.Full.{count_ready, scan_all}
use liby_cpp.Poller.Select.{Sets, Answer, fd_setsize, FdSet, rounds, visit, loop_once}
use liby_cpp.Poller.Select.Safety.{Sound, forgets, loop_once-Sound}
use liby_cpp.Poller.Select.Ready.{is_ready, scan-full}

-- A handler that pushes itself until three handlers are in the list.
abbrev push_some : Call ℕ
push_some h w = if ltb (length w.next_tick_handlers) 3 then ok (next_tick w h) else ok w

abbrev one_tick : Poller ℕ
one_tick = record {
  open_max = 8;
  channels_ = λ fd. none;
  next_tick_handlers = 4 ∷ [];
  next_loop_handlers = [];
  after_loop_handlers = [];
  objects = λ p. none;
  own = 0;
}

push_some-Appends :
    (h : ℕ) (w : Poller ℕ)
    → length w.next_tick_handlers ≤ 3
    → Returns (Appends push_some Poller.next_tick_handlers 3 w) (push_some h w)
unfolding next_tick
push_some-Appends h w few =
    Returns-if (ltb (length w.next_tick_handlers) 3)
      (λ e. returns (record {
        added = h ∷ [];
        longer = refl;
        few = omega (
          arith,
          length-append w.next_tick_handlers (h ∷ []),
          ltb→lt (length w.next_tick_handlers) 3 e,
        );
      }))
      λ e.
        returns (record { added = []; longer = sym (append-nil w.next_tick_handlers); few = few })

run_next_tick_handlers-RanAll_example :
    Returns (RanAll push_some one_tick) (run_next_tick_handlers push_some 4 one_tick)
run_next_tick_handlers-RanAll_example =
    run_next_tick_handlers-RanAll push_some 3 4 one_tick push_some-Appends (omega arith)
      (omega arith)

abbrev fd_5 : Channel
fd_5 = record no_channel { fd_ = pos 5; poller_ = true; readable_ = true; read_callback = some 7 }

abbrev only_5 : FdSet
only_5 fd = fd == 5

abbrev no_fd : FdSet
no_fd fd = false

abbrev all_objects : ℕ → Option Channel
all_objects p = some fd_5

-- The channel of descriptor 5 in its place.
abbrev one_channel : Poller Sets
one_channel = record {
  open_max = 1024;
  channels_ = put (λ fd. none) 5 (some 0);
  next_tick_handlers = [];
  next_loop_handlers = [];
  after_loop_handlers = [];
  objects = all_objects;
  own = record { rset_ = only_5; wset_ = no_fd; eset_ = only_5; maxfd_ = pos 6 };
}

one_channel-Sound : Sound one_channel
unfolding LiveTable
one_channel-Sound = record {
  places = omega arith;
  inside = omega arith;
  alive = LiveTable-put (λ fd. none) all_objects 0 5 fd_5 (λ fd p h. absurd cc) refl refl;
  watched = λ fd p h. elim (put-inv (λ n. none) 5 fd (some 0) (some p) h) [
    | inl (same, _) ↦ omega (arith, same)
    | inr (_, e) ↦ absurd cc
  ];
}

-- A handler that asks for the next loop.
abbrev to_next_loop : Call Sets
to_next_loop h w = ok (next_loop w h)

to_next_loop-Safe : (h : ℕ) (w : Poller Sets) → Sound w → Safe Sound (to_next_loop h w)
unfolding next_loop
to_next_loop-Safe h w s =
    safe (forgets w w.next_tick_handlers (w.next_loop_handlers ++ h ∷ []) w.after_loop_handlers s)

abbrev answer_5 : Answer
answer_5 = record { nready = 1; rset = only_5; wset = no_fd; eset = no_fd }

abbrev at_second : ℕ → Timestamp
at_second n = record { tv_sec = pos n; tv_usec = 0 }

loop_once-Sound_example : Safe Sound (
    loop_once to_next_loop (λ s ts. answer_5) (at_second 1) 4 1025 (some (at_second 2)) one_channel)
loop_once-Sound_example =
    loop_once-Sound to_next_loop to_next_loop-Safe (λ s ts. answer_5) (at_second 1) 4 1025
      (some (at_second 2)) one_channel one_channel-Sound

counted : count_ready (is_ready answer_5) 0 fd_setsize ≡ 1
unfolding count_ready
counted = refl

scan-full_example :
    scan to_next_loop rounds (visit to_next_loop answer_5) 4 1025 0 1 one_channel
    ≡ scan_all to_next_loop rounds (visit to_next_loop answer_5) 4 1025 0 one_channel
scan-full_example =
    scan-full to_next_loop to_next_loop-Safe answer_5 4 one_channel one_channel-Sound refl
      (omega (arith, counted))
