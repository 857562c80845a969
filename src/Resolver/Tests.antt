-- ===== src/Resolver/Tests.antt =====
-- Two loops ask, and the thread has answered the first of them, to which another thread handed a
-- handler too and which has run the closure, when `stop()` is called.
use liby_cpp.Base.{ℕ, refl, true, List, [], ◌∷◌, ◌==◌, if◌then◌else◌, Option, none, some}
use liby_cpp.BlockingQueue.{push_back, pop_front, front, pop, of_elements}
use liby_cpp.EventQueue.{new_event_queue, run_event_handler, push_handler, wakeup}
use liby_cpp.Resolver.{
  AddrInfo, Query, World, new_thread, async_resolve, request, lower, stop, hand_over, hand, other,
  endpoint_of, resolve, serve,
}
use liby_cpp.Resolver.Thread.{
  serving, returned, Shared, starting, asking, goes_on, takes, serves, Steps, begin, asks, lowers,
  sends, works, loop_runs, loop_reads, others_hand, taken, eventfd_read,
}
use liby_cpp.Resolver.Stop.{Finishes, Steps-Finishes}
use liby_cpp.Resolver.Answers.{Answered, Steps-Answered}

-- "a" has one address, and nothing else is known.
abbrev names : List ℕ → List ℕ → Option (List AddrInfo)
names [] service = none
names (c ∷ cs) service =
    if c == b'a' then some (record { sin_port = 80; sin_addr = 9 } ∷ []) else none

abbrev first : Query
first = asking 1 (b'a' ∷ []) [] (some 5)

abbrev second : Query
second = asking 2 (b'b' ∷ []) [] (some 6)

abbrev one_answered : World
one_answered =
    hand_over (record { loop = 1; handler = 5; eps = record { port_ = 80; addr_ = 9 } ∷ [] })
      (record { loops = λ l. new_event_queue; handed = []; ran = λ l. [] })

-- Loop 1 has taken the closure and holds the other handler.
abbrev one_run : World
one_run = taken 1 0 (record { queue_ = 1 ∷ [] }) (eventfd_read 1 (hand (other 1) one_answered))

-- The thread is in `serving second` with the last request behind it.
abbrev stopping : Shared
stopping = record {
  thread = stop (record { keep_running = true; requests_ = record { queue_ = [] } });
  place = serving second;
  stopper = returned;
  world = one_run;
}

stopping-Steps : Steps names (first ∷ second ∷ []) stopping
unfolding starting new_thread of_elements async_resolve request push_back pop_front front pop lower
    stop serve resolve endpoint_of hand_over hand new_event_queue run_event_handler push_handler
    wakeup
stopping-Steps =
    let asked = asks 2 (b'b' ∷ []) [] (some 6) (asks 1 (b'a' ∷ []) [] (some 5) begin) in
    let one_taken =
      works (works asked (goes_on refl refl))
        (takes first (record { queue_ = second ∷ [] }) refl refl) in
    let served = works one_taken (serves first one_answered refl refl) in
    let run =
      loop_runs 1 0 (record { queue_ = 1 ∷ [] }) (loop_reads 1 (others_hand 1 served)) refl in
    let two_taken =
      works (works run (goes_on refl refl)) (takes second (record { queue_ = [] }) refl refl) in
    sends (lowers two_taken refl) refl

Steps-Finishes_example : Finishes names 3 stopping
Steps-Finishes_example = Steps-Finishes names (first ∷ second ∷ []) stopping stopping-Steps refl

Steps-Answered_example : Answered names (first ∷ second ∷ []) stopping
Steps-Answered_example = Steps-Answered names (first ∷ second ∷ []) stopping stopping-Steps
