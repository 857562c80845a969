-- ===== src/TcpServer/Tests.antt =====
-- A group of three loops, and a kernel that answers as a list says.
use liby_cpp.Base.{
  ℕ, ◌≡◌, refl, true, List, [], ◌∷◌, map, some, none, ◌==◌, if◌then◌else◌, arith, pos, fault,
  out_of_fuel, Returns,
}
use liby_cpp.Poller.{Channel, Poller, no_channel}
use liby_cpp.Poller.Class.{delete_channel, remove_channel}
use liby_cpp.EventQueue.{new_event_queue}
use liby_cpp.EventLoopGroup.{new_group}
use liby_cpp.Http.Example.{idle_class}
use liby_cpp.Udp.{Endpoint}
use liby_cpp.TcpServer.{
  Listener, Answer, connected, would_block, interrupted, failed, TcpServer, ServerWorld,
  handle_accept_event,
}
use liby_cpp.TcpServer.Accept.{
  Backlog, end_of, then_more, made, nothing, broke, again, Taken, handle_accept_event-Taken,
}
use liby_cpp.TcpServer.Failure.{silent, handle_accept_event-spins, handle_accept_event-silent}

abbrev answering : List Answer → Answer × List Answer
answering [] = (would_block, [])
answering (a ∷ as_told) = (a, as_told)

abbrev scripted : Listener
scripted = record { State = List Answer; accept = answering }

abbrev full : Listener
full = record { State = Unit {0}; accept = λ k. (failed, k) }

abbrev peer : Endpoint
peer = record { port_ = 1; addr_ = 2 }

abbrev server : TcpServer
server = record {
  listenfd_ = pos 4;
  chan_ = some 0;
  acceptor_callback = none;
  read_event_callback = some 7;
  erro_event_callback = none;
}

abbrev channel : Channel
channel = record no_channel { fd_ = pos 4; poller_ = true }

abbrev poller : Poller ℕ
poller = record {
  open_max = 8;
  channels_ = λ fd. none;
  next_tick_handlers = [];
  next_loop_handlers = [];
  after_loop_handlers = [];
  objects = λ p. if p == 0 then some channel else none;
  own = 0;
}

abbrev poller' : Poller ℕ
poller' = record poller {
  objects = λ p. if p == 0 then none else if p == 0 then some channel else none;
}

abbrev world : (listener : Listener) → listener.State → ServerWorld listener idle_class
world listener k = record {
  server = server;
  poller = poller;
  group = new_group 10 2;
  loops = λ l. new_event_queue;
  sessions = [];
  kernel = k;
}

abbrev two : List (ℕ × Endpoint)
two = (5, peer) ∷ (6, peer) ∷ []

-- Two sockets wait, and a signal comes between them.
abbrev two_waiting : List Answer
two_waiting = connected 5 peer ∷ interrupted ∷ connected 6 peer ∷ []

two-Backlog : Backlog scripted 1 two_waiting two []
two-Backlog =
    then_more 5 peer (made 5 peer refl)
      (then_more 6 peer (again refl (made 6 peer refl)) (end_of (nothing refl)))

handle_accept_event-Taken_example :
    Returns
      (Taken scripted idle_class 9 10 2 two (world scripted two_waiting))
      (handle_accept_event scripted idle_class 9 2 3 (world scripted two_waiting))
handle_accept_event-Taken_example =
    handle_accept_event-Taken scripted idle_class 9 10 2 2 3 4 (world scripted two_waiting)
      two-Backlog (omega arith) (omega arith) refl refl

handle_accept_event-spins_example :
    handle_accept_event full idle_class 9 1 1000 (world full tt) ≡ fault out_of_fuel
unfolding delete_channel remove_channel
handle_accept_event-spins_example =
    handle_accept_event-spins full idle_class 9 0 1000 4 (world full tt) poller' refl refl refl

handle_accept_event-silent_example :
    Returns
      (λ w'.
        (w'.server.chan_ ≡ none)
        × (w'.server.read_event_callback ≡ none)
        × (w'.sessions ≡ map (silent 9 10 2) two))
      (handle_accept_event scripted idle_class 9 2 4 (world scripted (failed ∷ two_waiting)))
unfolding delete_channel remove_channel
handle_accept_event-silent_example =
    handle_accept_event-silent scripted idle_class 9 10 2 2 3 4
      (world scripted (failed ∷ two_waiting)) poller' (broke refl) two-Backlog (omega arith)
      (omega arith) refl refl refl
