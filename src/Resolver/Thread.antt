-- ===== src/Resolver/Thread.antt =====
-- src/Resolver.cpp: `ResolverThread::func` while other threads ask and one calls `stop`, as a step
-- relation.
use liby_cpp.Base.{ℕ, ◌≡◌, true, false, List, [], ◌∷◌, ◌++◌, Option, some, ok, ◌==◌, if◌then◌else◌}
use liby_cpp.BlockingQueue.{BlockingQueue, pop_front}
use liby_cpp.EventQueue.{new_event_queue, destroy}
use liby_cpp.Resolver.{
  AddrInfo, Query, ResolverThread, World, new_thread, async_resolve, request, lower, last_request,
  serve, hand, other,
}

-- Where the resolver thread is: at the test of its loop, in `pop_wait`, behind it, or at its end.
pub data Place : Type 0 where
  testing waiting : Place
  serving : Query → Place
  finished : Place

-- How far the call of `stop()` has come.
pub data Stopper : Type 0 where
  uncalled lowered returned : Stopper

pub record Shared : Type 0 where
  pub thread : ResolverThread
  pub place : Place
  pub stopper : Stopper
  pub world : World

unfoldable pub starting : Shared
starting = record {
  thread = new_thread;
  place = testing;
  stopper = uncalled;
  world = record { loops = λ l. new_event_queue; handed = []; ran = λ l. [] };
}

abbrev pub asking : ℕ → List ℕ → List ℕ → Option ℕ → Query
asking loop host service handler = record {
  name = host;
  port = service;
  loop = some loop;
  handler = handler;
}

-- The loop takes a handler out of its queue and calls it.
abbrev pub taken : ℕ → ℕ → BlockingQueue ℕ → World → World
taken loop h rest w = record w {
  loops = λ l. if l == loop then record (w.loops l) { event_handlers = rest } else w.loops l;
  ran = λ l. if l == loop then w.ran l ++ h ∷ [] else w.ran l;
}

-- The loop reads its eventfd.
abbrev pub eventfd_read : ℕ → World → World
eventfd_read loop w = record w {
  loops = λ l. if l == loop then record (w.loops l) { counter = 0 } else w.loops l;
}

-- The loop closes its eventfd after an error.
abbrev pub eventfd_closed : ℕ → World → World
eventfd_closed loop w = record w {
  loops = λ l. if l == loop then destroy (w.loops l) else w.loops l;
}

module _ (getaddrinfo : List ℕ → List ℕ → Option (List AddrInfo)) where
  -- A step of the resolver thread. `pop_wait` returns when there is an entry.
  pub data Work (s : Shared) : Shared → Type 0 where
    goes_on :
        s.place ≡ testing → s.thread.keep_running ≡ true → Work s (record s { place = waiting })
    ends :
        s.place ≡ testing → s.thread.keep_running ≡ false → Work s (record s { place = finished })
    takes :
        (r : Query) (rest : BlockingQueue Query)
        → s.place ≡ waiting
        → pop_front s.thread.requests_ ≡ ok (r, rest)
        → Work s (record s { thread = record s.thread { requests_ = rest }; place = serving r })
    serves :
        (r : Query) (w : World)
        → s.place ≡ serving r
        → serve getaddrinfo r s.world ≡ ok w
        → Work s (record s { place = testing; world = w })

  -- What can be reached, with the requests made by `async_resolve` in threads that have a loop.
  -- `stop()` is two steps. The loops read their eventfds and take handlers out of their queues, and
  -- any thread hands handlers of its own to any loop.
  pub data Steps : List Query → Shared → Type 0 where
    begin : Steps [] starting
    asks :
        {rs : List Query} {s : Shared} (loop : ℕ) (host service : List ℕ) (handler : Option ℕ)
        → Steps rs s
        → Steps
            (rs ++ asking loop host service handler ∷ [])
            (record s { thread = async_resolve (some loop) host service handler s.thread })
    lowers :
        {rs : List Query} {s : Shared}
        → Steps rs s
        → s.stopper ≡ uncalled
        → Steps rs (record s { thread = lower s.thread; stopper = lowered })
    sends :
        {rs : List Query} {s : Shared}
        → Steps rs s
        → s.stopper ≡ lowered
        → Steps rs (record s { thread = request last_request s.thread; stopper = returned })
    works : {rs : List Query} {s s' : Shared} → Steps rs s → Work s s' → Steps rs s'
    loop_runs :
        {rs : List Query} {s : Shared} (loop h : ℕ) (rest : BlockingQueue ℕ)
        → Steps rs s
        → pop_front (s.world.loops loop).event_handlers ≡ ok (h, rest)
        → Steps rs (record s { world = taken loop h rest s.world })
    loop_reads :
        {rs : List Query} {s : Shared} (loop : ℕ)
        → Steps rs s
        → Steps rs (record s { world = eventfd_read loop s.world })
    loop_closes :
        {rs : List Query} {s : Shared} (loop : ℕ)
        → Steps rs s
        → Steps rs (record s { world = eventfd_closed loop s.world })
    others_hand :
        {rs : List Query} {s : Shared} (loop : ℕ)
        → Steps rs s
        → Steps rs (record s { world = hand (other loop) s.world })
