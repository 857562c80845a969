-- ===== src/TcpServer/Accept.antt =====
-- src/TcpServer.cpp: every connection that waits is made, for the loop that its descriptor chooses.
use mathlib.Core.List.{append_assoc, append-nil}
use liby_cpp.Base.{
  ℕ, zero, suc, ◌+◌, ◌%◌, ◌<◌, ◌≡◌, refl, sym, ap, ◌∙◌, Bool-cases, inl, inr, List, [], ◌∷◌, ◌++◌,
  map, length, length-append, places, ◌==◌, if◌then◌else◌, arith, pos, ok, Returns, returns,
  Returns-map,
}
use liby_cpp.Poller.Class.{Class}
use liby_cpp.Connection.{new_connection}
use liby_cpp.EventQueue.{run_event_handler}
use liby_cpp.EventQueue.Wakeup.{run_event_handler-queue}
use liby_cpp.EventLoopGroup.{new_group}
use liby_cpp.EventLoopGroup.Choice.{robin_loop_lem}
use liby_cpp.Udp.{Endpoint}
use liby_cpp.TcpServer.{
  Listener, connected, would_block, interrupted, failed, Accepted, socket, no_socket, threw,
  TcpServer, Session, ServerWorld, accept, init_connection, take_connection, accept_loop,
  handle_accept_event,
}

module _ (listener : Listener) where
  -- What `Socket::accept` comes to when `EINTR` comes at most so many times.
  pub data Accepts : ℕ → listener.State → Accepted → listener.State → Type 0 where
    made :
        {n : ℕ} {k k' : listener.State} (fd : ℕ) (peer : Endpoint)
        → listener.accept k ≡ (connected fd peer, k')
        → Accepts n k (socket fd peer) k'
    nothing :
        {n : ℕ} {k k' : listener.State}
        → listener.accept k ≡ (would_block, k')
        → Accepts n k no_socket k'
    broke :
        {n : ℕ} {k k' : listener.State} → listener.accept k ≡ (failed, k') → Accepts n k threw k'
    again :
        {n : ℕ} {k k' j : listener.State} {a : Accepted}
        → listener.accept k ≡ (interrupted, k')
        → Accepts n k' a j
        → Accepts (suc n) k a j

  -- The connections that wait, in order, up to the `EAGAIN` behind them.
  pub data Backlog (n : ℕ) : listener.State → List (ℕ × Endpoint) → listener.State → Type 0 where
    end_of : {k j : listener.State} → Accepts n k no_socket j → Backlog n k [] j
    then_more :
        {k k' j : listener.State} {cs : List (ℕ × Endpoint)} (fd : ℕ) (peer : Endpoint)
        → Accepts n k (socket fd peer) k'
        → Backlog n k' cs j
        → Backlog n k ((fd, peer) ∷ cs) j

  pub accept-Accepts :
      (fuel : ℕ) {n : ℕ} {k j : listener.State} {a : Accepted}
      → Accepts n k a j
      → n < fuel
      → accept listener fuel k ≡ ok (a, j)
  unfolding accept
  accept-Accepts zero c h = absurd (omega arith)
  accept-Accepts (suc fuel) (made fd peer e) h = ground arith
  accept-Accepts (suc fuel) (nothing e) h = ground arith
  accept-Accepts (suc fuel) (broke e) h = ground arith
  accept-Accepts (suc fuel) (again e rest) h =
      ground (arith, accept-Accepts fuel rest (omega arith))

  module _ {P : Type 0} (class : Class P) (erro first n : ℕ) where
    -- The connection for a socket, in a group of `n + 1` loops.
    abbrev pub session_of : TcpServer → ℕ × Endpoint → Session
    session_of server c = record {
      loop = first + c.0 % suc n;
      fd = c.0;
      peer = c.1;
      conn = init_connection erro server new_connection;
    }

    -- The connections were made, each has handed its function to its loop, and the rest is as before.
    pub record Taken (cs : List (ℕ × Endpoint)) (w w' : ServerWorld listener class) : Type 0 where
      pub same_server : w'.server ≡ w.server
      pub same_poller : w'.poller ≡ w.poller
      pub made_all : w'.sessions ≡ w.sessions ++ map (session_of w.server) cs
      pub handed :
          (loop : ℕ)
          → (w'.loops loop).event_handlers.queue_
            ≡ (w.loops loop).event_handlers.queue_
              ++ places (λ s. loop == s.loop) (length w.sessions) (map (session_of w.server) cs)

    -- `w` with one more connection.
    abbrev with_session : ℕ × Endpoint → ServerWorld listener class → ServerWorld listener class
    with_session c w = record w {
      loops = λ l.
          if l == first + c.0 % suc n
          then run_event_handler (w.loops l) (length w.sessions)
          else w.loops l;
      sessions = w.sessions ++ session_of w.server c ∷ [];
    }

    take_connection_lem :
        (c : ℕ × Endpoint) (w : ServerWorld listener class)
        → w.group ≡ new_group first n
        → take_connection listener class erro c.0 c.1 w ≡ ok (with_session c w)
    unfolding take_connection
    take_connection_lem c w e = rw (e, robin_loop_lem first n c.0) refl

    first-Taken :
        (c : ℕ × Endpoint) (cs : List (ℕ × Endpoint)) (k : listener.State)
        (w w' : ServerWorld listener class)
        → Taken cs (with_session c (record w { kernel = k })) w'
        → Taken (c ∷ cs) w w'
    first-Taken c cs k w w' t = record {
      same_server = t.same_server;
      same_poller = t.same_poller;
      made_all = t.made_all ∙ append_assoc w.sessions _ _;
      handed = λ loop.
          let count : length (w.sessions ++ session_of w.server c ∷ []) ≡ suc (length w.sessions) =
            omega (arith, length-append w.sessions (session_of w.server c ∷ [])) in
          let rest = rw count at (t.handed loop) in
          elim (Bool-cases (loop == first + c.0 % suc n)) [
            | inl e ↦ rw e (
                rw e at rest
                ∙ ap
                    (λ (q : List ℕ).
                      q
                      ++ places (λ s. loop == s.loop) (suc (length w.sessions))
                          (map (session_of w.server) cs))
                    (run_event_handler-queue (w.loops loop) (length w.sessions))
                ∙ append_assoc (w.loops loop).event_handlers.queue_ _ _)
            | inr e ↦ rw e (rw e at rest)
          ];
    }

    pub accept_loop-Taken :
        (retries fuel : ℕ) (w : ServerWorld listener class) {interrupts : ℕ} {k j : listener.State}
        {cs : List (ℕ × Endpoint)}
        → Backlog interrupts k cs j
        → interrupts < retries
        → length cs < fuel
        → w.kernel ≡ k
        → w.group ≡ new_group first n
        → Returns (Taken cs w) (accept_loop listener class erro retries fuel w)
    unfolding accept_loop
    accept_loop-Taken retries zero w waits few enough at e = absurd (omega arith)
    accept_loop-Taken retries (suc fuel) w (end_of c) few enough at e =
        simp (at, accept-Accepts retries c few)
          (returns (record {
            same_server = refl;
            same_poller = refl;
            made_all = sym (append-nil w.sessions);
            handed = λ loop. sym (append-nil (w.loops loop).event_handlers.queue_);
          }))
    accept_loop-Taken retries (suc fuel) w (then_more {k' = k'} {cs = cs} fd peer c rest) few enough
          at e =
        simp
          (
            at,
            accept-Accepts retries c few,
            take_connection_lem (fd, peer) (record w { kernel = k' }) e,
          )
          (Returns-map
            (accept_loop-Taken retries fuel (with_session (fd, peer) (record w { kernel = k' }))
              rest few (omega arith) refl e)
            λ w' t. first-Taken (fd, peer) cs k' w w' t)

    -- `handleAcceptEvent` of a server that listens returns, if no call of `accept` fails: it has made a
    -- connection for every socket that waited, in order, with the server's read callback, and each has
    -- handed its one function to the loop number `fd % (n + 1)` of the group, behind what that loop has
    -- to do; the server, its channel and the poller are as before.
    pub handle_accept_event-Taken :
        {interrupts : ℕ} {j : listener.State} {cs : List (ℕ × Endpoint)} (retries fuel listenfd : ℕ)
        (w : ServerWorld listener class)
        → Backlog interrupts w.kernel cs j
        → interrupts < retries
        → length cs < fuel
        → w.server.listenfd_ ≡ pos listenfd
        → w.group ≡ new_group first n
        → Returns (Taken cs w) (handle_accept_event listener class erro retries fuel w)
    unfolding handle_accept_event
    handle_accept_event-Taken retries fuel listenfd w waits few enough listens e =
        simp listens (accept_loop-Taken retries fuel w waits few enough refl e)
