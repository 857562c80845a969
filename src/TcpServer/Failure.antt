-- ===== src/TcpServer/Failure.antt =====
-- src/TcpServer.cpp: `handleAcceptEvent` goes on behind a failure of `accept`.
use liby_cpp.Base.{
  ℕ, zero, suc, ◌+◌, ◌%◌, ◌<◌, ◌≡◌, refl, ap, ◌∙◌, List, ◌++◌, map, none, some, length, arith, pos,
  ok, fault, out_of_fuel, Returns, Returns-map,
}
use liby_cpp.Poller.{Poller}
use liby_cpp.Poller.Class.{Class}
use liby_cpp.Connection.{new_connection}
use liby_cpp.EventLoopGroup.{new_group}
use liby_cpp.Udp.{Endpoint}
use liby_cpp.TcpServer.{
  Listener, failed, threw, TcpServer, Session, ServerWorld, accept, init_connection, reset_chan,
  handle_erro_event, accept_loop, handle_accept_event,
}
use liby_cpp.TcpServer.Accept.{Accepts, Backlog, accept-Accepts, accept_loop-Taken}

-- The server that `handleErroEvent` leaves.
abbrev closed : TcpServer → TcpServer
closed server = record server {
  chan_ = none;
  acceptor_callback = none;
  read_event_callback = none;
  erro_event_callback = none;
}

-- A connection that no read callback was set for.
abbrev pub silent : ℕ → ℕ → ℕ → ℕ × Endpoint → Session
silent erro first n c = record {
  loop = first + c.0 % suc n;
  fd = c.0;
  peer = c.1;
  conn = record new_connection { read_event_callback = none; erro_event_callback = some erro };
}

module _ (listener : Listener) {P : Type 0} (class : Class P) (erro : ℕ) where
  handle_erro_event-closed :
      (w : ServerWorld listener class) (poller' : Poller P)
      → reset_chan listener class w.server.chan_ w.poller ≡ ok poller'
      → handle_erro_event listener class w
        ≡ ok (record w { server = closed w.server; poller = poller' })
  unfolding handle_erro_event
  handle_erro_event-closed w poller' e = simp e refl

  accept-broken :
      (retries : ℕ) (k : listener.State)
      → listener.accept k ≡ (failed, k)
      → accept listener (suc retries) k ≡ ok (threw, k)
  unfolding accept
  accept-broken retries k e = ground arith

  -- A round whose call of `accept` fails.
  round-failed :
      (retries fuel : ℕ) (w : ServerWorld listener class) (k : listener.State) (poller' : Poller P)
      → accept listener retries w.kernel ≡ ok (threw, k)
      → reset_chan listener class w.server.chan_ w.poller ≡ ok poller'
      → accept_loop listener class erro retries (suc fuel) w
        ≡ accept_loop listener class erro retries fuel
            (record w { server = closed w.server; poller = poller'; kernel = k })
  unfolding accept_loop
  round-failed retries fuel w k poller' e reset =
      simp (e, handle_erro_event-closed (record w { kernel = k }) poller' reset) refl

  loop-spins :
      (retries fuel : ℕ) (w : ServerWorld listener class)
      → listener.accept w.kernel ≡ (failed, w.kernel)
      → w.server.chan_ ≡ none
      → accept_loop listener class erro (suc retries) fuel w ≡ fault out_of_fuel
  unfolding accept_loop
  loop-spins retries zero w e gone = refl
  loop-spins retries (suc fuel) w e gone =
      round-failed (suc retries) fuel w w.kernel w.poller (accept-broken retries w.kernel e)
        (simp gone refl)
      ∙ loop-spins retries fuel (record w { server = closed w.server }) e refl

  -- When `accept` fails in a way that stays, such as too many open files, `handleAcceptEvent` of a
  -- server that listens never returns: no number of rounds is enough for its loop.
  pub handle_accept_event-spins :
      (retries fuel listenfd : ℕ) (w : ServerWorld listener class) (poller' : Poller P)
      → w.server.listenfd_ ≡ pos listenfd
      → listener.accept w.kernel ≡ (failed, w.kernel)
      → reset_chan listener class w.server.chan_ w.poller ≡ ok poller'
      → handle_accept_event listener class erro (suc retries) fuel w ≡ fault out_of_fuel
  unfolding handle_accept_event accept_loop
  handle_accept_event-spins retries zero listenfd w poller' listens e reset = simp listens refl
  handle_accept_event-spins retries (suc fuel) listenfd w poller' listens e reset = simp listens (
      round-failed (suc retries) fuel w w.kernel poller' (accept-broken retries w.kernel e) reset
      ∙ loop-spins retries fuel (record w { server = closed w.server; poller = poller' }) e refl)

  -- When one call of `accept` fails and the next ones succeed, as for a peer that gave up, the channel
  -- of the server is gone for good, and yet every socket that waited becomes a connection, which has no
  -- read callback.
  pub handle_accept_event-silent :
      (first n retries fuel listenfd : ℕ) (w : ServerWorld listener class) (poller' : Poller P)
      {interrupts : ℕ} {k j : listener.State} {cs : List (ℕ × Endpoint)}
      → Accepts listener interrupts w.kernel threw k
      → Backlog listener interrupts k cs j
      → interrupts < retries
      → length cs < fuel
      → w.server.listenfd_ ≡ pos listenfd
      → w.group ≡ new_group first n
      → reset_chan listener class w.server.chan_ w.poller ≡ ok poller'
      → Returns
          (λ w'.
            (w'.server.chan_ ≡ none)
            × (w'.server.read_event_callback ≡ none)
            × (w'.sessions ≡ w.sessions ++ map (silent erro first n) cs))
          (handle_accept_event listener class erro retries (suc fuel) w)
  unfolding handle_accept_event init_connection
  handle_accept_event-silent first n retries fuel listenfd w poller' {interrupts} {k} {j} {cs} fails
        waits few enough listens e reset =
      simp listens (
        rw (round-failed retries fuel w k poller' (accept-Accepts listener retries fails few) reset)
          (Returns-map
            (accept_loop-Taken listener class erro first n retries fuel
              (record w { server = closed w.server; poller = poller'; kernel = k }) waits few enough
              refl e)
            λ w' t. (
              ap (λ (s : TcpServer). s.chan_) t.same_server,
              ap (λ (s : TcpServer). s.read_event_callback) t.same_server,
              t.made_all,
            )))
