-- ===== src/TcpServer.antt =====
-- src/TcpServer.h, src/TcpServer.cpp, and `accept` of src/Socket.cpp: a server takes connections and
-- hands each to a loop of its group.
pub mod Accept
pub mod Failure
mod Tests
use liby_cpp.Base.{
  ℕ, zero, suc, ◌+◌, List, [], ◌∷◌, ◌++◌, Bool, true, false, Option, none, some, ◌==◌,
  if◌then◌else◌, length, ℤ, pos, negsuc, Run, ok, fault, assert, assertion_failed, out_of_fuel,
  or_fault, null_pointer, ◌>>=◌, ◌>>◌,
}
use liby_cpp.Poller.{Channel, Poller, of_fd, put, enable_read, on_read, on_erro}
use liby_cpp.Poller.Class.{Class, add_channel, delete_channel}
use liby_cpp.Connection.{
  Connection, Net, World, new_connection, init, init1, enable_conn_read, callback,
}
use liby_cpp.EventQueue.{EventQueue, run_event_handler}
use liby_cpp.EventLoopGroup.{EventLoopGroup, robin_loop}
use liby_cpp.Udp.{Endpoint}

-- What the system call `accept` gives: a descriptor with the peer's address, `EAGAIN`, `EINTR` or
-- another error.
pub data Answer : Type 0 where
  connected : ℕ → Endpoint → Answer
  would_block interrupted failed : Answer

pub record Listener : Type 1 where
  pub State : Type 0
  pub accept : State → Answer × State

-- What `Socket::accept` gives: a socket, a null pointer, or an exception.
pub data Accepted : Type 0 where
  socket : ℕ → Endpoint → Accepted
  no_socket threw : Accepted

-- `listenfd_`, `chan_` and the callbacks, by their numbers.
pub record TcpServer : Type 0 where
  pub listenfd_ : ℤ
  pub chan_ : Option ℕ
  pub acceptor_callback : Option ℕ
  pub read_event_callback : Option ℕ
  pub erro_event_callback : Option ℕ

-- A connection that was made, with its loop, its descriptor, which is that of its channel too, and
-- its peer.
pub record Session : Type 0 where
  pub loop : ℕ
  pub fd : ℕ
  pub peer : Endpoint
  pub conn : Connection

-- `TcpServer(loop)`
unfoldable pub new_server : TcpServer
new_server = record {
  listenfd_ = negsuc 0;
  chan_ = none;
  acceptor_callback = none;
  read_event_callback = none;
  erro_event_callback = none;
}

-- `initConnection(conn)`; the number `erro` is that of the function it makes.
unfoldable pub init_connection : ℕ → TcpServer → Connection → Connection
init_connection erro server conn = record conn {
  read_event_callback = server.read_event_callback;
  erro_event_callback = some erro;
}

-- `Socket::accept()`, which calls itself after `EINTR`.
unfoldable pub accept : (listener : Listener) → ℕ → listener.State → Run (Accepted × listener.State)
accept listener zero k = fault out_of_fuel
accept listener (suc fuel) k =
    let answer = listener.accept k in
    elim answer.0 [
      | connected fd peer ↦ ok (socket fd peer, answer.1)
      | would_block ↦ ok (no_socket, answer.1)
      | interrupted ↦ accept listener fuel answer.1
      | failed ↦ ok (threw, answer.1)
    ]

module _ (listener : Listener) {P : Type 0} (class : Class P) where
  -- The server with the poller of its loop, the group and its loops by their addresses, the
  -- connections made, and the kernel. The function that the n-th connection hands to its loop has the
  -- number n.
  pub record ServerWorld : Type 0 where
    pub server : TcpServer
    pub poller : Poller P
    pub group : EventLoopGroup
    pub loops : ℕ → EventQueue
    pub sessions : List Session
    pub kernel : listener.State

  -- `start()`, with the socket's descriptor, the address of the new channel and the numbers of the two
  -- functions.
  unfoldable pub start : ℕ → ℕ → ℕ → ℕ → ServerWorld → Run ServerWorld
  start fd p accepts erro w = do
    made ← of_fd true (pos fd)
    let channel = on_erro (on_read (enable_read made true) (some accepts)) (some erro)
    poller ←
        add_channel class p (record w.poller { objects = put w.poller.objects p (some channel) })
    let server = record w.server { listenfd_ = pos fd; chan_ = some p }
    ok (record w { server = server; poller = poller })

  -- `chan_.reset()`
  abbrev pub reset_chan : Option ℕ → Poller P → Run (Poller P)
  reset_chan none poller = ok poller
  reset_chan (some p) poller = delete_channel class p poller

  -- `handleErroEvent()`
  unfoldable pub handle_erro_event : ServerWorld → Run ServerWorld
  handle_erro_event w = do
    poller ← reset_chan w.server.chan_ w.poller
    let server = record w.server {
      chan_ = none;
      acceptor_callback = none;
      read_event_callback = none;
      erro_event_callback = none;
    }
    ok (record w { server = server; poller = poller })

  -- A connection for a socket, and its function for the loop `loop_->robinLoop(fd)`.
  unfoldable pub take_connection : ℕ → ℕ → Endpoint → ServerWorld → Run ServerWorld
  take_connection erro fd peer w = do
    loop ← robin_loop w.group (pos fd)
    let session : Session = record {
      loop = loop;
      fd = fd;
      peer = peer;
      conn = init_connection erro w.server new_connection;
    }
    let handed : ℕ → EventQueue =
        λ l. if l == loop then run_event_handler (w.loops l) (length w.sessions) else w.loops l
    ok (record w { loops = handed; sessions = w.sessions ++ session ∷ [] })

  module _ (erro : ℕ) where
    -- The loop of `handleAcceptEvent()`.
    unfoldable pub accept_loop : ℕ → ℕ → ServerWorld → Run ServerWorld
    accept_loop retries zero w = fault out_of_fuel
    accept_loop retries (suc fuel) w = do
      r ← accept listener retries w.kernel
      let w1 = record w { kernel = r.1 }
      elim r.0 [
        | no_socket ↦ ok w1
        | socket fd peer ↦ do w2 ← take_connection erro fd peer w1; accept_loop retries fuel w2
        | threw ↦ do w2 ← handle_erro_event w1; accept_loop retries fuel w2
      ]

    -- `handleAcceptEvent()`, with the rounds of its loop and the calls of `accept` in one round.
    unfoldable pub handle_accept_event : ℕ → ℕ → ServerWorld → Run ServerWorld
    handle_accept_event retries fuel w = do
      elim w.server.listenfd_ [ pos fd ↦ ok tt | negsuc n ↦ fault assertion_failed ]
      accept_loop retries fuel w

-- The function that a connection hands to its loop, with the numbers of the connection's three event
-- functions, and what the user's callbacks do.
module _ (net : Net) {P : Type 0} (class : Class P)
    (act : ℕ → World net P → Run (World net P)) where
  unfoldable pub open_connection : ℕ → ℕ → ℕ → TcpServer → World net P → Run (World net P)
  open_connection read writ erro server w = do
    w1 ← init net class read writ erro w
    w2 ← init1 net class w1
    w3 ← enable_conn_read net class true w2
    callback net class act server.acceptor_callback w3
