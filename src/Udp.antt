-- ===== src/Udp.antt =====
-- src/UdpSocket.h, src/UdpSocket.cpp, src/UdpConnection.h, src/UdpConnection.cpp: a socket with its
-- table of peers and its queue of writes, and the operator of src/Endpoint.h that the table is
-- ordered by. A connection is known by its place in the list of all that were made; none is freed.
pub mod Events
pub mod Peers
pub mod Inbox
pub mod Errors
mod Tests
use liby_cpp.Base.{
  ℕ, zero, suc, ◌+◌, Bool, true, false, not, ◌&&◌, ◌||◌, List, [], ◌∷◌, ◌++◌, Option, none, some,
  ltb, ◌==◌, if◌then◌else◌, length, get_elem?, Run, ok, fault, thrown, out_of_bounds, out_of_fuel,
  null_pointer, or_fault, ◌>>=◌, ◌>>◌,
}
use liby_cpp.Buffer.{
  Buffer, Cell, of_capacity, of_bytes, default_buffer, swap, capacity, bytes, size, retrieve,
}
use liby_cpp.Buffer.Moves.{append_bytes}
use liby_cpp.Poller.{
  Channel, Poller, put, deref, enable_read, enable_writ, on_read, on_writ, on_erro, is_empty,
}
use liby_cpp.Poller.Class.{Class, add_channel, update_channel, delete_channel}
use liby_cpp.Connection.{Answer, transferred, would_block, failed_write, until_zero}

-- Struct `Endpoint`.
pub record Endpoint : Type 0 where
  pub port_ : ℕ
  pub addr_ : ℕ

-- `operator<` of the endpoints.
unfoldable pub endpoint_less : Endpoint → Endpoint → Bool
endpoint_less ep1 ep2 =
    ltb ep1.addr_ ep2.addr_ || (ep1.addr_ == ep2.addr_ && ltb ep1.port_ ep2.port_)

-- The test of keys of a `std::map`: neither is less.
unfoldable pub equivalent : Endpoint → Endpoint → Bool
equivalent ep1 ep2 = not (endpoint_less ep1 ep2) && not (endpoint_less ep2 ep1)

-- `conns_.find(ep)`, the end of the map as `none`.
unfoldable pub find : Endpoint → List (Endpoint × ℕ) → Option ℕ
find ep [] = none
find ep ((key, p) ∷ rest) = if equivalent ep key then some p else find ep rest

-- `conns_.erase(ep)`
unfoldable pub erase : Endpoint → List (Endpoint × ℕ) → List (Endpoint × ℕ)
erase ep [] = []
erase ep ((key, p) ∷ rest) =
    let others = erase ep rest in if equivalent ep key then others else (key, p) ∷ others

-- What `recvfrom` gives: a datagram with its sender, or -1 with `EAGAIN`, or -1 otherwise.
pub data Datagram : Type 0 where
  datagram : List Cell → Endpoint → Datagram
  no_datagram : Datagram
  failed_receive : Datagram

-- The calls of a UDP socket, and what they make of the kernel's state.
pub record UdpNet : Type 1 where
  pub State : Type 0
  pub recvfrom : State → ℕ → Datagram × State
  pub sendto : State → List Cell → Endpoint → Answer × State

-- Struct `udp_io_task`; `dest_` points to the `peer_` of a connection, which never changes.
pub record UdpIoTask : Type 0 where
  pub dest_ : Endpoint
  pub buffer_ : Buffer
  pub handler_ : Option ℕ

pub record UdpConnection : Type 0 where
  pub peer_ : Endpoint
  pub read_buf : Buffer

pub record UdpSocket : Type 0 where
  pub destroy_ : Bool
  pub self_ : Bool
  pub socket_ : Bool
  pub chan_ : Option ℕ
  pub conns_ : List (Endpoint × ℕ)
  pub writ_tasks : List UdpIoTask
  pub acceptor_callback : Option ℕ
  pub read_event_callback : Option ℕ
  pub connector_callback : Option ℕ
  pub erro_event_callback : Option ℕ

-- A socket with the connections that were made, its poller and the state of the kernel.
pub record UdpWorld (net : UdpNet) (P : Type 0) : Type 0 where
  pub sock : UdpSocket
  pub uconns : List UdpConnection
  pub poller : Poller P
  pub kernel : net.State

-- `xs[i] = x`
unfoldable pub replace_at : {A : Type 0} → List A → ℕ → A → List A
replace_at [] i x = []
replace_at (y ∷ ys) zero x = x ∷ ys
replace_at (y ∷ ys) (suc i) x = y ∷ replace_at ys i x

-- `UdpConnection(socket, ep)`
unfoldable pub new_uconn : Endpoint → UdpConnection
new_uconn ep = record { peer_ = ep; read_buf = of_capacity 1024 }

-- `sizeof(buffer)` of `handleReadEvent`.
abbrev pub datagram_size : ℕ
datagram_size = 4096

module _ {net : UdpNet} {P : Type 0} where
  abbrev pub set_tasks : List UdpIoTask → UdpWorld net P → UdpWorld net P
  set_tasks ts w = let sock = record w.sock { writ_tasks = ts } in record w { sock = sock }

  -- `getReadBuf(ep)`
  unfoldable pub get_read_buf : Endpoint → UdpWorld net P → Run Buffer
  get_read_buf ep w = do
    p ← or_fault (find ep w.sock.conns_) thrown
    u ← or_fault (get_elem? w.uconns p) out_of_bounds
    ok u.read_buf

  -- `destroyConn(ep)`
  unfoldable pub destroy_conn : Endpoint → UdpWorld net P → UdpWorld net P
  destroy_conn ep w =
      let sock = record w.sock { conns_ = erase ep w.sock.conns_ } in record w { sock = sock }

  -- `conns_.insert` of a new connection: its place, and the table with it.
  unfoldable pub insert_uconn : Endpoint → UdpWorld net P → ℕ × UdpWorld net P
  insert_uconn ep w =
      let p = length w.uconns in
      let sock = record w.sock { conns_ = (ep, p) ∷ w.sock.conns_ } in
      (p, record w { sock = sock; uconns = w.uconns ++ new_uconn ep ∷ [] })

  -- `getReadBuf().append(buffer, n)` of the connection at place `p`.
  unfoldable pub append_at : ℕ → List Cell → UdpWorld net P → Run (UdpWorld net P)
  append_at p bs w = do
    u ← or_fault (get_elem? w.uconns p) out_of_bounds
    b ← append_bytes u.read_buf bs
    ok (record w { uconns = replace_at w.uconns p (record u { read_buf = b }) })

module _ (net : UdpNet) {P : Type 0} (class : Class P) where
  abbrev pub socket_set : UdpWorld net P → Run (Unit {0})
  socket_set w = if w.sock.socket_ then ok tt else fault null_pointer

  -- `chan_->`, changed by `f`.
  abbrev with_channel : (Channel → Channel) → UdpWorld net P → Run (ℕ × UdpWorld net P)
  with_channel f w = do
    p ← or_fault w.sock.chan_ null_pointer
    c ← deref w.poller p
    let poller = record w.poller { objects = put w.poller.objects p (some (f c)) }
    ok (p, record w { poller = poller })

  -- `enableWrit(flag)`
  unfoldable pub enable_udp_writ : Bool → UdpWorld net P → Run (UdpWorld net P)
  enable_udp_writ flag w = do
    r ← with_channel (λ c. enable_writ c flag) w
    poller ← update_channel class r.0 r.1.poller
    ok (record r.1 { poller = poller })

  -- `enableRead(flag)`
  unfoldable pub enable_udp_read : Bool → UdpWorld net P → Run (UdpWorld net P)
  enable_udp_read flag w = do
    r ← with_channel (λ c. enable_read c flag) w
    poller ← update_channel class r.0 r.1.poller
    ok (record r.1 { poller = poller })

  -- `start()`, with the numbers of the three functions that call the event handlers.
  unfoldable pub start : ℕ → ℕ → ℕ → UdpWorld net P → Run (UdpWorld net P)
  start read writ erro w = do
    let sock = record w.sock { self_ = true }
    r ←
        with_channel
          (λ c.
            enable_read (on_erro (on_writ (on_read c (some read)) (some writ)) (some erro)) true)
          (record w { sock = sock })
    poller ← add_channel class r.0 r.1.poller
    ok (record r.1 { poller = poller })

  -- The one owner of the channel lets it go.
  abbrev pub reset_channel : Option ℕ → Poller P → Run (Poller P)
  reset_channel none poller = ok poller
  reset_channel (some p) poller = delete_channel class p poller

  -- `destroy()`, which leaves `connectorCallback_`.
  unfoldable pub destroy : UdpWorld net P → Run (UdpWorld net P)
  destroy w = if w.sock.destroy_ then ok w else do
    poller ← reset_channel w.sock.chan_ w.poller
    let sock = record w.sock {
      destroy_ = true;
      self_ = false;
      socket_ = false;
      chan_ = none;
      conns_ = [];
      writ_tasks = [];
      acceptor_callback = none;
      read_event_callback = none;
      erro_event_callback = none;
    }
    ok (record w { sock = sock; poller = poller })

  -- `send(udp_io_task &&)`
  unfoldable pub send_task : UdpIoTask → UdpWorld net P → Run (UdpWorld net P)
  send_task t w = enable_udp_writ true (set_tasks (w.sock.writ_tasks ++ t ∷ []) w)

  -- `send(const udp_io_task &)`: the copy has no handler.
  unfoldable pub send_copied : UdpIoTask → UdpWorld net P → Run (UdpWorld net P)
  send_copied t w = send_task (record t { handler_ = none }) w

  -- `UdpConnection::send(base, len, handler)` of a connection to `peer`.
  unfoldable pub send_bytes :
      Endpoint → List Cell → Option ℕ → UdpWorld net P → Run (UdpWorld net P)
  send_bytes peer bs handler w =
      send_task (record { dest_ = peer; buffer_ = of_bytes bs; handler_ = handler }) w

  -- `UdpConnection::send(Buffer &, handler)`: the buffer of the caller after the call is empty.
  unfoldable pub send_buffer :
      Endpoint → Buffer → Option ℕ → UdpWorld net P → Run (Buffer × UdpWorld net P)
  send_buffer peer buf handler w = do
    n ← capacity buf
    let swapped = swap (of_capacity n) buf
    w' ← send_task (record { dest_ = peer; buffer_ = swapped.0; handler_ = handler }) w
    ok (swapped.1, w')

  -- `UdpConnection::send(Buffer &&, handler)`
  unfoldable pub send_moved :
      Endpoint → Buffer → Option ℕ → UdpWorld net P → Run (Buffer × UdpWorld net P)
  send_moved peer buf handler w = do
    w' ← send_task (record { dest_ = peer; buffer_ = buf; handler_ = handler }) w
    ok (default_buffer, w')

  -- `UdpConnection::send(buf, handler)` of a C string.
  unfoldable pub send_c_string :
      Endpoint → List ℕ → Option ℕ → UdpWorld net P → Run (UdpWorld net P)
  send_c_string peer str handler w = send_bytes peer (until_zero str) handler w

  -- `UdpConnection::send(str, handler)`
  unfoldable pub send_string :
      Endpoint → List Cell → Option ℕ → UdpWorld net P → Run (UdpWorld net P)
  send_string peer str handler w = send_bytes peer str handler w
