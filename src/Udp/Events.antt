-- ===== src/Udp/Events.antt =====
-- src/UdpSocket.cpp: the events of a UDP socket. What the callbacks do is a parameter: one that gets
-- a connection by the place of that, one that gets the socket, and a handler of a write.
use liby_cpp.Base.{
  ℕ, zero, suc, false, List, [], ◌∷◌, Option, none, some, ◌==◌, if◌then◌else◌, Run, ok, fault,
  out_of_bounds, out_of_fuel, ◌>>=◌, ◌>>◌,
}
use liby_cpp.Buffer.{Cell, bytes, size, retrieve}
use liby_cpp.Poller.{is_empty}
use liby_cpp.Poller.Class.{Class}
use liby_cpp.Connection.{transferred, would_block, failed_write}
use liby_cpp.Udp.{
  Endpoint, find, datagram, no_datagram, failed_receive, UdpNet, UdpIoTask, UdpWorld, set_tasks,
  insert_uconn, append_at, datagram_size, socket_set, enable_udp_writ, destroy,
}

module _ (net : UdpNet) {P : Type 0} (class : Class P)
    (conn_act : ℕ → ℕ → UdpWorld net P → Run (UdpWorld net P))
    (act : ℕ → UdpWorld net P → Run (UdpWorld net P)) where
  abbrev pub conn_callback : Option ℕ → ℕ → UdpWorld net P → Run (UdpWorld net P)
  conn_callback none p w = ok w
  conn_callback (some h) p w = conn_act h p w

  abbrev pub callback : Option ℕ → UdpWorld net P → Run (UdpWorld net P)
  callback none w = ok w
  callback (some h) w = act h w

  -- `handleErroEvent()`
  unfoldable pub handle_udp_erro : UdpWorld net P → Run (UdpWorld net P)
  handle_udp_erro w = do w' ← callback w.sock.erro_event_callback w; destroy net class w'

  -- `handleConnectEvent(ep)`
  unfoldable pub handle_connect_event : Endpoint → UdpWorld net P → Run (UdpWorld net P)
  handle_connect_event ep w = elim (find ep w.sock.conns_) [
    | some p ↦ ok w
    | none ↦ let r = insert_uconn ep w in conn_callback r.1.sock.connector_callback r.0 r.1
  ]

  -- A datagram of `peer`, whose connection `find` gives.
  unfoldable pub deliver : Option ℕ → List Cell → Endpoint → UdpWorld net P → Run (UdpWorld net P)
  deliver none bs peer w = do
    let r = insert_uconn peer w
    w1 ← conn_callback r.1.sock.acceptor_callback r.0 r.1
    w2 ← append_at r.0 bs w1
    conn_callback w2.sock.read_event_callback r.0 w2
  deliver (some p) bs peer w = do
    w1 ← append_at p bs w
    conn_callback w1.sock.read_event_callback p w1

  -- `handleReadEvent()`, with fuel for its loop.
  unfoldable pub handle_udp_read : ℕ → UdpWorld net P → Run (UdpWorld net P)
  handle_udp_read zero w = fault out_of_fuel
  handle_udp_read (suc fuel) w = do
    socket_set net class w
    let answer = net.recvfrom w.kernel datagram_size
    let w1 = record w { kernel = answer.1 }
    elim answer.0 [
      | no_datagram ↦ ok w1
      | failed_receive ↦ handle_udp_erro w1
      | datagram bs peer ↦ do
        w2 ← deliver (find peer w1.sock.conns_) bs peer w1
        handle_udp_read fuel w2
    ]

  -- `writTasks_.pop_front()`
  abbrev pub pop_front : UdpWorld net P → List UdpIoTask → Run (UdpWorld net P)
  pop_front w [] = fault out_of_bounds
  pop_front w (t ∷ ts) = ok (set_tasks ts w)

  -- The loop of `handleWritEvent`. The test of the result against `EAGAIN` holds for every -1.
  unfoldable pub writ_loop : ℕ → List UdpIoTask → UdpWorld net P → Run (UdpWorld net P)
  writ_loop fuel [] w = ok w
  writ_loop zero (t ∷ ts) w = fault out_of_fuel
  writ_loop (suc fuel) (t ∷ ts) w = do
    bs ← bytes t.buffer_
    socket_set net class w
    let answer = net.sendto w.kernel bs t.dest_
    let w1 = record w { kernel = answer.1 }
    elim answer.0 [
      | would_block ↦ handle_udp_erro w1
      | failed_write ↦ handle_udp_erro w1
      | transferred n ↦ do
        b ← retrieve t.buffer_ n
        left ← size b
        let w2 = set_tasks (record t { buffer_ = b } ∷ ts) w1
        if left == 0
            then (do
              w3 ← callback t.handler_ w2
              w4 ← pop_front w3 w3.sock.writ_tasks
              writ_loop fuel w4.sock.writ_tasks w4)
            else writ_loop fuel w2.sock.writ_tasks w2
    ]

  -- `handleWritEvent()`, with fuel for its loop; the deferred call is made at once.
  unfoldable pub handle_udp_writ : ℕ → UdpWorld net P → Run (UdpWorld net P)
  handle_udp_writ fuel w = do
    w' ←
        if w.sock.destroy_
        then ok w
        else if is_empty w.sock.writ_tasks
        then enable_udp_writ net class false w
        else ok w
    writ_loop fuel w'.sock.writ_tasks w'
