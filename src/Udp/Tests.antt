-- ===== src/Udp/Tests.antt =====
-- A kernel with a list of datagrams, and runs of a socket over it.
use liby_cpp.Base.{
  ℕ, refl, true, false, List, [], ◌∷◌, none, some, arith, Run, ok, Returns, returns,
}
use liby_cpp.Buffer.{Cell}
use liby_cpp.Poller.{Poller}
use liby_cpp.Poller.Class.{Class}
use liby_cpp.Connection.{would_block}
use liby_cpp.Udp.{Endpoint, find, Datagram, datagram, no_datagram, UdpNet, UdpSocket, UdpWorld}
use liby_cpp.Udp.Events.{handle_udp_read}
use liby_cpp.Udp.Peers.{IsTable}
use liby_cpp.Udp.Inbox.{Receives, drained, came, Sorted, handle_udp_read-Sorted}

abbrev next : List (List Cell × Endpoint) → Datagram × List (List Cell × Endpoint)
next [] = (no_datagram, [])
next ((bs, peer) ∷ ds) = (datagram bs peer, ds)

abbrev inbound : UdpNet
inbound = record {
  State = List (List Cell × Endpoint);
  recvfrom = λ ds n. next ds;
  sendto = λ ds bs peer. (would_block, ds);
}

abbrev idle_class : Class ℕ
idle_class = record {
  add_chanel = λ p w. ok w;
  update_chanel = λ p r t w. ok w;
  remove_chanel = λ p w. ok w;
}

abbrev poller : Poller ℕ
poller = record {
  open_max = 8;
  channels_ = λ fd. none;
  next_tick_handlers = [];
  next_loop_handlers = [];
  after_loop_handlers = [];
  objects = λ p. none;
  own = 0;
}

-- A new socket with the callback 1 for what is read.
abbrev socket : UdpSocket
socket = record {
  destroy_ = false;
  self_ = true;
  socket_ = true;
  chan_ = none;
  conns_ = [];
  writ_tasks = [];
  acceptor_callback = none;
  read_event_callback = some 1;
  connector_callback = none;
  erro_event_callback = none;
}

abbrev world : List (List Cell × Endpoint) → UdpWorld inbound ℕ
world ds = record { sock = socket; uconns = []; poller = poller; kernel = ds }

abbrev idle_conn : ℕ → ℕ → UdpWorld inbound ℕ → Run (UdpWorld inbound ℕ)
idle_conn h p w = ok w

abbrev idle : ℕ → UdpWorld inbound ℕ → Run (UdpWorld inbound ℕ)
idle h w = ok w

abbrev alice : Endpoint
alice = record { port_ = 1; addr_ = 10 }

abbrev bob : Endpoint
bob = record { port_ = 2; addr_ = 10 }

-- Two datagrams of one peer with one of another between them.
abbrev three : List (List Cell × Endpoint)
three = (some 1 ∷ [], alice) ∷ (some 2 ∷ [], bob) ∷ (some 3 ∷ [], alice) ∷ []

three-Receives : Receives inbound three three []
three-Receives =
    came three [] (some 1 ∷ []) alice ((some 2 ∷ [], bob) ∷ (some 3 ∷ [], alice) ∷ []) refl
      (omega arith)
      (came ((some 2 ∷ [], bob) ∷ (some 3 ∷ [], alice) ∷ []) [] (some 2 ∷ []) bob
        ((some 3 ∷ [], alice) ∷ []) refl (omega arith)
        (came ((some 3 ∷ [], alice) ∷ []) [] (some 3 ∷ []) alice [] refl (omega arith)
          (drained [] refl)))

no_peers : IsTable socket []
unfolding find
no_peers = record { placed = λ ep p h. absurd cc; apart = λ ep ep' p h h'. absurd cc }

handle_udp_read-Sorted_example :
    Returns
      (Sorted three [] (world three))
      (handle_udp_read inbound idle_class idle_conn idle 4 (world three))
handle_udp_read-Sorted_example =
    handle_udp_read-Sorted inbound idle_class idle_conn idle (λ h p w. returns (refl, refl, refl)) 4
      (world three) [] three three-Receives no_peers refl (omega arith)
