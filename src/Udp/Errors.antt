-- ===== src/Udp/Errors.antt =====
-- src/UdpSocket.cpp: an empty datagram, and a socket that is full.
use liby_cpp.Base.{
  ℕ, suc, ◌<◌, ◌≡◌, refl, ap, ◌∙◌, Bool, true, false, List, [], ◌∷◌, ◌++◌, Option, none, some,
  arith, if◌then◌else◌, length, get_elem?, fault, assertion_failed, null_pointer, out_of_bounds,
  or_fault, ◌>>=◌, Run, ok,
}
use liby_cpp.Buffer.Content.{content, IsValid, bytes-ok}
use liby_cpp.Buffer.Moves.{append_bytes}
use liby_cpp.Buffer.Moves.Strings.{append_bytes-nothing}
use liby_cpp.Poller.Class.{Class}
use liby_cpp.Connection.{would_block}
use liby_cpp.Udp.{
  Endpoint, find, datagram, UdpNet, UdpIoTask, UdpConnection, UdpWorld, set_tasks, new_uconn,
  insert_uconn, append_at, replace_at, datagram_size,
}
use liby_cpp.Udp.Peers.{get_elem?-last, IsTable}
use liby_cpp.Udp.Events.{
  conn_callback, deliver, handle_udp_read, handle_udp_erro, writ_loop, handle_udp_writ,
}

chosen {ℓ} : {A : Type ℓ} (b : Bool) (x y : A) → b ≡ true → (if b then x else y) ≡ x
chosen b x y h = rw h refl

if_same {ℓ} : {A : Type ℓ} (b : Bool) (x : A) → (if b then x else x) ≡ x
if_same true x = refl
if_same false x = refl

module _ (net : UdpNet) {P : Type 0} (class : Class P)
    (conn_act : ℕ → ℕ → UdpWorld net P → Run (UdpWorld net P))
    (act : ℕ → UdpWorld net P → Run (UdpWorld net P)) where
  append_at-nothing :
      (p : ℕ) (w : UdpWorld net P) (u : UdpConnection)
      → get_elem? w.uconns p ≡ some u
      → append_at p [] w ≡ fault assertion_failed
  unfolding append_at
  append_at-nothing p w u at =
      ap
        (λ (o : Option UdpConnection). or_fault o out_of_bounds >>= λ u1.
          append_bytes u1.read_buf [] >>= λ b.
          ok (record w { uconns = replace_at w.uconns p (record u1 { read_buf = b }) }))
        at
      ∙ rw (append_bytes-nothing u.read_buf) refl

  conn_callback-none :
      (cb : Option ℕ) (p : ℕ) (w : UdpWorld net P)
      → cb ≡ none
      → conn_callback net class conn_act act cb p w ≡ ok w
  conn_callback-none cb p w e = rw e refl

  deliver-nothing :
      (found : Option ℕ) (peer : Endpoint) (w : UdpWorld net P)
      → find peer w.sock.conns_ ≡ found
      → IsTable w.sock w.uconns
      → w.sock.acceptor_callback ≡ none
      → deliver net class conn_act act found [] peer w ≡ fault assertion_failed
  unfolding deliver insert_uconn
  deliver-nothing none peer w absent table accept =
      let sock = record w.sock { conns_ = (peer, length w.uconns) ∷ w.sock.conns_ } in
      let w' : UdpWorld net P = record w {
        sock = sock;
        uconns = w.uconns ++ new_uconn peer ∷ [];
      } in
      rw
        (
          conn_callback-none w.sock.acceptor_callback (length w.uconns) w' accept,
          append_at-nothing (length w.uconns) w' (new_uconn peer)
              (get_elem?-last w.uconns (new_uconn peer)),
        )
        refl
  deliver-nothing (some p) peer w found table accept =
      let (u, at, _) = table.placed peer p found in rw (append_at-nothing p w u at) refl

  -- An empty datagram stops the program, whoever sends it, if no callback is set for new senders:
  -- `append` asserts that there is a byte.
  pub handle_udp_read-empty_datagram :
      (fuel : ℕ) (w : UdpWorld net P) (peer : Endpoint)
      → IsTable w.sock w.uconns
      → w.sock.socket_ ≡ true
      → w.sock.acceptor_callback ≡ none
      → (net.recvfrom w.kernel datagram_size).0 ≡ datagram [] peer
      → handle_udp_read net class conn_act act (suc fuel) w ≡ fault assertion_failed
  unfolding handle_udp_read
  handle_udp_read-empty_datagram fuel w peer table set accept here =
      rw
        (
          chosen w.sock.socket_ (ok (tt {0})) (fault null_pointer) set,
          here,
          deliver-nothing (find peer w.sock.conns_) peer
              (record w { kernel = (net.recvfrom w.kernel datagram_size).1 }) refl table accept,
        )
        refl

  -- A socket that is only full is destroyed: when the first `sendto` of a write event would block,
  -- the event is the same as `handleErroEvent`, which destroys the socket with all that waits.
  pub handle_udp_writ-would_block :
      (fuel : ℕ) (w : UdpWorld net P) (t : UdpIoTask) (ts : List UdpIoTask)
      → IsValid t.buffer_
      → 0 < t.buffer_.capacity_
      → w.sock.socket_ ≡ true
      → (net.sendto w.kernel (content t.buffer_) t.dest_).0 ≡ would_block
      → handle_udp_writ net class conn_act act (suc fuel) (set_tasks (t ∷ ts) w)
        ≡ handle_udp_erro net class conn_act act (record (set_tasks (t ∷ ts) w) {
          kernel = (net.sendto w.kernel (content t.buffer_) t.dest_).1;
        })
  unfolding handle_udp_writ writ_loop
  handle_udp_writ-would_block fuel w t ts v room set full =
      rw
        (
          if_same w.sock.destroy_ (ok (set_tasks (t ∷ ts) w)),
          bytes-ok t.buffer_ v (omega (arith, v.sized, room)),
          chosen w.sock.socket_ (ok (tt {0})) (fault null_pointer) set,
          full,
        )
        refl
