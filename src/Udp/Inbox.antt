-- ===== src/Udp/Inbox.antt =====
-- src/UdpSocket.cpp: what `handleReadEvent` does with the datagrams that have come.
use mathlib.Core.List.{append_assoc, append-nil}
use mathlib.Core.Path.{subst}
use liby_cpp.Base.{
  ℕ, zero, suc, ◌<◌, ◌≡◌, refl, sym, ap, ◌∙◌, true, false, Bool-cases, Option-cases, inl, inr, List,
  [], ◌∷◌, ◌++◌, Option, none, some, arith, length, get_elem?, get_elem?-append, Run, Returns,
  returns, Returns-bind, Returns-if, Returns-map,
}
use liby_cpp.Buffer.{Cell}
use liby_cpp.Buffer.Moves.Strings.{of_capacity-Holds}
use liby_cpp.Poller.Class.{Class}
use liby_cpp.Udp.{
  Endpoint, equivalent, find, datagram, no_datagram, UdpNet, UdpConnection, UdpSocket, UdpWorld,
  new_uconn, insert_uconn, datagram_size, socket_set,
}
use liby_cpp.Udp.Peers.{
  equivalent-eq, equivalent_self, some-inj, get_elem?-last, get_elem?-inside, content_of,
  content_at, inbox, IsTable, share, Appended, append_at-Appended,
}
use liby_cpp.Udp.Events.{conn_callback, deliver, handle_udp_read}

-- A new connection for `peer`.
module _ (sock : UdpSocket) (uconns : List UdpConnection) (peer : Endpoint)
    (table : IsTable sock uconns) (absent : find peer sock.conns_ ≡ none) where
  abbrev grown : UdpSocket
  grown = record sock { conns_ = (peer, length uconns) ∷ sock.conns_ }

  abbrev longer : List UdpConnection
  longer = uconns ++ new_uconn peer ∷ []

  not_new : (ep : Endpoint) (p : ℕ) → find ep sock.conns_ ≡ some p → ¬ (p ≡ length uconns)
  not_new ep p h e =
      let (u, at, _) = table.placed ep p h in omega (arith, get_elem?-inside uconns p u at, e)

  find-own :
      (ep : Endpoint) → equivalent ep peer ≡ true → find ep grown.conns_ ≡ some (length uconns)
  unfolding find
  find-own ep e = rw e refl

  find-other :
      (ep : Endpoint) → equivalent ep peer ≡ false → find ep grown.conns_ ≡ find ep sock.conns_
  unfolding find
  find-other ep e = rw e refl

  grown-IsTable : IsTable grown longer
  unfolding new_uconn
  grown-IsTable = record {
    placed = λ ep p here. elim (Bool-cases (equivalent ep peer)) [
      | inl e ↦
          let at : length uconns ≡ p = some-inj (sym (find-own ep e) ∙ here) in
          (
            new_uconn peer,
            ap (get_elem? longer) (sym at) ∙ get_elem?-last uconns (new_uconn peer),
            (of_capacity-Holds 1024).valid,
          )
      | inr e ↦
          let (u, at, valid) = table.placed ep p (sym (find-other ep e) ∙ here) in
          (u, get_elem?-append uconns (new_uconn peer ∷ []) p u at, valid)
    ];
    apart = λ ep ep' p here here'. elim (Bool-cases (equivalent ep peer)) [
      | inl e ↦ elim (Bool-cases (equivalent ep' peer)) [
        | inl e' ↦ equivalent-eq ep peer e ∙ sym (equivalent-eq ep' peer e')
        | inr e' ↦
            absurd (
              not_new ep' p (sym (find-other ep' e') ∙ here') (some-inj (sym here ∙ find-own ep e)))
      ]
      | inr e ↦ elim (Bool-cases (equivalent ep' peer)) [
        | inl e' ↦
            absurd
              (not_new ep p (sym (find-other ep e) ∙ here) (some-inj (sym here' ∙ find-own ep' e')))
        | inr e' ↦
            table.apart ep ep' p (sym (find-other ep e) ∙ here) (sym (find-other ep' e') ∙ here')
      ]
    ];
  }

  grown-inbox : (ep : Endpoint) → inbox ep grown longer ≡ inbox ep sock uconns
  unfolding new_uconn
  grown-inbox ep = elim (Bool-cases (equivalent ep peer)) [
    | inl e ↦
        let old = find-old ep (equivalent-eq ep peer e) in
        ap (content_at longer) (find-own ep e)
        ∙ ap content_of (get_elem?-last uconns (new_uconn peer))
        ∙ (of_capacity-Holds 1024).same
        ∙ ap (content_at uconns) (sym old)
    | inr e ↦ ap (content_at longer) (find-other ep e) ∙ elim (Option-cases (find ep sock.conns_)) [
      | inl none_found ↦ ap (content_at longer) none_found ∙ ap (content_at uconns) (sym none_found)
      | inr (p, found) ↦
          let (u, at, _) = table.placed ep p found in
          ap (content_at longer) found
          ∙ ap content_of (get_elem?-append uconns (new_uconn peer ∷ []) p u at ∙ sym at)
          ∙ ap (content_at uconns) (sym found)
    ]
  ]
    where
      find-old : (ep : Endpoint) → ep ≡ peer → find ep sock.conns_ ≡ none
      find-old ep e = ap (λ (x : Endpoint). find x sock.conns_) e ∙ absent

-- A callback that leaves the socket, its connections and the kernel as they are.
abbrev pub Looks : {net : UdpNet} {P : Type 0} → UdpWorld net P → UdpWorld net P → Type 0
Looks w w' = (w'.sock ≡ w.sock) × (w'.uconns ≡ w.uconns) × (w'.kernel ≡ w.kernel)

-- The kernel has the datagrams `ds`, none of them empty, and then no more.
pub data Receives (net : UdpNet)
    : net.State → List (List Cell × Endpoint) → net.State → Type 0 where
  drained :
      (k : net.State)
      → (net.recvfrom k datagram_size).0 ≡ no_datagram
      → Receives net k [] (net.recvfrom k datagram_size).1
  came :
      (k k' : net.State) (bs : List Cell) (peer : Endpoint) (ds : List (List Cell × Endpoint))
      → (net.recvfrom k datagram_size).0 ≡ datagram bs peer
      → 0 < length bs
      → Receives net (net.recvfrom k datagram_size).1 ds k'
      → Receives net k ((bs, peer) ∷ ds) k'

-- The bytes that come from the peer `ep`, in order.
abbrev pub shares : Endpoint → List (List Cell × Endpoint) → List Cell
shares ep [] = []
shares ep ((bs, peer) ∷ ds) = share ep bs peer ++ shares ep ds

-- What a read event makes of the datagrams `ds`.
pub record Sorted {net : UdpNet} {P : Type 0} (ds : List (List Cell × Endpoint)) (k : net.State)
    (w w' : UdpWorld net P) : Type 0 where
  pub table : IsTable w'.sock w'.uconns
  pub kernel : w'.kernel ≡ k
  pub inboxes :
      (ep : Endpoint) → inbox ep w'.sock w'.uconns ≡ inbox ep w.sock w.uconns ++ shares ep ds

IsTable-same :
    (sock sock' : UdpSocket) (uconns uconns' : List UdpConnection)
    → sock' ≡ sock
    → uconns' ≡ uconns
    → IsTable sock uconns
    → IsTable sock' uconns'
IsTable-same sock sock' uconns uconns' e f table =
    subst (λ (s : UdpSocket). IsTable s uconns') (sym e)
      (subst (λ (us : List UdpConnection). IsTable sock us) (sym f) table)

inbox-same :
    (ep : Endpoint) (sock sock' : UdpSocket) (uconns uconns' : List UdpConnection)
    → sock' ≡ sock
    → uconns' ≡ uconns
    → inbox ep sock' uconns' ≡ inbox ep sock uconns
inbox-same ep sock sock' uconns uconns' e f =
    ap (λ (s : UdpSocket). inbox ep s uconns') e
    ∙ ap (λ (us : List UdpConnection). inbox ep sock us) f

module _ (net : UdpNet) {P : Type 0} (class : Class P)
    (conn_act : ℕ → ℕ → UdpWorld net P → Run (UdpWorld net P))
    (act : ℕ → UdpWorld net P → Run (UdpWorld net P))
    (looks : (h p : ℕ) (w : UdpWorld net P) → Returns (Looks w) (conn_act h p w)) where
  conn_callback-Looks :
      (cb : Option ℕ) (p : ℕ) (w : UdpWorld net P)
      → Returns (Looks w) (conn_callback net class conn_act act cb p w)
  conn_callback-Looks none p w = returns (refl, refl, refl)
  conn_callback-Looks (some h) p w = looks h p w

  socket_set-ok :
      (w : UdpWorld net P)
      → w.sock.socket_ ≡ true
      → Returns (λ _. Unit {0}) (socket_set net class w)
  socket_set-ok w set = Returns-if w.sock.socket_ (λ _. returns tt) λ e. absurd (cc (e, set))

  -- What comes before and behind the append leaves the inboxes alone.
  Appended-around :
      (bs : List Cell) (peer : Endpoint) (w v v' w' : UdpWorld net P)
      → ((ep : Endpoint) → inbox ep v.sock v.uconns ≡ inbox ep w.sock w.uconns)
      → v.sock.socket_ ≡ w.sock.socket_
      → v.kernel ≡ w.kernel
      → Appended bs peer v v'
      → Looks v' w'
      → Appended bs peer w w'
  Appended-around bs peer w v v' w' boxes socket kernel a (s, u, k) = record {
    table = IsTable-same v'.sock w'.sock v'.uconns w'.uconns s u a.table;
    same_socket = ap UdpSocket.socket_ s ∙ a.same_socket ∙ socket;
    same_kernel = k ∙ a.same_kernel ∙ kernel;
    inboxes = λ ep.
        inbox-same ep v'.sock w'.sock v'.uconns w'.uconns s u
        ∙ a.inboxes ep
        ∙ ap (λ (l : List Cell). l ++ share ep bs peer) (boxes ep);
  }

  deliver-Appended :
      (found : Option ℕ) (bs : List Cell) (peer : Endpoint) (w : UdpWorld net P)
      → find peer w.sock.conns_ ≡ found
      → IsTable w.sock w.uconns
      → 0 < length bs
      → Returns (Appended bs peer w) (deliver net class conn_act act found bs peer w)
  unfolding deliver insert_uconn
  deliver-Appended none bs peer w absent table long =
      let p = length w.uconns in
      let sock = grown w.sock w.uconns peer table absent in
      let uconns = longer w.sock w.uconns peer table absent in
      Returns-bind
        (conn_callback-Looks w.sock.acceptor_callback p (record w { sock = sock; uconns = uconns }))
        λ w1 (s, u, k).
          let table1 =
            IsTable-same sock w1.sock uconns w1.uconns s u
              (grown-IsTable w.sock w.uconns peer table absent) in
          let found1 =
            ap (λ (x : UdpSocket). find peer x.conns_) s
            ∙ find-own w.sock w.uconns peer table absent peer (equivalent_self peer) in
          Returns-bind (append_at-Appended p bs peer w1 table1 found1 long) λ w2 (a, _).
            Returns-map (conn_callback-Looks w2.sock.read_event_callback p w2) λ w3 l.
              Appended-around bs peer w w1 w2 w3
                (λ ep.
                  inbox-same ep sock w1.sock uconns w1.uconns s u
                  ∙ grown-inbox w.sock w.uconns peer table absent ep)
                (ap UdpSocket.socket_ s) k a l
  deliver-Appended (some p) bs peer w found table long =
      Returns-bind (append_at-Appended p bs peer w table found long) λ w1 (a, _).
        Returns-map (conn_callback-Looks w1.sock.read_event_callback p w1)
          λ w2 l. Appended-around bs peer w w w1 w2 (λ ep. refl) refl refl a l

  read_loop-Sorted :
      (fuel : ℕ) (w : UdpWorld net P) (k k' : net.State) (ds : List (List Cell × Endpoint))
      → Receives net k ds k'
      → w.kernel ≡ k
      → IsTable w.sock w.uconns
      → w.sock.socket_ ≡ true
      → length ds < fuel
      → Returns (Sorted ds k' w) (handle_udp_read net class conn_act act fuel w)
  unfolding handle_udp_read
  read_loop-Sorted zero w k k' ds r at table set enough = absurd (omega arith)
  read_loop-Sorted (suc fuel) w _ _ _ (drained k nothing) at table set enough =
      let nothing' = ap (λ (x : net.State). (net.recvfrom x datagram_size).0) at ∙ nothing in
      Returns-bind (socket_set-ok w set) λ _ _. rw nothing' (
        returns (record {
          table = table;
          kernel = ap (λ (x : net.State). (net.recvfrom x datagram_size).1) at;
          inboxes = λ ep. sym (append-nil (inbox ep w.sock w.uconns));
        }))
  read_loop-Sorted (suc fuel) w _ _ _ (came k k' bs peer ds here long r) at table set enough =
      let here' = ap (λ (x : net.State). (net.recvfrom x datagram_size).0) at ∙ here in
      let k1 = (net.recvfrom w.kernel datagram_size).1 in
      Returns-bind (socket_set-ok w set) λ _ _. rw here' (
        Returns-bind
          (deliver-Appended (find peer w.sock.conns_) bs peer (record w { kernel = k1 }) refl table
            long)
          λ w1 a.
            Returns-map
              (read_loop-Sorted fuel w1 (net.recvfrom k datagram_size).1 k' ds r
                (a.same_kernel ∙ ap (λ (x : net.State). (net.recvfrom x datagram_size).1) at)
                a.table (a.same_socket ∙ set) (omega (arith, enough)))
              λ w2 t. record {
                table = t.table;
                kernel = t.kernel;
                inboxes = λ ep.
                    t.inboxes ep
                    ∙ ap (λ (l : List Cell). l ++ shares ep ds) (a.inboxes ep)
                    ∙ append_assoc (inbox ep w.sock w.uconns) (share ep bs peer) (shares ep ds);
              })

  -- A read event of datagrams that are not empty puts each behind the bytes that wait from its
  -- sender, in the order in which they came, in the connection of that sender alone, and makes a
  -- connection for each new sender, if every peer of the table has a connection of its own with a
  -- valid buffer and the callbacks leave socket, connections and kernel alone. It ends with fuel for
  -- one round more than there are datagrams, and the kernel has no more of them.
  pub handle_udp_read-Sorted :
      (fuel : ℕ) (w : UdpWorld net P) (k : net.State) (ds : List (List Cell × Endpoint))
      → Receives net w.kernel ds k
      → IsTable w.sock w.uconns
      → w.sock.socket_ ≡ true
      → length ds < fuel
      → Returns (Sorted ds k w) (handle_udp_read net class conn_act act fuel w)
  handle_udp_read-Sorted fuel w k ds r table set enough =
      read_loop-Sorted fuel w w.kernel k ds r refl table set enough
