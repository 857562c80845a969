-- ===== src/Udp/Peers.antt =====
-- src/Endpoint.h, src/UdpSocket.cpp: the order of the endpoints as equality, and the table of peers.
use mathlib.Core.Path.{subst}
use mathlib.Core.List.{append-nil}
use liby_cpp.Base.{
  ℕ, zero, suc, ◌<◌, ◌≡◌, refl, sym, ap, ◌∙◌, true, false, not, ◌&&◌, ◌||◌, Bool-cases,
  Option-cases, inl, inr, List, [], ◌∷◌, ◌++◌, Option, none, some, arith, ltb, ◌==◌, ==_iff,
  if◌then◌else◌, length, get_elem?, Returns, returns, Returns-bind, out_of_bounds,
}
use liby_cpp.Buffer.{Cell}
use liby_cpp.Buffer.Content.{content, IsValid, Holds}
use liby_cpp.Buffer.Moves.Append.{append_correct}
use liby_cpp.Connection.Sends.{or_fault-Returns}
use liby_cpp.Udp.{
  Endpoint, endpoint_less, equivalent, find, UdpNet, UdpConnection, UdpSocket, UdpWorld, replace_at,
  append_at,
}

equivalent-numbers :
    (a b c d : ℕ)
    → (not (ltb a c || (a == c && ltb b d)) && not (ltb c a || (c == a && ltb d b))) ≡ true
    → (a ≡ c) × (b ≡ d)
equivalent-numbers a b c d h = (ground arith, ground arith)

-- Keys of the map that are equivalent are equal.
pub equivalent-eq : (a b : Endpoint) → equivalent a b ≡ true → a ≡ b
unfolding equivalent endpoint_less
equivalent-eq a b h =
    let (addr, port) = equivalent-numbers a.addr_ a.port_ b.addr_ b.port_ h in
    ap (λ (n : ℕ). record { port_ = n; addr_ = a.addr_ }) port
    ∙ ap (λ (n : ℕ). record { port_ = b.port_; addr_ = n }) addr

pub equivalent_self : (a : Endpoint) → equivalent a a ≡ true
unfolding equivalent endpoint_less
equivalent_self a = ground arith

pub some-inj : {A : Type 0} {x y : A} → some x ≡ some y → x ≡ y
some-inj e = cc

==-ne : (a b : ℕ) → (a == b) ≡ false → ¬ (a ≡ b)
==-ne a b h e = cc (h, (==_iff a b).1 e)

module _ {A : Type 0} where
  get_elem?-replace_at :
      (xs : List A) (i : ℕ) (x y : A)
      → get_elem? xs i ≡ some y
      → get_elem? (replace_at xs i x) i ≡ some x
  unfolding replace_at
  get_elem?-replace_at [] i x y h = absurd cc
  get_elem?-replace_at (z ∷ zs) zero x y h = refl
  get_elem?-replace_at (z ∷ zs) (suc i) x y h = get_elem?-replace_at zs i x y h

  get_elem?-replace_ne :
      (xs : List A) (i j : ℕ) (x : A) → ¬ (i ≡ j) → get_elem? (replace_at xs i x) j ≡ get_elem? xs j
  unfolding replace_at
  get_elem?-replace_ne [] i j x h = refl
  get_elem?-replace_ne (z ∷ zs) zero zero x h = absurd (h refl)
  get_elem?-replace_ne (z ∷ zs) zero (suc j) x h = refl
  get_elem?-replace_ne (z ∷ zs) (suc i) zero x h = refl
  get_elem?-replace_ne (z ∷ zs) (suc i) (suc j) x h =
      get_elem?-replace_ne zs i j x λ e. h (ap suc e)

  pub get_elem?-last : (xs : List A) (y : A) → get_elem? (xs ++ y ∷ []) (length xs) ≡ some y
  get_elem?-last [] y = refl
  get_elem?-last (x ∷ xs) y = get_elem?-last xs y

  pub get_elem?-inside : (xs : List A) (i : ℕ) (x : A) → get_elem? xs i ≡ some x → i < length xs
  get_elem?-inside [] i x h = absurd cc
  get_elem?-inside (z ∷ xs) zero x h = omega arith
  get_elem?-inside (z ∷ xs) (suc i) x h = omega (arith, get_elem?-inside xs i x h)

abbrev pub content_of : Option UdpConnection → List Cell
content_of none = []
content_of (some u) = content u.read_buf

abbrev pub content_at : List UdpConnection → Option ℕ → List Cell
content_at uconns none = []
content_at uconns (some p) = content_of (get_elem? uconns p)

-- The bytes that wait from a peer: none if it has no connection.
abbrev pub inbox : Endpoint → UdpSocket → List UdpConnection → List Cell
inbox ep sock uconns = content_at uconns (find ep sock.conns_)

-- Every peer of the table has a connection of its own, with a valid buffer.
pub record IsTable (sock : UdpSocket) (uconns : List UdpConnection) : Type 0 where
  pub placed :
      (ep : Endpoint) (p : ℕ)
      → find ep sock.conns_ ≡ some p
      → (u : UdpConnection) × (get_elem? uconns p ≡ some u) × IsValid u.read_buf
  pub apart :
      (ep ep' : Endpoint) (p : ℕ)
      → find ep sock.conns_ ≡ some p
      → find ep' sock.conns_ ≡ some p
      → ep ≡ ep'

-- The bytes of a datagram for the peer `ep`.
abbrev pub share : Endpoint → List Cell → Endpoint → List Cell
share ep bs peer = if equivalent ep peer then bs else []

-- What a datagram of `bs` from `peer` makes of the connections.
pub record Appended {net : UdpNet} {P : Type 0} (bs : List Cell) (peer : Endpoint)
    (w w' : UdpWorld net P) : Type 0 where
  pub table : IsTable w'.sock w'.uconns
  pub same_socket : w'.sock.socket_ ≡ w.sock.socket_
  pub same_kernel : w'.kernel ≡ w.kernel
  pub inboxes :
      (ep : Endpoint) → inbox ep w'.sock w'.uconns ≡ inbox ep w.sock w.uconns ++ share ep bs peer

share-other : (ep peer : Endpoint) (bs : List Cell) → ¬ (ep ≡ peer) → share ep bs peer ≡ []
share-other ep peer bs ne = elim (Bool-cases (equivalent ep peer)) [
  | inl e ↦ absurd (ne (equivalent-eq ep peer e))
  | inr e ↦ rw e refl
]

share-own : (ep peer : Endpoint) (bs : List Cell) → ep ≡ peer → share ep bs peer ≡ bs
share-own ep peer bs e = rw (e, equivalent_self peer) refl

pub find-same :
    (sock : UdpSocket) (ep ep' : Endpoint) (p : ℕ)
    → find ep sock.conns_ ≡ some p
    → ep' ≡ ep
    → find ep' sock.conns_ ≡ some p
find-same sock ep ep' p h e = ap (λ (x : Endpoint). find x sock.conns_) e ∙ h

-- The connection at place `p`, that of `peer`, has got the bytes `bs`.
module _ (sock : UdpSocket) (uconns : List UdpConnection) (p : ℕ) (bs : List Cell) (peer : Endpoint)
    (u u' : UdpConnection) (table : IsTable sock uconns) (found : find peer sock.conns_ ≡ some p)
    (at : get_elem? uconns p ≡ some u) (holds : Holds (content u.read_buf ++ bs) u'.read_buf) where
  abbrev changed : List UdpConnection
  changed = replace_at uconns p u'

  replaced-IsTable : IsTable sock changed
  replaced-IsTable = record {
    placed = λ ep q here. elim (Bool-cases (p == q)) [
      | inl e ↦
          let same : p ≡ q = (==_iff p q).0 e in
          (
            u',
            ap (get_elem? changed) (sym same) ∙ get_elem?-replace_at uconns p u' u at,
            holds.valid,
          )
      | inr e ↦
          let (v, there, valid) = table.placed ep q here in
          (v, get_elem?-replace_ne uconns p q u' (==-ne p q e) ∙ there, valid)
    ];
    apart = table.apart;
  }

  replaced-inbox :
      (ep : Endpoint) → inbox ep sock changed ≡ inbox ep sock uconns ++ share ep bs peer
  replaced-inbox ep = elim (Option-cases (find ep sock.conns_)) [
    | inl e ↦
        let other = share-other ep peer bs λ same. cc (find-same sock peer ep p found same, e) in
        rw (e, other) refl
    | inr (q, e) ↦ elim (Bool-cases (p == q)) [
      | inl here ↦
          let same : p ≡ q = (==_iff p q).0 here in
          let own = share-own ep peer bs (table.apart ep peer p (e ∙ ap some (sym same)) found) in
          ap (content_at changed) (e ∙ ap some (sym same))
          ∙ ap content_of (get_elem?-replace_at uconns p u' u at)
          ∙ holds.same
          ∙ ap (λ (o : Option UdpConnection). content_of o ++ bs) (sym at)
          ∙ ap (λ (o : Option ℕ). content_at uconns o ++ bs) (ap some same ∙ sym e)
          ∙ ap (λ (l : List Cell). inbox ep sock uconns ++ l) (sym own)
      | inr there ↦
          let ne = ==-ne p q there in
          let other =
            share-other ep peer bs
              λ same. ne (some-inj (sym (find-same sock peer ep p found same) ∙ e)) in
          ap (content_at changed) e
          ∙ ap content_of (get_elem?-replace_ne uconns p q u' ne)
          ∙ ap (content_at uconns) (sym e)
          ∙ sym (append-nil (inbox ep sock uconns))
          ∙ ap (λ (l : List Cell). inbox ep sock uconns ++ l) (sym other)
    ]
  ]

module _ {net : UdpNet} {P : Type 0} where
  pub append_at-Appended :
      (p : ℕ) (bs : List Cell) (peer : Endpoint) (w : UdpWorld net P)
      → IsTable w.sock w.uconns
      → find peer w.sock.conns_ ≡ some p
      → 0 < length bs
      → Returns (λ w'. Appended bs peer w w' × (w'.sock ≡ w.sock)) (append_at p bs w)
  unfolding append_at
  append_at-Appended p bs peer w table found long =
      let (u, at, valid) = table.placed peer p found in
      Returns-bind (or_fault-Returns (get_elem? w.uconns p) out_of_bounds at) λ u1 same.
        Returns-bind
          (append_correct u1.read_buf bs
            (subst (λ (x : UdpConnection). IsValid x.read_buf) (sym same) valid) long)
          λ b holds.
            let u' : UdpConnection = record u1 { read_buf = b } in
            let at' = at ∙ ap some (sym same) in
            returns (
              record {
                table = replaced-IsTable w.sock w.uconns p bs peer u1 u' table found at' holds;
                same_socket = refl;
                same_kernel = refl;
                inboxes = replaced-inbox w.sock w.uconns p bs peer u1 u' table found at' holds;
              },
              refl,
            )
