-- ===== src/Connection/Sends.antt =====
-- src/Connection.cpp: what the calls that send put in the queue of writes.
use mathlib.Core.List.{append-nil}
use liby_cpp.Base.{
  ℕ, ◌≡◌, refl, sym, assert, ==_self, ne→==, ◌<◌, arith, ap, Bool-cases, inl, inr, ◌∙◌, Bool, true,
  List, [], ◌∷◌, ◌++◌, Option, none, some, if◌then◌else◌, length, ◌==◌, Fault, null_pointer,
  out_of_bounds, out_of_fuel, or_fault, Returns, returns, Returns-bind, Returns-map, Halts, halts,
  broke, Halts-bind, Halts-assert, Halts-map,
}
use liby_cpp.Buffer.{Buffer, Cell, of_bytes, of_capacity}
use liby_cpp.Buffer.Content.{IsValid, capacity-ok, swap-ok}
use liby_cpp.Poller.{Poller, Channel, put, enable_writ}
use liby_cpp.Poller.Class.{Class, update_channel}
use liby_cpp.Connection.{
  Net, Connection, IoTask, World, enable_conn_writ, send, send_string, send_buffer,
}
use liby_cpp.Connection.Stream.{buffer_entry}

pub or_fault-Halts {ℓ} :
    {X : Type ℓ} (o : Option X) (e : Fault)
    → ¬ (e ≡ out_of_fuel)
    → Halts (λ x. o ≡ some x) (or_fault o e)
or_fault-Halts none e h = broke h
or_fault-Halts (some x) e h = halts refl

pub or_fault-Returns {ℓ} :
    {X : Type ℓ} (o : Option X) (e : Fault) {x : X}
    → o ≡ some x
    → Returns (λ y. y ≡ x) (or_fault o e)
or_fault-Returns none e h = absurd cc
or_fault-Returns (some y) e h = returns cc

assert-Returns : (test : Bool) → test ≡ true → Returns (λ _. Unit {0}) (assert test)
assert-Returns test h = rw h (returns tt)

put_self {ℓ} : {A : Type ℓ} (p : ℕ) (a : A) (f : ℕ → A) → put f p a p ≡ a
put_self p a f = rw (==_self p) refl

-- A channel that is alive and has its poller stays so.
abbrev pub Keeps : {P : Type 0} → Poller P → Poller P → Type 0
Keeps w w' =
    (p : ℕ) (c : Channel)
    → w.objects p ≡ some c
    → c.poller_ ≡ true
    → (c' : Channel) × (w'.objects p ≡ some c') × (c'.poller_ ≡ true)

-- Of connection and kernel only the queue of writes is different: the tasks `ts` stand behind.
pub record Queued {net : Net} {P : Type 0} (ts : List IoTask) (w w' : World net P) : Type 0 where
  pub same_conn : w'.conn ≡ record w.conn { writ_tasks = w.conn.writ_tasks ++ ts }
  pub same_kernel : w'.kernel ≡ w.kernel

-- The task for a text, none for the empty one.
abbrev pub text_tasks : List Cell → Option ℕ → List IoTask
text_tasks bs handler = if length bs == 0 then [] else buffer_entry 0 0 (of_bytes bs) handler ∷ []

pub text_tasks-cons :
    (bs : List Cell) (handler : Option ℕ)
    → 0 < length bs
    → text_tasks bs handler ≡ buffer_entry 0 0 (of_bytes bs) handler ∷ []
text_tasks-cons bs handler h = rw (ne→== (length bs) 0 (λ e. omega (arith, h, e))) refl

nothing-Queued : {net : Net} {P : Type 0} (w : World net P) → Queued [] w w
nothing-Queued w = record {
  same_conn =
      ap (λ (ts : List IoTask). record w.conn { writ_tasks = ts })
        (sym (append-nil w.conn.writ_tasks));
  same_kernel = refl;
}

-- The connection has a channel that is alive and has its poller.
pub record IsLive {net : Net} {P : Type 0} (w : World net P) : Type 0 where
  pub ptr : ℕ
  pub channel : Channel
  pub held : w.conn.chan_ ≡ some ptr
  pub alive : w.poller.objects ptr ≡ some channel
  pub polled : channel.poller_ ≡ true

module _ (net : Net) {P : Type 0} (class : Class P) where
  module _
      (updates : (p : ℕ) (r t : Bool) (w : Poller P)
        → Halts (λ _. Unit {0}) (class.update_chanel p r t w)) where
    update_channel-Halts : (p : ℕ) (w : Poller P) → Halts (λ _. Unit {0}) (update_channel class p w)
    unfolding update_channel
    update_channel-Halts p w =
        Halts-bind (or_fault-Halts (w.objects p) out_of_bounds λ e. cc)
          λ c _. Halts-bind (Halts-assert c.poller_) λ _ _. updates p c.readable_ c.writable_ w

    pub enable_conn_writ-Halts :
        (flag : Bool) (w : World net P)
        → Halts
            (λ w'. (w'.conn ≡ w.conn) × (w'.kernel ≡ w.kernel))
            (enable_conn_writ net class flag w)
    unfolding enable_conn_writ
    enable_conn_writ-Halts flag w =
        Halts-bind {Q = λ (r : ℕ × World net P). (r.1.conn ≡ w.conn) × (r.1.kernel ≡ w.kernel)}
          (Halts-bind (or_fault-Halts w.conn.chan_ null_pointer λ e. cc) λ p _.
            Halts-bind (or_fault-Halts (w.poller.objects p) out_of_bounds λ e. cc)
              λ c _. halts (refl, refl))
          λ r (c, k). Halts-bind (update_channel-Halts r.0 r.1.poller) λ poller _. halts (c, k)

    send-Queued :
        (bs : List Cell) (handler : Option ℕ) (w : World net P)
        → Halts
            (Queued (buffer_entry 0 0 (of_bytes bs) handler ∷ []) w)
            (send net class bs handler w)
    unfolding send
    send-Queued bs handler w =
        Halts-map (enable_conn_writ-Halts true _)
          λ w' (c, k). record { same_conn = c; same_kernel = k }

    pub send_string-Queued :
        (bs : List Cell) (handler : Option ℕ) (w : World net P)
        → Halts (Queued (text_tasks bs handler) w) (send_string net class bs handler w)
    unfolding send_string
    send_string-Queued bs handler w = elim (Bool-cases (length bs == 0)) [
      | inl e ↦ rw e (halts (nothing-Queued w))
      | inr e ↦ rw e (send-Queued bs handler w)
    ]

  -- A class of pollers that takes every change of events.
  module _
      (updates : (p : ℕ) (r t : Bool) (w : Poller P)
        → Returns (Keeps w) (class.update_chanel p r t w)) where
    enable_conn_writ-Returns :
        (flag : Bool) (w : World net P)
        → IsLive w
        → Returns
            (λ w'. (w'.conn ≡ w.conn) × (w'.kernel ≡ w.kernel) × IsLive w')
            (enable_conn_writ net class flag w)
    unfolding enable_conn_writ update_channel enable_writ
    enable_conn_writ-Returns flag w live =
        Returns-bind
          {Q = λ (r : ℕ × World net P).
            (r.1.conn ≡ w.conn)
            × (r.1.kernel ≡ w.kernel)
            × (r.0 ≡ live.ptr)
            × (c : Channel) × (r.1.poller.objects r.0 ≡ some c)
            × (c.poller_ ≡ true)}
          (Returns-bind (or_fault-Returns w.conn.chan_ null_pointer live.held) λ p at.
            Returns-bind
              (or_fault-Returns (w.poller.objects p) out_of_bounds
                (ap w.poller.objects at ∙ live.alive))
              λ c same. returns (
                refl,
                refl,
                at,
                enable_writ c flag,
                put_self p (some (enable_writ c flag)) w.poller.objects,
                ap Channel.poller_ same ∙ live.polled,
              ))
          λ r (conn, kernel, at, c, alive, polled).
            Returns-bind {Q = Keeps r.1.poller}
              (Returns-bind (or_fault-Returns (r.1.poller.objects r.0) out_of_bounds alive)
                λ c' same.
                  Returns-bind (assert-Returns c'.poller_ (ap Channel.poller_ same ∙ polled))
                    λ _ _. updates r.0 c'.readable_ c'.writable_ r.1.poller)
              λ poller keeps.
                let (c', alive', polled') = keeps r.0 c alive polled in
                returns (
                  conn,
                  kernel,
                  record {
                    ptr = live.ptr;
                    channel = c';
                    held = ap Connection.chan_ conn ∙ live.held;
                    alive = ap poller.objects (sym at) ∙ alive';
                    polled = polled';
                  },
                )

    pub send_string-ok :
        (bs : List Cell) (handler : Option ℕ) (w : World net P)
        → IsLive w
        → Returns
            (λ w'. Queued (text_tasks bs handler) w w' × IsLive w')
            (send_string net class bs handler w)
    unfolding send_string send
    send_string-ok bs handler w live = elim (Bool-cases (length bs == 0)) [
      | inl e ↦ rw e (returns (nothing-Queued w, live))
      | inr e ↦ rw e (
          Returns-map
            (enable_conn_writ-Returns true _ (record {
              ptr = live.ptr;
              channel = live.channel;
              held = live.held;
              alive = live.alive;
              polled = live.polled;
            }))
            λ w' (c, k, l). (record { same_conn = c; same_kernel = k }, l))
    ]

    -- A buffer with room is handed over as it is.
    pub send_buffer-ok :
        (b : Buffer) (handler : Option ℕ) (w : World net P)
        → IsValid b
        → 0 < b.capacity_
        → IsLive w
        → Returns
            (λ r. Queued (buffer_entry 0 0 b handler ∷ []) w r.1 × IsLive r.1)
            (send_buffer net class b handler w)
    unfolding send_buffer
    send_buffer-ok b handler w v set live =
        rw (capacity-ok b v set, swap-ok (of_capacity b.capacity_) b)
          (Returns-bind
            (enable_conn_writ-Returns true _ (record {
              ptr = live.ptr;
              channel = live.channel;
              held = live.held;
              alive = live.alive;
              polled = live.polled;
            }))
            λ w' (c, k, l). returns (record { same_conn = c; same_kernel = k }, l))
