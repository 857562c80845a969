-- ===== src/Connection/Events.antt =====
-- src/Connection.cpp: what `handleReadEvent` does to the buffer, and `handleWritEvent` of an empty
-- buffer.
use mathlib.Core.List.{append_assoc}
use mathlib.Core.Path.{subst}
use liby_cpp.Base.{
  ℕ, suc, ◌+◌, ◌-◌, ◌≤◌, ◌<◌, ◌≡◌, refl, ap, ◌∙◌, Bool, true, false, List, [], ◌∷◌, ◌++◌, some, ltb,
  ltb→lt, ltb-ge, le→leb, if◌then◌else◌, length, take, drop, arith, Bool-cases, inl, inr,
  length-take, length-drop, take-all, take-drop, Run, ok, ◌>>=◌, Returns, returns, Returns-map,
  fault, null_pointer, Option, ==_iff, length-write_at, write_at,
}
use liby_cpp.Buffer.{Buffer, Cell, wdata, availble_size}
use liby_cpp.Buffer.Moves.{append_n}
use liby_cpp.Buffer.Moves.Append.{append_correct}
use liby_cpp.Buffer.Content.{
  block, content, IsValid, Holds, store-ok, slice-extend, bytes-ok, content-empty,
}
use liby_cpp.Poller.Class.{Class}
use liby_cpp.Connection.{Net, World, set_tasks, take_in, transferred, handle_conn_erro}
use liby_cpp.Connection.Writes.{gather, write_buffers, write_loop, handle_conn_writ}
use liby_cpp.Connection.Stream.{Laws, buffer_entry}

-- The bytes `bs` put behind the end of `b`.
abbrev extended : Buffer → List Cell → Buffer
extended b bs = record b {
  buffer = some (write_at (block b.buffer) b.right_index bs);
  right_index = b.right_index + length bs;
}

extended-Holds :
    (b : Buffer) (bs : List Cell)
    → IsValid b
    → b.right_index + length bs ≤ b.capacity_
    → Holds (content b ++ bs) (extended b bs)
extended-Holds b bs v fits = record {
  valid = record {
    ordered = omega (arith, v.ordered);
    within = fits;
    sized = length-write_at (block b.buffer) b.right_index bs ∙ v.sized;
  };
  same =
      slice-extend (block b.buffer) b.left_index b.right_index v.ordered bs
        (omega (arith, v.sized));
}

wdata-ok : (b : Buffer) → IsValid b → 0 < b.capacity_ → wdata b ≡ ok b.right_index
unfolding wdata
wdata-ok b v set = ground arith

availble_size-ok :
    (b : Buffer) → IsValid b → 0 < b.capacity_ → availble_size b ≡ ok (b.capacity_ - b.right_index)
unfolding availble_size
availble_size-ok b v set = ground arith

append_n-ok :
    (b : Buffer) (bs : List Cell) (n : ℕ)
    → length bs ≡ n
    → b.right_index + n ≤ b.capacity_
    → append_n (record b { buffer = some (write_at (block b.buffer) b.right_index bs) }) n
      ≡ ok (extended b bs)
unfolding append_n
append_n-ok b bs n sized fits = rw (sized, le→leb (b.right_index + n) b.capacity_ fits) refl

-- Whatever number of bytes `readv` gives, up to the free space and beyond, they end up behind the
-- bytes of a valid buffer, none lost and in order.
pub take_in-Holds :
    (b : Buffer) (bs : List Cell)
    → IsValid b
    → 0 < b.capacity_
    → Returns (Holds (content b ++ bs)) (take_in bs b)
unfolding take_in
take_in-Holds b bs v set =
    let n = b.capacity_ - b.right_index in
    rw (wdata-ok b v set, availble_size-ok b v set)
      (elim (Bool-cases (ltb n (length bs))) [
        | inl more ↦
            let over = ltb→lt n (length bs) more in
            let sized : length (take n bs) ≡ n = length-take n bs (omega arith) in
            let fits : b.right_index + length (take n bs) ≤ b.capacity_ =
              omega (arith, sized, v.within) in
            let holds = extended-Holds b (take n bs) v fits in
            rw
              (
                more,
                store-ok b.buffer (omega (arith, v.sized)) b.right_index (take n bs)
                    (omega (arith, v.sized, fits)),
                append_n-ok b (take n bs) n sized (omega (arith, v.within)),
              )
              (Returns-map
                (append_correct (extended b (take n bs)) (drop n bs) holds.valid
                  (omega (arith, length-drop n bs, over)))
                λ b' h.
                  subst (λ (l : List Cell). Holds l b')
                    (ap (λ (l : List Cell). l ++ drop n bs) holds.same
                      ∙ append_assoc (content b) (take n bs) (drop n bs)
                      ∙ ap (◌++◌ (content b)) (take-drop n bs))
                    h)
        | inr fits ↦
            let inside : b.right_index + length bs ≤ b.capacity_ =
              omega (arith, ltb-ge n (length bs) fits, v.within) in
            rw
              (
                fits,
                take-all n bs (ltb-ge n (length bs) fits),
                store-ok b.buffer (omega (arith, v.sized)) b.right_index bs
                    (omega (arith, v.sized, inside)),
                append_n-ok b bs (length bs) refl inside,
              )
              (returns (extended-Holds b bs v inside))
      ])

if-same {ℓ} : {A : Type ℓ} (b : Bool) (x : A) → (if b then x else x) ≡ x
if-same true x = refl
if-same false x = refl

chosen {ℓ} : {A : Type ℓ} (b : Bool) (x y : A) → b ≡ true → (if b then x else y) ≡ x
chosen b x y h = rw h refl

module _ (net : Net) {P : Type 0} (class : Class P) (act : ℕ → World net P → Run (World net P))
    (laws : Laws net) where
  left_loop :
      (fuel : ℕ) (call : Run (World net P))
      → ◌>>=◌ {X = Bool × World net P}
          (call >>= λ w. ok (false, w))
          (λ r. if r.0 then write_loop net class act fuel r.1 else ok r.1)
        ≡ call
  left_loop fuel (ok w) = refl
  left_loop fuel (fault e) = refl

  -- When the only task is a buffer without bytes and the kernel reports a number of bytes, which can
  -- only be 0, `handleWritEvent` takes that for an error and calls `handleErroEvent`, which destroys
  -- the connection.
  pub handle_conn_writ-empty_buffer :
      (fuel offset len n : ℕ) (b : Buffer) (handler : Option ℕ) (w : World net P)
      → IsValid b
      → 0 < b.capacity_
      → b.left_index ≡ b.right_index
      → w.conn.socket_ ≡ true
      → (net.writev w.kernel ([] ∷ [])).0 ≡ transferred n
      → handle_conn_writ net class act
          (suc fuel)
          (set_tasks (buffer_entry offset len b handler ∷ []) w)
        ≡ handle_conn_erro net class act
            (record (set_tasks (buffer_entry offset len b handler ∷ []) w) {
              kernel = (net.writev w.kernel ([] ∷ [])).1;
            })
  unfolding handle_conn_writ write_loop write_buffers gather
  handle_conn_writ-empty_buffer fuel offset len n b handler w v set nothing socket answer =
      let none_taken : n ≡ 0 = omega (arith, (laws.writev_some w.kernel ([] ∷ []) n answer).0) in
      let no_bytes = content-empty b ((==_iff b.left_index b.right_index).1 nothing) in
      rw
        (
          if-same w.conn.destroy_ (ok (set_tasks (buffer_entry offset len b handler ∷ []) w)),
          bytes-ok b v (omega (arith, v.sized)),
          no_bytes,
          chosen w.conn.socket_ (ok (tt {0})) (fault null_pointer) socket,
          answer,
          none_taken,
        )
        (rw no_bytes (left_loop fuel _))
