-- ===== src/Connection/Consume.antt =====
-- src/Connection.cpp: the loop that takes written bytes out of the queue, and the arithmetic of
-- the queue and the stream.
use mathlib.Core.List.{append_assoc}
use liby_cpp.Base.{
  ℕ, zero, suc, ◌+◌, ◌-◌, ◌≤◌, ◌<◌, ◌≡◌, refl, sym, ap, ◌∙◌, ◌⊎◌, inl, inr, Bool, true, false, List,
  [], ◌∷◌, ◌++◌, Option, none, some, leb, leb-lt, Bool-cases, Halts-map, leb→le, length, take, drop,
  arith, Run, ok, Halts, halts, Halts-bind, Halts-if, Returns-inv, length-append, length-drop,
  take-append, take-drop, drop-append_le, drop-append_ge,
}
use liby_cpp.Buffer.{Cell}
use liby_cpp.Buffer.Content.{content, length-content, size-ok}
use liby_cpp.Buffer.Retrieve.{retrieve_correct}
use liby_cpp.Poller.Class.{Class}
use liby_cpp.Connection.{
  Net, IoTask, World, set_tasks, Answer, transferred, would_block, failed_write,
}
use liby_cpp.Connection.Writes.{pop_task, buffer_done, consume}
use liby_cpp.Connection.Stream.{pending, GoodTasks, is_file, is_buffer, Laws, front, buffer_entry}

module _ {net : Net} {P : Type 0} where
  -- A handler leaves the kernel's stream and the queue alone, or the connection is destroyed and has
  -- no queue any more.
  pub data Quiet (w w' : World net P) : Type 0 where
    destroyed : w'.conn.destroy_ ≡ true → w'.conn.writ_tasks ≡ [] → Quiet w w'
    same_queue : w'.kernel ≡ w.kernel → w'.conn.writ_tasks ≡ w.conn.writ_tasks → Quiet w w'

-- Bytes move from the front of the queue to the stream.
module _ (sent sent' front_bytes rest queue queue' : List Cell) (n : ℕ)
    (split : queue ≡ front_bytes ++ rest) (inside : n ≤ length front_bytes)
    (more : sent' ≡ sent ++ take n front_bytes) (less : queue' ≡ drop n queue) where
  pub stream-kept : sent' ++ queue' ≡ sent ++ queue
  stream-kept =
      let same : take n front_bytes ≡ take n queue =
        sym (take-append n front_bytes rest inside) ∙ ap (take n) (sym split) in
      ap (λ (l : List Cell). l ++ queue') more
      ∙ ap (λ (l : List Cell). (sent ++ take n front_bytes) ++ l) less
      ∙ append_assoc sent (take n front_bytes) (drop n queue)
      ∙ ap (λ (l : List Cell). sent ++ (l ++ drop n queue)) same
      ∙ ap (◌++◌ sent) (take-drop n queue)

  pub queue-shorter : length queue' + n ≡ length queue
  queue-shorter =
      omega (
        arith,
        ap length less,
        length-drop n queue,
        ap length split,
        length-append front_bytes rest,
      )

pub Answer-cases :
    (a : Answer) → (a ≡ would_block) ⊎ ((a ≡ failed_write) ⊎ ((n : ℕ) × (a ≡ transferred n)))
Answer-cases would_block = inl refl
Answer-cases failed_write = inr (inl refl)
Answer-cases (transferred n) = inr (inr (n, refl))

module _ (net : Net) {P : Type 0} (class : Class P) (act : ℕ → World net P → Run (World net P))
    (laws : Laws net) (quiet : (h : ℕ) (w : World net P) → Halts (Quiet w) (act h w)) where
  -- After `consume n` of the queue `ts`: the connection is destroyed and the loop is left, or the
  -- first `n` bytes are out of the queue and nothing was sent.
  pub data Consumed (n : ℕ) (ts : List IoTask) (w : World net P) (r : Bool × World net P)
      : Type 0 where
    gone : r.1.conn.destroy_ ≡ true → r.0 ≡ false → Consumed n ts w r
    taken :
        r.1.kernel ≡ w.kernel
        → GoodTasks r.1.conn.writ_tasks
        → pending laws.file r.1.conn.writ_tasks ≡ drop n (pending laws.file ts)
        → Consumed n ts w r

  buffer_done-cases :
      (cb : Option ℕ) (w : World net P)
      → Halts
          (λ r.
            ((r.1.conn.destroy_ ≡ true) × (r.0 ≡ false))
            ⊎ ((r.0 ≡ true) × (r.1.kernel ≡ w.kernel) × (r.1.conn.writ_tasks ≡ w.conn.writ_tasks)))
          (buffer_done net class act cb w)
  unfolding buffer_done
  buffer_done-cases none w = halts (inr (refl, refl, refl))
  buffer_done-cases (some h) w = Halts-bind (quiet h w) λ w' q. elim (Bool-cases w'.conn.destroy_) [
    | inl e ↦ halts (inl (e, rw e refl))
    | inr e ↦ elim q [ destroyed d _ ↦ absurd cc | same_queue k t ↦ halts (inr (rw e refl, k, t)) ]
  ]

  pub pop_task-ok :
      (t : IoTask) (ts : List IoTask) (w : World net P)
      → w.conn.writ_tasks ≡ t ∷ ts
      → pop_task net class act w ≡ ok (set_tasks ts w)
  unfolding pop_task
  pop_task-ok t ts w e = rw e refl

  pub consume-Consumed :
      (fuel n : ℕ) (ts : List IoTask) (w : World net P)
      → GoodTasks ts
      → length ts < fuel
      → n ≤ length (front ts)
      → Halts (Consumed n ts w) (consume net class act fuel n (set_tasks ts w))
  unfolding consume
  consume-Consumed zero n ts w good enough inside = absurd (omega arith)
  consume-Consumed (suc fuel) zero ts w good enough inside = halts (taken refl good refl)
  consume-Consumed (suc fuel) (suc n) [] w good enough inside = absurd (omega arith)
  consume-Consumed (suc fuel) (suc n) (t ∷ ts) w (is_file fd offset len b handler, good) enough
        inside =
      absurd (omega arith)
  consume-Consumed (suc fuel) (suc n) (t ∷ ts) w (is_buffer offset len b handler v set, good) enough
        inside =
      let s = b.right_index - b.left_index in
      let sized = length-content b v in
      let whole = length-append (content b) (front ts) in
      rw (size-ok b v) (
        Halts-if (leb s (suc n))
          (λ fits.
            Halts-bind
              (buffer_done-cases handler (set_tasks (buffer_entry offset len b handler ∷ ts) w))
              λ r done. elim done [
                | inl (d, stop) ↦ rw stop (halts (gone d refl))
                | inr (goes, k, q) ↦
                    let fits' = leb→le s (suc n) fits in
                    let same =
                      drop-append_ge (suc n) (content b) (pending laws.file ts)
                        (omega (arith, sized, fits')) in
                    rw (goes, pop_task-ok (buffer_entry offset len b handler) ts r.1 q)
                      (Halts-map
                        (consume-Consumed fuel (suc n - s) ts r.1 good (omega arith)
                          (omega (arith, sized, whole, inside, fits')))
                        λ r' c. elim c [
                          | gone d stop ↦ gone d stop
                          | taken k' good' p ↦ taken (k' ∙ k) good' (p ∙ sym (rw sized at same))
                        ])
              ])
          λ fits.
            let (b', called, (holds, cap)) = Returns-inv (retrieve_correct b (suc n) v) in
            let short = leb-lt s (suc n) fits in
            rw called (
              halts (
                taken refl (is_buffer offset len b' handler holds.valid (omega (arith, cap)), good)
                  (ap (λ (l : List Cell). l ++ pending laws.file ts) holds.same
                    ∙ sym (
                        drop-append_le (suc n) (content b) (pending laws.file ts)
                          (omega (arith, sized, short)))))))
