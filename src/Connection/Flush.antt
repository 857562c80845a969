-- ===== src/Connection/Flush.antt =====
-- src/Connection.cpp: `handleWritEvent` against the stream of bytes.
use mathlib.Core.Path.{subst}
use liby_cpp.Base.{
  ℕ, zero, suc, ◌+◌, ◌-◌, ◌≤◌, ◌<◌, ◌≡◌, refl, sym, ap, ◌∙◌, ◌⊎◌, inl, inr, Bool, true, false, List,
  [], ◌∷◌, ◌++◌, Option, none, some, fault, ◌==◌, ==_iff, Bool-cases, Halts-map, Halts-assert,
  out_of_bounds, length, take, drop, arith, Run, ok, Halts, halts, broke, Halts-bind, Halts-if,
  Returns-inv, drop-append_le, drop-append_ge,
}
use liby_cpp.Buffer.{Buffer, Cell}
use liby_cpp.Poller.{Poller, is_empty}
use liby_cpp.Poller.Class.{Class, delete_channel, remove_channel}
use liby_cpp.Connection.{
  Connection, Net, IoTask, World, set_tasks, socket_set, destroy, callback, handle_conn_erro,
  reset_channel,
}
use liby_cpp.Connection.Writes.{pop_task, write_buffers, write_file, write_loop, handle_conn_writ}
use liby_cpp.Connection.Stream.{
  Moved, pending, GoodTask, GoodTasks, is_file, is_buffer, Laws, file_bytes, length-file_bytes,
  drop-file_bytes, gather-front, front, front-prefix, buffer_entry, file_entry,
}
use liby_cpp.Connection.Sends.{or_fault-Halts, enable_conn_writ-Halts}
use liby_cpp.Connection.Consume.{
  Quiet, destroyed, same_queue, stream-kept, queue-shorter, Answer-cases, gone, taken, pop_task-ok,
  consume-Consumed,
}

module _ (net : Net) {P : Type 0} (class : Class P) (act : ℕ → World net P → Run (World net P))
    (laws : Laws net)
    (closes : (p : ℕ) (w : Poller P) → Halts (λ _. Unit {0}) (class.remove_chanel p w))
    (updates : (p : ℕ) (r t : Bool) (w : Poller P)
      → Halts (λ _. Unit {0}) (class.update_chanel p r t w))
    (quiet : (h : ℕ) (w : World net P) → Halts (Quiet w) (act h w)) where
  socket_set-Halts : (w : World net P) → Halts (λ _. Unit {0}) (socket_set net class w)
  socket_set-Halts w = Halts-if w.conn.socket_ (λ _. halts tt) λ _. broke (λ e. cc)

  delete_channel-Halts : (p : ℕ) (w : Poller P) → Halts (λ _. Unit {0}) (delete_channel class p w)
  unfolding delete_channel remove_channel
  delete_channel-Halts p w =
      Halts-bind
        (Halts-bind (or_fault-Halts (w.objects p) out_of_bounds λ e. cc)
          λ c _. Halts-bind (Halts-assert c.poller_) λ _ _. closes p w)
        λ w' _. halts tt

  reset_channel-Halts :
      (p : Option ℕ) (w : Poller P) → Halts (λ _. Unit {0}) (reset_channel net class p w)
  reset_channel-Halts none w = halts tt
  reset_channel-Halts (some p) w = delete_channel-Halts p w

  callback-Halts :
      (cb : Option ℕ) (w : World net P) → Halts (λ _. Unit {0}) (callback net class act cb w)
  callback-Halts none w = halts tt
  callback-Halts (some h) w = Halts-map (quiet h w) λ _ _. tt

  destroy-Halts : (w : World net P) → Halts (λ w'. w'.conn.destroy_ ≡ true) (destroy net class w)
  unfolding destroy
  destroy-Halts w =
      Halts-if w.conn.destroy_ halts
        λ _. Halts-bind (reset_channel-Halts w.conn.chan_ w.poller) λ _ _. halts refl

  handle_conn_erro-Halts :
      (w : World net P) → Halts (λ w'. w'.conn.destroy_ ≡ true) (handle_conn_erro net class act w)
  unfolding handle_conn_erro
  handle_conn_erro-Halts w =
      Halts-bind (callback-Halts w.conn.erro_event_callback w) λ w' _. destroy-Halts w'

  data Stepped (ts : List IoTask) (w : World net P) (r : Bool × World net P) : Type 0 where
    over : r.1.conn.destroy_ ≡ true → r.0 ≡ false → Stepped ts w r
    moved :
        Moved laws ts w r.1
        → (r.0 ≡ true
            → length (pending laws.file r.1.conn.writ_tasks) < length (pending laws.file ts))
        → Stepped ts w r

  write_buffers-Stepped :
      (ts : List IoTask) (w : World net P)
      → GoodTasks ts
      → Halts (Stepped ts w) (write_buffers net class act (set_tasks ts w))
  unfolding write_buffers
  write_buffers-Stepped ts w good =
      let (iov, gathered, fronts) = Returns-inv (gather-front ts good) in
      let (rest, split) = front-prefix laws.file ts good in
      let answer = net.writev w.kernel iov in
      rw gathered (
        Halts-bind (socket_set-Halts (set_tasks ts w)) λ _ _. elim (Answer-cases answer.0) [
          | inl e ↦ rw e (
              halts (
                moved
                  (record {
                    same =
                        ap (λ (l : List Cell). l ++ pending laws.file ts)
                          (laws.writev_none w.kernel iov e);
                    good = good;
                  })
                  λ h. absurd cc))
          | inr (inl e) ↦ rw e (Halts-bind (handle_conn_erro-Halts _) λ w' d. halts (over d refl))
          | inr (inr (zero, e)) ↦
              rw e (Halts-bind (handle_conn_erro-Halts _) λ w' d. halts (over d refl))
          | inr (inr (suc n, e)) ↦
              rw e
                let w1 : World net P = record w { kernel = answer.1 } in
                  let (accepted, sent) = laws.writev_some w.kernel iov (suc n) e in
                  let inside : suc n ≤ length (front ts) = rw fronts at accepted in
                  let more : laws.sent answer.1 ≡ laws.sent w.kernel ++ take (suc n) (front ts) =
                    sent ∙ ap (λ (l : List Cell). laws.sent w.kernel ++ take (suc n) l) fronts in
                  (Halts-map
                    (consume-Consumed net class act laws quiet (suc (length ts)) (suc n) ts w1 good
                      (omega arith) inside)
                    λ r c. elim c [
                      | gone d stop ↦ over d stop
                      | taken k good' less ↦
                          let kept =
                            stream-kept (laws.sent w.kernel) (laws.sent answer.1) (front ts) rest
                              (pending laws.file ts) (pending laws.file r.1.conn.writ_tasks) (suc n)
                              split inside more less in
                          let shorter =
                            queue-shorter (laws.sent w.kernel) (laws.sent answer.1) (front ts) rest
                              (pending laws.file ts) (pending laws.file r.1.conn.writ_tasks) (suc n)
                              split inside more less in
                          moved
                            (record {
                              same =
                                  ap
                                    (λ (st : net.State).
                                      laws.sent st ++ pending laws.file r.1.conn.writ_tasks)
                                    k
                                  ∙ kept;
                              good = good';
                            })
                            λ _. omega (arith, shorter)
                    ])
        ])

  file_done-cases :
      (cb : Option ℕ) (w : World net P)
      → Halts
          (λ w'.
            (w'.conn.writ_tasks ≡ [])
            ⊎ ((w'.kernel ≡ w.kernel) × (w'.conn.writ_tasks ≡ w.conn.writ_tasks)))
          (elim cb [ none ↦ ok w | some h ↦ act h w ])
  file_done-cases none w = halts (inr (refl, refl))
  file_done-cases (some h) w =
      Halts-map (quiet h w)
        λ w' q. elim q [ destroyed d nothing ↦ inl nothing | same_queue k t ↦ inr (k, t) ]

  pop_task-nil :
      (w : World net P) → w.conn.writ_tasks ≡ [] → pop_task net class act w ≡ fault out_of_bounds
  unfolding pop_task
  pop_task-nil w e = rw e refl

  -- `n` bytes of the file in front are sent.
  file_bytes-Moved :
      (n fd offset len : ℕ) (b : Option Buffer) (handler : Option ℕ) (ts : List IoTask)
      (w w' : World net P)
      → GoodTasks w'.conn.writ_tasks
      → (net.sendfile w.kernel fd offset len).1 ≡ w'.kernel
      → n ≤ len
      → laws.sent (net.sendfile w.kernel fd offset len).1
        ≡ laws.sent w.kernel ++ take n (file_bytes laws.file fd offset len)
      → pending laws.file w'.conn.writ_tasks
        ≡ drop n (pending laws.file (file_entry fd offset len b handler ∷ ts))
      → Moved laws (file_entry fd offset len b handler ∷ ts) w w'
        × (length (pending laws.file w'.conn.writ_tasks) + n
            ≡ length (pending laws.file (file_entry fd offset len b handler ∷ ts)))
  file_bytes-Moved n fd offset len b handler ts w w' good k accepted sent less =
      let bytes = file_bytes laws.file fd offset len in
      let inside : n ≤ length bytes =
        omega (arith, length-file_bytes laws.file fd offset len, accepted) in
      let before = laws.sent w.kernel in
      let after = laws.sent (net.sendfile w.kernel fd offset len).1 in
      let queue = pending laws.file (file_entry fd offset len b handler ∷ ts) in
      let queue' = pending laws.file w'.conn.writ_tasks in
      (
        record {
          same =
              ap (λ (st : net.State). laws.sent st ++ queue') (sym k)
              ∙ stream-kept before after bytes (pending laws.file ts) queue queue' n refl inside
                  sent less;
          good = good;
        },
        queue-shorter before after bytes (pending laws.file ts) queue queue' n refl inside sent
            less,
      )

  write_file-Stepped :
      (fd offset len : ℕ) (b : Option Buffer) (handler : Option ℕ) (ts : List IoTask)
      (w : World net P)
      → GoodTasks ts
      → let t = file_entry fd offset len b handler in
        Halts (Stepped (t ∷ ts) w) (write_file net class act fd t ts (set_tasks (t ∷ ts) w))
  unfolding write_file
  write_file-Stepped fd offset len b handler ts w good =
      let t = file_entry fd offset len b handler in
      let answer = net.sendfile w.kernel fd offset len in
      Halts-bind (socket_set-Halts (set_tasks (t ∷ ts) w)) λ _ _. elim (Answer-cases answer.0) [
        | inl e ↦ rw e (
            halts (
              moved
                (record {
                  same =
                      ap (λ (l : List Cell). l ++ pending laws.file (t ∷ ts))
                        (laws.sendfile_none w.kernel fd offset len e);
                  good = (is_file fd offset len b handler, good);
                })
                λ h. absurd cc))
        | inr (inl e) ↦ rw e (Halts-bind (handle_conn_erro-Halts _) λ w' d. halts (over d refl))
        | inr (inr (zero, e)) ↦
            rw e (Halts-bind (handle_conn_erro-Halts _) λ w' d. halts (over d refl))
        | inr (inr (suc n, e)) ↦
            rw e
              let (accepted, sent) = laws.sendfile_some w.kernel fd offset len (suc n) e in
                let bytes = file_bytes laws.file fd offset len in
                let sized : length bytes ≡ len = length-file_bytes laws.file fd offset len in
                let after =
                  drop-append_le (suc n) bytes (pending laws.file ts)
                    (omega (arith, sized, accepted)) in
                let w1 : World net P = record w { kernel = answer.1 } in
                (Halts-if (suc n == len)
                  (λ whole. Halts-bind (file_done-cases handler (set_tasks (t ∷ ts) w1)) λ w2 done.
                    elim done [
                      | inl nothing ↦ rw (pop_task-nil w2 nothing) (broke (λ x. cc))
                      | inr (k, q) ↦
                          let all_of_it : suc n ≡ len = (==_iff (suc n) len).0 whole in
                          let nothing_left : suc n - length bytes ≡ 0 =
                            omega (arith, sized, all_of_it) in
                          let less : pending laws.file ts
                              ≡ drop (suc n) (pending laws.file (t ∷ ts)) =
                            sym (
                              drop-append_ge (suc n) bytes (pending laws.file ts)
                                (omega (arith, sized, all_of_it))
                              ∙ ap (λ (x : ℕ). drop x (pending laws.file ts)) nothing_left) in
                          rw (pop_task-ok net class act laws quiet t ts w2 q) (
                            let (m, shorter) =
                              file_bytes-Moved (suc n) fd offset len b handler ts w
                                (set_tasks ts w2) good (sym k) accepted sent less in
                            halts (moved m λ _. omega (arith, shorter)))
                    ])
                  λ part.
                    let less = sym (
                      after
                      ∙ ap (λ (l : List Cell). l ++ pending laws.file ts)
                          (drop-file_bytes laws.file fd offset len (suc n))) in
                    let left : GoodTasks
                        (file_entry fd (offset + suc n) (len - suc n) b handler ∷ ts) =
                      (is_file fd (offset + suc n) (len - suc n) b handler, good) in
                    let (m, shorter) =
                      file_bytes-Moved (suc n) fd offset len b handler ts w
                        (set_tasks (file_entry fd (offset + suc n) (len - suc n) b handler ∷ ts) w1)
                        left refl accepted sent less in
                    halts (moved m λ _. omega (arith, shorter)))
      ]

  -- One round, as `write_loop` takes it.
  write_round-Stepped :
      (t : IoTask) (ts : List IoTask) (w : World net P)
      → GoodTask t
      → GoodTasks ts
      → Halts (Stepped (t ∷ ts) w) (elim t.fp_ [
        | some fd ↦ write_file net class act fd t ts (set_tasks (t ∷ ts) w)
        | none ↦ write_buffers net class act (set_tasks (t ∷ ts) w)
      ])
  write_round-Stepped t ts w (is_file fd offset n b handler) good =
      write_file-Stepped fd offset n b handler ts w good
  write_round-Stepped t ts w (is_buffer offset n b handler v set) good =
      write_buffers-Stepped (buffer_entry offset n b handler ∷ ts) w
        (is_buffer offset n b handler v set, good)

  write_loop-Moved :
      (fuel : ℕ) (ts : List IoTask) (w : World net P)
      → GoodTasks ts
      → length (pending laws.file ts) < fuel
      → Halts
          (λ w'. (w'.conn.destroy_ ≡ true) ⊎ Moved laws ts w w')
          (write_loop net class act fuel (set_tasks ts w))
  unfolding write_loop
  write_loop-Moved zero ts w good enough = absurd (omega arith)
  write_loop-Moved (suc fuel) [] w good enough = halts (inr (record { same = refl; good = good }))
  write_loop-Moved (suc fuel) (t ∷ ts) w (g, good) enough =
      Halts-bind (write_round-Stepped t ts w g good) λ r step. elim step [
        | over d stop ↦ rw stop (halts (inl d))
        | moved m shorter ↦ elim (Bool-cases r.0) [
          | inl goes ↦ rw goes (
              Halts-map
                (write_loop-Moved fuel r.1.conn.writ_tasks r.1 m.good (omega (arith, shorter goes)))
                λ w' result. elim result [
                  | inl d ↦ inl d
                  | inr m' ↦ inr (record { same = m'.same ∙ m.same; good = m'.good })
                ])
          | inr stop ↦ rw stop (halts (inr m))
        ]
      ]

  -- `handleWritEvent` of a connection whose tasks have files or valid buffers ends when the fuel is
  -- more than the bytes that wait, if handlers and poller end and no handler sends. When it ends
  -- normally the connection is destroyed, or the bytes sent followed by the bytes that wait are the
  -- same as before: no byte is lost, sent twice, or sent out of order, however many bytes the kernel
  -- takes each time.
  pub handle_conn_writ-Moved :
      (fuel : ℕ) (w : World net P)
      → GoodTasks w.conn.writ_tasks
      → length (pending laws.file w.conn.writ_tasks) < fuel
      → Halts
          (λ w'. (w'.conn.destroy_ ≡ true) ⊎ Moved laws w.conn.writ_tasks w w')
          (handle_conn_writ net class act fuel w)
  unfolding handle_conn_writ
  handle_conn_writ-Moved fuel w good enough =
      Halts-bind {Q = λ (v : World net P). (v.conn ≡ w.conn) × (v.kernel ≡ w.kernel)}
        (Halts-if w.conn.destroy_ (λ _. halts (refl, refl))
          λ _.
            Halts-if (is_empty w.conn.writ_tasks)
              (λ _. enable_conn_writ-Halts net class updates false w) λ _. halts (refl, refl))
        λ w' (c, k).
          let same_tasks = ap Connection.writ_tasks c in
          let same_bytes = ap (pending laws.file) same_tasks in
          Halts-map
            (write_loop-Moved fuel w'.conn.writ_tasks w' (subst GoodTasks (sym same_tasks) good)
              (omega (arith, ap length same_bytes, enough)))
            λ w'' result. elim result [
              | inl d ↦ inl d
              | inr m ↦ inr (record {
                same =
                    m.same
                    ∙ ap (λ (st : net.State). laws.sent st ++ pending laws.file w'.conn.writ_tasks)
                        k
                    ∙ ap (λ (l : List Cell). laws.sent w.kernel ++ l) same_bytes;
                good = m.good;
              })
            ]
