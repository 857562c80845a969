-- ===== src/Connection/Writes.antt =====
-- src/Connection.cpp: `handleWritEvent`, which writes what waits in the queue.
use liby_cpp.Base.{
  ℕ, zero, suc, ◌+◌, ◌-◌, Bool, true, false, List, [], ◌∷◌, Option, none, some, leb, ◌==◌,
  if◌then◌else◌, length, Run, ok, fault, out_of_bounds, null_pointer, out_of_fuel, or_fault, ◌>>=◌,
  ◌>>◌,
}
use liby_cpp.Buffer.{Cell, bytes, size, retrieve}
use liby_cpp.Poller.{is_empty}
use liby_cpp.Poller.Class.{Class}
use liby_cpp.Connection.{
  transferred, would_block, failed_write, Net, IoTask, World, set_tasks, socket_set,
  enable_conn_writ, handle_conn_erro,
}

-- The `iov` of the buffers in front.
unfoldable pub gather : List IoTask → Run (List (List Cell))
gather [] = ok []
gather (t ∷ ts) = elim t.fp_ [
  | some fd ↦ ok []
  | none ↦ elim t.buffer_ [
    | none ↦ ok []
    | some b ↦ do bs ← bytes b; iov ← gather ts; ok (bs ∷ iov)
  ]
]

module _ (net : Net) {P : Type 0} (class : Class P)
    (act : ℕ → World net P → Run (World net P)) where
  -- `writTasks_.pop_front()`
  unfoldable pub pop_task : World net P → Run (World net P)
  pop_task w = elim w.conn.writ_tasks [ [] ↦ fault out_of_bounds | t ∷ ts ↦ ok (set_tasks ts w) ]

  -- The handler of a buffer that is written; `false` is the `return` behind it.
  unfoldable pub buffer_done : Option ℕ → World net P → Run (Bool × World net P)
  buffer_done none w = ok (true, w)
  buffer_done (some h) w = do w' ← act h w; ok (if w'.conn.destroy_ then false else true, w')

  -- `while (ret > 0)`: takes `ret` bytes out of the buffers in front. The result says whether the loop
  -- over the queue goes on.
  unfoldable pub consume : ℕ → ℕ → World net P → Run (Bool × World net P)
  consume zero ret w = fault out_of_fuel
  consume (suc fuel) zero w = ok (true, w)
  consume (suc fuel) (suc ret) w = elim w.conn.writ_tasks [
    | [] ↦ fault out_of_bounds
    | t ∷ ts ↦ do
      b ← or_fault t.buffer_ null_pointer
      n ← size b
      if leb n (suc ret)
          then (do
            r ← buffer_done t.handler_ w
            if r.0 then (do w' ← pop_task r.1; consume fuel (suc ret - n) w') else ok r)
          else (do
            b' ← retrieve b (suc ret)
            ok (false, set_tasks (record t { buffer_ = some b' } ∷ ts) w))
  ]

  -- The half of a round that writes the buffers in front.
  unfoldable pub write_buffers : World net P → Run (Bool × World net P)
  write_buffers w = do
    iov ← gather w.conn.writ_tasks
    socket_set net class w
    let answer = net.writev w.kernel iov
    let w1 = record w { kernel = answer.1 }
    elim answer.0 [
      | would_block ↦ ok (false, w1)
      | failed_write ↦ do w2 ← handle_conn_erro net class act w1; ok (false, w2)
      | transferred zero ↦ do w2 ← handle_conn_erro net class act w1; ok (false, w2)
      | transferred (suc ret) ↦ consume (suc (length w1.conn.writ_tasks)) (suc ret) w1
    ]

  -- The half of a round that sends a file.
  unfoldable pub write_file : ℕ → IoTask → List IoTask → World net P → Run (Bool × World net P)
  write_file fd t ts w = do
    socket_set net class w
    let answer = net.sendfile w.kernel fd t.offset_ t.len_
    let w1 = record w { kernel = answer.1 }
    elim answer.0 [
      | would_block ↦ ok (false, w1)
      | failed_write ↦ do w2 ← handle_conn_erro net class act w1; ok (false, w2)
      | transferred zero ↦ do w2 ← handle_conn_erro net class act w1; ok (false, w2)
      | transferred (suc ret) ↦
          if suc ret == t.len_
          then (do
            w2 ← elim t.handler_ [ none ↦ ok w1 | some h ↦ act h w1 ]
            w3 ← pop_task w2
            ok (true, w3))
          else (let rest = record t { len_ = t.len_ - suc ret; offset_ = t.offset_ + suc ret } in
              ok (false, set_tasks (rest ∷ ts) w1))
    ]

  -- `while (!writTasks_.empty())`
  unfoldable pub write_loop : ℕ → World net P → Run (World net P)
  write_loop zero w = fault out_of_fuel
  write_loop (suc fuel) w = elim w.conn.writ_tasks [
    | [] ↦ ok w
    | t ∷ ts ↦ do
      r ← elim t.fp_ [ some fd ↦ write_file fd t ts w | none ↦ write_buffers w ]
      if r.0 then write_loop fuel r.1 else ok r.1
  ]

  -- `handleWritEvent()`. The `DeferCaller` has no name, so that what it defers runs at once, before
  -- the loop.
  unfoldable pub handle_conn_writ : ℕ → World net P → Run (World net P)
  handle_conn_writ fuel w = do
    w' ←
        if w.conn.destroy_
        then ok w
        else if is_empty w.conn.writ_tasks
        then enable_conn_writ net class false w
        else ok w
    write_loop fuel w'
