-- ===== src/Connection.antt =====
-- src/Connection.h, src/Connection.cpp: a connection, its queue of writes, and its calls but for the
-- loop of `handleWritEvent`.
pub mod Writes
pub mod Stream
pub mod Consume
pub mod Flush
pub mod Events
pub mod Sync
pub mod Sends
mod Tests
use liby_cpp.Base.{
  ℕ, zero, suc, ◌+◌, ◌-◌, Bool, true, false, not, List, [], ◌∷◌, ◌++◌, Option, none, some, ltb,
  ◌==◌, if◌then◌else◌, length, take, drop, Run, ok, fault, out_of_bounds, null_pointer, or_fault,
  ◌>>=◌, ◌>>◌, assert, out_of_fuel,
}
use liby_cpp.Buffer.{
  Buffer, Cell, of_capacity, of_bytes, default_buffer, swap, store, wdata, availble_size, capacity,
  bytes, empty, retrieve,
}
use liby_cpp.Buffer.Moves.{append_n, append_bytes}
use liby_cpp.Poller.{
  Channel, Poller, put, deref, enable_read, enable_writ, on_read, on_writ, on_erro, next_tick,
}
use liby_cpp.Poller.Class.{Class, add_channel, update_channel, delete_channel}

-- What a call that writes gives: the bytes taken, or -1 with `EAGAIN`, or -1 otherwise.
pub data Answer : Type 0 where
  transferred : ℕ → Answer
  would_block : Answer
  failed_write : Answer

-- What a call that reads gives; no byte is the end of the stream.
pub data Received : Type 0 where
  received : List Cell → Received
  read_blocks : Received
  failed_read : Received

-- The calls of a socket, and what they make of the kernel's state.
pub record Net : Type 1 where
  pub State : Type 0
  pub writev : State → List (List Cell) → Answer × State
  pub write : State → List Cell → Answer × State
  pub sendfile : State → ℕ → ℕ → ℕ → Answer × State
  pub readv : State → ℕ → Received × State
  pub read : State → ℕ → Received × State
  pub set_noblock : State → Bool → State

-- A write that waits: a file or a buffer, and the number of the handler to run when it is done.
pub record IoTask : Type 0 where
  pub fp_ : Option ℕ
  pub offset_ : ℕ
  pub len_ : ℕ
  pub buffer_ : Option Buffer
  pub handler_ : Option ℕ

-- A connection; `self_` says whether it holds itself, `socket_` whether it has a socket, and `chan_`
-- is the address of its channel.
pub record Connection : Type 0 where
  pub destroy_ : Bool
  pub self_ : Bool
  pub socket_ : Bool
  pub chan_ : Option ℕ
  pub read_buf : Buffer
  pub writ_tasks : List IoTask
  pub read_event_callback : Option ℕ
  pub erro_event_callback : Option ℕ

-- The bytes before the first zero.
abbrev pub until_zero : List ℕ → List Cell
until_zero [] = []
until_zero (c ∷ str) = let rest = until_zero str in if c == 0 then [] else some c ∷ rest

-- `sizeof(extraBuffer)`
abbrev pub extra_size : ℕ
extra_size = 16384

-- `Connection(loop, socket)` with a socket.
unfoldable pub new_connection : Connection
new_connection = record {
  destroy_ = false;
  self_ = false;
  socket_ = true;
  chan_ = none;
  read_buf = of_capacity 1024;
  writ_tasks = [];
  read_event_callback = none;
  erro_event_callback = none;
}

-- The bytes that `readv` has put behind the end of the buffer, and those in `extraBuffer`.
unfoldable pub take_in : List Cell → Buffer → Run Buffer
take_in bs b = do
  o ← wdata b
  n ← availble_size b
  m ← store b.buffer o (take n bs)
  let filled = record b { buffer = m }
  if ltb n (length bs)
      then (do b' ← append_n filled n; append_bytes b' (drop n bs))
      else append_n filled (length bs)

-- A connection with its poller and the state of the kernel.
pub record World (net : Net) (P : Type 0) : Type 0 where
  pub conn : Connection
  pub poller : Poller P
  pub kernel : net.State

module _ {net : Net} {P : Type 0} where
  abbrev pub set_tasks : List IoTask → World net P → World net P
  set_tasks ts w = let conn = record w.conn { writ_tasks = ts } in record w { conn = conn }

module _ (net : Net) {P : Type 0} (class : Class P) where
  -- `socket_->`
  abbrev pub socket_set : World net P → Run (Unit {0})
  socket_set w = if w.conn.socket_ then ok tt else fault null_pointer

  -- The channel is changed by `f`.
  abbrev with_channel : (Channel → Channel) → World net P → Run (ℕ × World net P)
  with_channel f w = do
    p ← or_fault w.conn.chan_ null_pointer
    c ← deref w.poller p
    let poller = record w.poller { objects = put w.poller.objects p (some (f c)) }
    ok (p, record w { poller = poller })

  -- `enableRead(flag)`
  unfoldable pub enable_conn_read : Bool → World net P → Run (World net P)
  enable_conn_read flag w = do
    r ← with_channel (λ c. enable_read c flag) w
    poller ← update_channel class r.0 r.1.poller
    ok (record r.1 { poller = poller })

  -- `enableWrit(flag)`
  unfoldable pub enable_conn_writ : Bool → World net P → Run (World net P)
  enable_conn_writ flag w = do
    r ← with_channel (λ c. enable_writ c flag) w
    poller ← update_channel class r.0 r.1.poller
    ok (record r.1 { poller = poller })

  -- `init()`, with the numbers of the three functions that call the event handlers.
  unfoldable pub init : ℕ → ℕ → ℕ → World net P → Run (World net P)
  init read writ erro w = do
    let conn = record w.conn { self_ = true }
    r ←
        with_channel (λ c. on_erro (on_writ (on_read c (some read)) (some writ)) (some erro))
          (record w { conn = conn })
    ok r.1

  -- `init1()`
  unfoldable pub init1 : World net P → Run (World net P)
  init1 w = do
    r ← with_channel (λ c. enable_read c true) w
    poller ← add_channel class r.0 r.1.poller
    ok (record r.1 { poller = poller })

  -- The one owner of the channel lets it go.
  abbrev pub reset_channel : Option ℕ → Poller P → Run (Poller P)
  reset_channel none poller = ok poller
  reset_channel (some p) poller = delete_channel class p poller

  -- `destroy()`
  unfoldable pub destroy : World net P → Run (World net P)
  destroy w = if w.conn.destroy_ then ok w else do
    poller ← reset_channel w.conn.chan_ w.poller
    let conn = record w.conn {
      destroy_ = true;
      chan_ = none;
      socket_ = false;
      writ_tasks = [];
      erro_event_callback = none;
      read_event_callback = none;
      self_ = false;
    }
    ok (record w { conn = conn; poller = poller })

  -- `destroyLater()`, with the number of the function that calls `destroy`.
  unfoldable pub destroy_later : ℕ → World net P → World net P
  destroy_later handler w = record w { poller = next_tick w.poller handler }

  abbrev push_task : IoTask → World net P → World net P
  push_task t w =
      let conn = record w.conn { writ_tasks = w.conn.writ_tasks ++ t ∷ [] } in
      record w { conn = conn }

  abbrev buffer_task : Buffer → Option ℕ → IoTask
  buffer_task b handler = record {
    fp_ = none;
    offset_ = 0;
    len_ = 0;
    buffer_ = some b;
    handler_ = handler;
  }

  -- `send(base, len, handler)`
  unfoldable pub send : List Cell → Option ℕ → World net P → Run (World net P)
  send bs handler w = enable_conn_writ true (push_task (buffer_task (of_bytes bs) handler) w)

  -- `send(Buffer &, handler)`: the buffer of the caller after the call is empty.
  unfoldable pub send_buffer : Buffer → Option ℕ → World net P → Run (Buffer × World net P)
  send_buffer buf handler w = do
    n ← capacity buf
    let swapped = swap (of_capacity n) buf
    w' ← enable_conn_writ true (push_task (buffer_task swapped.0 handler) w)
    ok (swapped.1, w')

  -- `send(Buffer &&, handler)`
  unfoldable pub send_moved : Buffer → Option ℕ → World net P → Run (Buffer × World net P)
  send_moved buf handler w = do
    w' ← enable_conn_writ true (push_task (buffer_task buf handler) w)
    ok (default_buffer, w')

  -- `send(buf, handler)` of a C string, which is as long as `strlen` says.
  unfoldable pub send_c_string : List ℕ → Option ℕ → World net P → Run (World net P)
  send_c_string str handler w = send (until_zero str) handler w

  -- `send(str, handler)`
  unfoldable pub send_string : List Cell → Option ℕ → World net P → Run (World net P)
  send_string str handler w = if length str == 0 then ok w else send str handler w

  -- `sendFile(fp, off, len, handler)`
  unfoldable pub send_file : ℕ → ℕ → ℕ → Option ℕ → World net P → Run (World net P)
  send_file fp off len handler w =
      let t : IoTask = record {
        fp_ = some fp;
        offset_ = off;
        len_ = len;
        buffer_ = none;
        handler_ = handler;
      } in
      enable_conn_writ true (push_task t w)

  module _ (act : ℕ → World net P → Run (World net P)) where
    abbrev pub callback : Option ℕ → World net P → Run (World net P)
    callback none w = ok w
    callback (some h) w = act h w

    -- `handleErroEvent()`
    unfoldable pub handle_conn_erro : World net P → Run (World net P)
    handle_conn_erro w = do w' ← callback w.conn.erro_event_callback w; destroy w'

    -- `handleReadEvent()`
    unfoldable pub handle_conn_read : World net P → Run (World net P)
    handle_conn_read w = do
      o ← wdata w.conn.read_buf
      n ← availble_size w.conn.read_buf
      socket_set w
      let answer = net.readv w.kernel (n + extra_size)
      let w1 = record w { kernel = answer.1 }
      elim answer.0 [
        | read_blocks ↦ ok w1
        | failed_read ↦ handle_conn_erro w1
        | received [] ↦ handle_conn_erro w1
        | received (x ∷ xs) ↦ do
          b ← take_in (x ∷ xs) w1.conn.read_buf
          let conn = record w1.conn { read_buf = b }
          callback conn.read_event_callback (record w1 { conn = conn })
      ]
