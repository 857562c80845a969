-- ===== src/Connection/Tests.antt =====
-- A socket that takes three bytes at a time, and runs of a connection over it.
use liby_cpp.Base.{
  ℕ, ◌≤◌, ◌≡◌, refl, ap, true, false, ◌⊎◌, List, [], ◌∷◌, ◌++◌, none, some, leb, if◌then◌else◌,
  length, take, arith, Run, ok, Returns, Halts, halts,
}
use liby_cpp.Buffer.{Buffer, Cell}
use liby_cpp.Buffer.Content.{IsValid, Holds}
use liby_cpp.Poller.{Poller}
use liby_cpp.Poller.Class.{Class}
use liby_cpp.Connection.{Net, transferred, would_block, failed_write, read_blocks, World, take_in}
use liby_cpp.Connection.Writes.{handle_conn_writ}
use liby_cpp.Connection.Stream.{
  Laws, Moved, GoodTasks, is_buffer, is_file, concat, file_bytes, buffer_entry, file_entry,
  length-file_bytes,
}
use liby_cpp.Connection.Sync.{WriteLaws, Split, sync_send, sync_send-Split}
use liby_cpp.Connection.Consume.{same_queue}
use liby_cpp.Connection.Flush.{handle_conn_writ-Moved}
use liby_cpp.Connection.Events.{take_in-Holds}

abbrev file : ℕ → ℕ → Cell
file fd offset = some 7

-- Three bytes or all of them.
abbrev up_to_3 : List Cell → ℕ
up_to_3 bs = if leb (length bs) 3 then length bs else 3

up_to_3-le : (bs : List Cell) → up_to_3 bs ≤ length bs
up_to_3-le bs = ground arith

-- The state is what was sent.
abbrev slow : Net
slow = record {
  State = List Cell;
  writev =
      λ s iov. (transferred (up_to_3 (concat iov)), s ++ take (up_to_3 (concat iov)) (concat iov));
  write = λ s bs. (transferred (up_to_3 bs), s ++ take (up_to_3 bs) bs);
  sendfile = λ s fd offset len. (
    transferred (up_to_3 (file_bytes file fd offset len)),
    s ++ take (up_to_3 (file_bytes file fd offset len)) (file_bytes file fd offset len),
  );
  readv = λ s n. (read_blocks, s);
  read = λ s n. (read_blocks, s);
  set_noblock = λ s flag. s;
}

transferred-inj : (n k : ℕ) → transferred n ≡ transferred k → n ≡ k
transferred-inj n k e = cc

took :
    (s bs : List Cell) (n : ℕ)
    → transferred (up_to_3 bs) ≡ transferred n
    → (n ≤ length bs) × (s ++ take (up_to_3 bs) bs ≡ s ++ take n bs)
took s bs n e =
    let same = transferred-inj (up_to_3 bs) n e in
    (omega (arith, up_to_3-le bs, same), ap (λ (k : ℕ). s ++ take k bs) same)

took_file :
    (s : List Cell) (fd offset len n : ℕ)
    → transferred (up_to_3 (file_bytes file fd offset len)) ≡ transferred n
    → (n ≤ len)
      × (s ++ take (up_to_3 (file_bytes file fd offset len)) (file_bytes file fd offset len)
          ≡ s ++ take n (file_bytes file fd offset len))
took_file s fd offset len n e =
    let (inside, same) = took s (file_bytes file fd offset len) n e in
    (omega (arith, length-file_bytes file fd offset len, inside), same)

no_block : {A : Type 0} (n : ℕ) → transferred n ≡ would_block → A
no_block n e = absurd cc

no_failure : {A : Type 0} (n : ℕ) → transferred n ≡ failed_write → A
no_failure n e = absurd cc

abbrev slow_laws : Laws slow
slow_laws = record {
  sent = λ s. s;
  file = file;
  writev_some = λ s iov n e. took s (concat iov) n e;
  writev_none = λ s iov e. no_block (up_to_3 (concat iov)) e;
  sendfile_some = took_file;
  sendfile_none = λ s fd offset len e. no_block (up_to_3 (file_bytes file fd offset len)) e;
}

abbrev idle_class : Class ℕ
idle_class = record {
  add_chanel = λ p w. ok w;
  update_chanel = λ p r t w. ok w;
  remove_chanel = λ p w. ok w;
}

abbrev idle : ℕ → World slow ℕ → Run (World slow ℕ)
idle h w = ok w

abbrev five : Buffer
five = record {
  buffer = some (some 1 ∷ some 2 ∷ some 3 ∷ some 4 ∷ some 5 ∷ none ∷ []);
  left_index = 0;
  right_index = 5;
  capacity_ = 6;
}

five-IsValid : IsValid five
five-IsValid = record { ordered = omega arith; within = omega arith; sized = refl }

abbrev poller : Poller ℕ
poller = record {
  open_max = 8;
  channels_ = λ fd. none;
  next_tick_handlers = [];
  next_loop_handlers = [];
  after_loop_handlers = [];
  objects = λ p. none;
  own = 0;
}

-- A buffer of five bytes, with a handler, and four bytes of a file wait.
abbrev two_tasks : World slow ℕ
two_tasks = record {
  conn = record {
    destroy_ = false;
    self_ = true;
    socket_ = true;
    chan_ = none;
    read_buf = five;
    writ_tasks = buffer_entry 0 0 five (some 1) ∷ file_entry 9 0 4 none none ∷ [];
    read_event_callback = none;
    erro_event_callback = none;
  };
  poller = poller;
  kernel = [];
}

two_tasks-Good : GoodTasks two_tasks.conn.writ_tasks
two_tasks-Good =
    (is_buffer 0 0 five (some 1) five-IsValid (omega arith), (is_file 9 0 4 none none, tt))

handle_conn_writ-Moved_example :
    Halts
      (λ w'. (w'.conn.destroy_ ≡ true) ⊎ Moved slow_laws two_tasks.conn.writ_tasks two_tasks w')
      (handle_conn_writ slow idle_class idle 20 two_tasks)
handle_conn_writ-Moved_example =
    handle_conn_writ-Moved slow idle_class idle slow_laws (λ p w. halts tt) (λ p r t w. halts tt)
      (λ h w. halts (same_queue refl refl)) 20 two_tasks two_tasks-Good (omega arith)

-- One byte of free space and three bytes that come.
take_in-Holds_example :
    Returns
      (Holds (some 1 ∷ some 2 ∷ some 3 ∷ some 4 ∷ some 5 ∷ some 6 ∷ some 7 ∷ some 8 ∷ []))
      (take_in (some 6 ∷ some 7 ∷ some 8 ∷ []) five)
take_in-Holds_example =
    take_in-Holds five (some 6 ∷ some 7 ∷ some 8 ∷ []) five-IsValid (omega arith)

slow_write-Laws : WriteLaws slow
slow_write-Laws = record {
  sent = λ s. s;
  write_some = λ s bs n e. took s bs n e;
  write_failed = λ s bs e. no_failure (up_to_3 bs) e;
  write_none = λ s bs e. no_block (up_to_3 bs) e;
  noblock = λ s flag. refl;
}

sync_send-Split_example : Returns (Split slow slow_write-Laws five []) (sync_send slow 6 five [])
sync_send-Split_example =
    sync_send-Split slow slow_write-Laws 6 five [] five-IsValid (omega arith) (omega arith)
