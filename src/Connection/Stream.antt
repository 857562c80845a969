-- ===== src/Connection/Stream.antt =====
-- src/Connection.cpp: the queue of writes as a stream of bytes, and what the kernel documents of the
-- calls that write.
use mathlib.Core.List.{append_assoc}
use liby_cpp.Base.{
  ℕ, zero, suc, ◌+◌, ◌-◌, ◌≤◌, ◌<◌, ◌≡◌, refl, sym, ap, ◌∙◌, List, [], ◌∷◌, ◌++◌, Option, none,
  some, length, take, drop, arith, Returns, returns, Returns-bind,
}
use liby_cpp.Buffer.{Buffer, Cell}
use liby_cpp.Buffer.Content.{content, IsValid, bytes-ok}
use liby_cpp.Connection.{Net, IoTask, transferred, would_block, World}
use liby_cpp.Connection.Writes.{gather}

-- The `n` bytes of a file from an offset on.
abbrev pub file_bytes : (ℕ → ℕ → Cell) → ℕ → ℕ → ℕ → List Cell
file_bytes file fd offset zero = []
file_bytes file fd offset (suc n) = file fd offset ∷ file_bytes file fd (suc offset) n

abbrev pub buffer_bytes : Option Buffer → List Cell
buffer_bytes none = []
buffer_bytes (some b) = content b

abbrev payload_of : (ℕ → ℕ → Cell) → Option ℕ → ℕ → ℕ → Option Buffer → List Cell
payload_of file none offset n b = buffer_bytes b
payload_of file (some fd) offset n b = file_bytes file fd offset n

-- The bytes that a task is to write.
abbrev pub payload : (ℕ → ℕ → Cell) → IoTask → List Cell
payload file t = payload_of file t.fp_ t.offset_ t.len_ t.buffer_

-- The bytes that wait, in the order of the queue.
abbrev pub pending : (ℕ → ℕ → Cell) → List IoTask → List Cell
pending file [] = []
pending file (t ∷ ts) = payload file t ++ pending file ts

abbrev pub file_entry : ℕ → ℕ → ℕ → Option Buffer → Option ℕ → IoTask
file_entry fd offset n b handler = record {
  fp_ = some fd;
  offset_ = offset;
  len_ = n;
  buffer_ = b;
  handler_ = handler;
}

abbrev pub buffer_entry : ℕ → ℕ → Buffer → Option ℕ → IoTask
buffer_entry offset n b handler = record {
  fp_ = none;
  offset_ = offset;
  len_ = n;
  buffer_ = some b;
  handler_ = handler;
}

-- A task has a file, or else a valid buffer with a block.
pub data GoodTask : IoTask → Type 0 where
  is_file :
      (fd offset n : ℕ) (b : Option Buffer) (handler : Option ℕ)
      → GoodTask (file_entry fd offset n b handler)
  is_buffer :
      (offset n : ℕ) (b : Buffer) (handler : Option ℕ)
      → IsValid b
      → 0 < b.capacity_
      → GoodTask (buffer_entry offset n b handler)

abbrev pub GoodTasks : List IoTask → Type 0
GoodTasks [] = Unit
GoodTasks (t ∷ ts) = GoodTask t × GoodTasks ts

abbrev pub concat : List (List Cell) → List Cell
concat [] = []
concat (bs ∷ iov) = bs ++ concat iov

-- What the kernel documents: it has the bytes sent so far, and a call that writes appends to them
-- the first `n` of the bytes that it was given, if that is what it answers, and else nothing.
pub record Laws (net : Net) : Type 0 where
  pub sent : net.State → List Cell
  pub file : ℕ → ℕ → Cell
  pub writev_some :
      (s : net.State) (iov : List (List Cell)) (n : ℕ)
      → (net.writev s iov).0 ≡ transferred n
      → (n ≤ length (concat iov)) × (sent (net.writev s iov).1 ≡ sent s ++ take n (concat iov))
  pub writev_none :
      (s : net.State) (iov : List (List Cell))
      → (net.writev s iov).0 ≡ would_block
      → sent (net.writev s iov).1 ≡ sent s
  pub sendfile_some :
      (s : net.State) (fd offset len n : ℕ)
      → (net.sendfile s fd offset len).0 ≡ transferred n
      → (n ≤ len)
        × (sent (net.sendfile s fd offset len).1 ≡ sent s ++ take n (file_bytes file fd offset len))
  pub sendfile_none :
      (s : net.State) (fd offset len : ℕ)
      → (net.sendfile s fd offset len).0 ≡ would_block
      → sent (net.sendfile s fd offset len).1 ≡ sent s

-- The bytes sent and those that wait, put together, are what they were.
pub record Moved {net : Net} (laws : Laws net) {P : Type 0} (ts : List IoTask) (w w' : World net P)
    : Type 0 where
  pub same :
      laws.sent w'.kernel ++ pending laws.file w'.conn.writ_tasks
      ≡ laws.sent w.kernel ++ pending laws.file ts
  pub good : GoodTasks w'.conn.writ_tasks

module _ (file : ℕ → ℕ → Cell) where
  pub length-file_bytes : (fd offset n : ℕ) → length (file_bytes file fd offset n) ≡ n
  length-file_bytes fd offset zero = refl
  length-file_bytes fd offset (suc n) = ap suc (length-file_bytes fd (suc offset) n)

  same_bytes : (fd a b n k : ℕ) → a ≡ b → n ≡ k → file_bytes file fd a n ≡ file_bytes file fd b k
  same_bytes fd a b n k e h = rw (e, h) refl

  pub drop-file_bytes :
      (fd offset n k : ℕ)
      → drop k (file_bytes file fd offset n) ≡ file_bytes file fd (offset + k) (n - k)
  drop-file_bytes fd offset n zero =
      same_bytes fd offset (offset + 0) n (n - 0) (omega arith) (omega arith)
  drop-file_bytes fd offset zero (suc k) =
      same_bytes fd (offset + suc k) (offset + suc k) 0 (0 - suc k) refl (omega arith)
  drop-file_bytes fd offset (suc n) (suc k) =
      drop-file_bytes fd (suc offset) n k
      ∙ same_bytes fd (suc offset + k) (offset + suc k) (n - k) (suc n - suc k) (omega arith)
          (omega arith)

abbrev pub front_of : Option ℕ → Option Buffer → List Cell → List Cell
front_of none b rest = buffer_bytes b ++ rest
front_of (some fd) b rest = []

-- The bytes of the buffers before the first file.
abbrev pub front : List IoTask → List Cell
front [] = []
front (t ∷ ts) = front_of t.fp_ t.buffer_ (front ts)

pub gather-front :
    (ts : List IoTask) → GoodTasks ts → Returns (λ iov. concat iov ≡ front ts) (gather ts)
unfolding gather
gather-front [] good = returns refl
gather-front (t ∷ ts) (is_file fd offset n b handler, good) = returns refl
gather-front (t ∷ ts) (is_buffer offset n b handler v set, good) =
    rw (bytes-ok b v (omega (arith, v.sized)))
      (Returns-bind (gather-front ts good) λ iov same. returns (ap (◌++◌ (content b)) same))

pub front-prefix :
    (file : ℕ → ℕ → Cell) (ts : List IoTask)
    → GoodTasks ts
    → (rest : List Cell) × (pending file ts ≡ front ts ++ rest)
front-prefix file [] good = ([], refl)
front-prefix file (t ∷ ts) (is_file fd offset n b handler, good) = (_, refl)
front-prefix file (t ∷ ts) (is_buffer offset n b handler v set, good) =
    let (rest, same) = front-prefix file ts good in
    (rest, ap (◌++◌ (content b)) same ∙ sym (append_assoc (content b) (front ts) rest))
