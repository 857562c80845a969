-- ===== src/Buffer.antt =====
-- src/Buffer.h and src/Buffer.cpp: the byte buffer, its fields, and the operations that do not
-- move bytes about. `off_t` is a natural number here: under the invariant of Buffer/Content no
-- index or difference of indices is negative, and a write that would make `leftIndex_` negative
-- is the fault `out_of_bounds`. Sizes that overflow `off_t` are left out.
pub mod Moves
pub mod Content
pub mod Retrieve
pub mod Queue
pub mod Halts
mod Tests
use liby_cpp.Base.{
  ℕ, zero, suc, ◌+◌, ◌-◌, Bool, true, false, ◌&&◌, ◌||◌, List, [], ◌∷◌, ◌++◌, map, Option, none,
  some, leb, ltb, ◌==◌, if◌then◌else◌, length, replicate, slice, write_at, Run, ok, fault,
  out_of_bounds, null_pointer, out_of_fuel, ◌>>=◌, ◌>>◌, assert,
}

-- A byte of memory; `none` is a byte that nothing was written to yet.
abbrev pub Cell : Type 0
Cell = Option ℕ

-- What a `char *` that owns its block points to; `none` is the null pointer.
abbrev pub Memory : Type 0
Memory = Option (List Cell)

pub record Buffer : Type 0 where
  pub buffer : Memory
  pub left_index : ℕ
  pub right_index : ℕ
  pub capacity_ : ℕ

-- `new char[n]`
abbrev pub new_char : ℕ → Memory
new_char n = some (replicate n none)

-- The reading half of `memcpy` and `memmove`.
unfoldable pub load : Memory → ℕ → ℕ → Run (List Cell)
load none o n = fault null_pointer
load (some m) o n = if leb (o + n) (length m) then ok (slice m o n) else fault out_of_bounds

-- The writing half of `memcpy` and `memmove`.
unfoldable pub store : Memory → ℕ → List Cell → Run Memory
store none o bs = fault null_pointer
store (some m) o bs =
    if leb (o + length bs) (length m) then ok (some (write_at m o bs)) else fault out_of_bounds

-- `memmove(buffer_ + to, buffer_ + from, n)`
unfoldable pub memmove : Memory → ℕ → ℕ → ℕ → Run Memory
memmove p to from n = do bs ← load p from n; store p to bs

abbrev pub default_buffer : Buffer
default_buffer = record { buffer = none; left_index = 0; right_index = 0; capacity_ = 0 }

pub of_capacity : ℕ → Buffer
of_capacity n = record { buffer = new_char n; left_index = 0; right_index = 0; capacity_ = n }

-- `Buffer(const char *buf, off_t length)`: a block of exactly those bytes.
pub of_bytes : List Cell → Buffer
of_bytes bs = record {
  buffer = some bs;
  left_index = 0;
  right_index = length bs;
  capacity_ = length bs;
}

-- The bytes of a `std::string` with the terminating zero that `size() + 1` takes in.
abbrev pub c_string : List ℕ → List Cell
c_string str = map some (str ++ 0 ∷ [])

pub of_string : List ℕ → Buffer
of_string str = of_bytes (c_string str)

-- `setBuffer(buf, length)` for a block of `length` bytes.
pub set_buffer : Buffer → List Cell → Buffer
set_buffer b m = record b {
  buffer = some m;
  left_index = 0;
  right_index = length m;
  capacity_ = length m;
}

-- `swap`: the two buffers after the call.
pub swap : Buffer → Buffer → Buffer × Buffer
swap this that = (that, this)

unfoldable pub empty : Buffer → Bool
empty b = b.left_index == b.right_index

abbrev pub is_set : Memory → Bool
is_set none = false
is_set (some m) = true

-- `data()`: the offset of the first byte.
pub data_begin : Buffer → Run ℕ
data_begin b = do assert (is_set b.buffer && leb b.left_index b.right_index); ok b.left_index

-- `wdata()`: the offset behind the last byte.
unfoldable pub wdata : Buffer → Run ℕ
wdata b = do assert (is_set b.buffer && leb b.left_index b.right_index); ok b.right_index

pub size : Buffer → Run ℕ
size b = do assert (leb b.left_index b.right_index); ok (b.right_index - b.left_index)

pub capacity : Buffer → Run ℕ
capacity b = do assert (ltb 0 b.capacity_ && leb b.left_index b.right_index); ok b.capacity_

unfoldable pub availble_size : Buffer → Run ℕ
availble_size b = do
  assert (is_set b.buffer && leb b.left_index b.right_index)
  ok (b.capacity_ - b.right_index)

-- The bytes between `data()` and `data() + size()`, as a callee reads them.
pub bytes : Buffer → Run (List Cell)
bytes b = do o ← data_begin b; n ← size b; load b.buffer o n

-- `retrieve()`
pub retrieve_all : Buffer → Buffer
retrieve_all b = record b { left_index = 0; right_index = 0 }

-- `retrieve(len)`
pub retrieve : Buffer → ℕ → Run Buffer
retrieve b len = do
  n ← size b
  ok (
      if n == 0
      then b
      else if ltb n len
      then record b { left_index = 0; right_index = 0 }
      else record b { left_index = b.left_index + len })

-- `deepCopy(that)`; `aliased` is the test `this == &that`.
pub deep_copy : Bool → Buffer → Buffer → Run Buffer
deep_copy aliased b that = if aliased then ok b else if empty that then ok (retrieve_all b) else do
  bs ← bytes that
  ok (record { buffer = some bs; left_index = 0; right_index = length bs; capacity_ = length bs })

-- `retriveveAsString(len)`, which calls itself for `len == 0 || len > size()`. The fuel bounds the
-- depth of those calls.
pub retrieve_as_string : ℕ → Buffer → ℕ → Run (List Cell × Buffer)
retrieve_as_string zero b len = fault out_of_fuel
retrieve_as_string (suc f) b len =
    let again = size b >>= retrieve_as_string f b in
    let here : Run (List Cell × Buffer) = do
      o ← data_begin b
      s ← load b.buffer o len
      b' ← retrieve b len
      ok (s, b')
    in do n ← size b; if len == 0 || ltb n len then again else here

-- `retriveveAllAsString()`
pub retrieve_all_as_string : ℕ → Buffer → Run (List Cell × Buffer)
retrieve_all_as_string f b = size b >>= retrieve_as_string f b

-- `retriveveAsVector(len)`, which falls back on `retriveveAllAsVector()`, and that calls it with
-- `size()`. The vector is made of all the bytes up to `rightIndex_`.
pub retrieve_as_vector : ℕ → Buffer → ℕ → Run (List Cell × Buffer)
retrieve_as_vector zero b len = fault out_of_fuel
retrieve_as_vector (suc f) b len =
    let again = size b >>= retrieve_as_vector f b in
    let here : Run (List Cell × Buffer) = do
      s ← load b.buffer b.left_index (b.right_index - b.left_index)
      b' ← retrieve b len
      ok (s, b')
    in do n ← size b; if len == 0 || ltb n len then again else here

-- `take(T &e)` for an object of `width` bytes: `none` leaves `e` alone.
pub take_object : Buffer → ℕ → Run (Option (List Cell) × Buffer)
take_object b width = do
  n ← size b
  if leb width n
      then (do o ← data_begin b; e ← load b.buffer o width; b' ← retrieve b width; ok (some e, b'))
      else ok (none, b)
