-- ===== src/Buffer/Moves.antt =====
-- src/Buffer.cpp: the operations that move bytes within a block or to another block.
pub mod Append
pub mod Strings
pub mod Prepend
pub mod Shrink
use liby_cpp.Base.{
  ℕ, zero, suc, ◌+◌, ◌-◌, ◌*◌, List, [], Option, none, some, leb, ltb, ◌==◌, if◌then◌else◌, length,
  Run, ok, fault, assertion_failed, out_of_bounds, out_of_fuel, ◌>>=◌, ◌>>◌, assert,
}
use liby_cpp.Buffer.{
  Buffer, Cell, new_char, load, store, memmove, of_capacity, of_bytes, c_string, empty, size,
  data_begin, bytes,
}

-- `forward(offset)`
pub forward : Buffer → ℕ → Run Buffer
forward b offset =
    if offset == 0
    then (if b.left_index == 0 then ok b else do
      n ← size b
      m ← memmove b.buffer 0 b.left_index n
      ok (record b { buffer = m; left_index = 0; right_index = b.right_index - b.left_index }))
    else if leb b.right_index offset
    then ok (record b { left_index = 0; right_index = 0 })
    else if leb offset b.left_index
    then (do
      m ← memmove b.buffer (b.left_index - offset) b.left_index (b.right_index - b.left_index)
      ok (record b {
        buffer = m;
        left_index = b.left_index - offset;
        right_index = b.right_index - offset;
      }))
    else (do
      m ← memmove b.buffer 0 (b.right_index - offset) (b.right_index - offset)
      ok (record b { buffer = m; left_index = 0; right_index = b.right_index - offset }))

-- `backward(offset)`
pub backward : Buffer → ℕ → Run Buffer
backward b offset =
    if offset == 0
    then (if b.right_index == b.capacity_ then ok b else do
      m ←
          memmove b.buffer (b.left_index + b.capacity_ - b.right_index) b.left_index
            (b.capacity_ - b.right_index)
      ok (record b {
        buffer = m;
        left_index = b.left_index + (b.capacity_ - b.right_index);
        right_index = b.capacity_;
      }))
    else if leb (b.capacity_ - b.left_index) offset
    then ok (record b { left_index = b.capacity_; right_index = b.capacity_ })
    else if leb offset (b.capacity_ - b.right_index)
    then (do
      m ← memmove b.buffer (b.left_index + offset) b.left_index (b.right_index - b.left_index)
      ok (record b {
        buffer = m;
        left_index = b.left_index + offset;
        right_index = b.right_index + offset;
      }))
    else (do
      m ←
          memmove b.buffer (b.left_index + offset) b.left_index
            (b.capacity_ - b.left_index - offset)
      ok (record b {
        buffer = m;
        left_index = b.left_index + (b.capacity_ - b.left_index - offset);
        right_index = b.capacity_;
      }))

-- `resize(minSize)`
pub resize : Buffer → ℕ → Run Buffer
resize b min_size = if ltb min_size b.capacity_ then ok b else do
  n ← size b
  bs ← load b.buffer b.left_index n
  m ← store (new_char min_size) b.left_index bs
  ok (record b { buffer = m; capacity_ = min_size })

-- `while (newSize < minSize) newSize = newSize << 1;`
pub double_until : ℕ → ℕ → ℕ → Run ℕ
double_until zero min_size new_size = fault out_of_fuel
double_until (suc f) min_size new_size =
    let rest = double_until f min_size (new_size * 2) in
    if ltb new_size min_size then rest else ok new_size

-- `reserve(minSize)`, with fuel for its loop.
pub reserve_with : ℕ → Buffer → ℕ → Run Buffer
reserve_with f b min_size =
    if ltb min_size b.capacity_
    then ok b
    else do new_size ← double_until f min_size (b.capacity_ * 2); resize b new_size

-- From a capacity above zero, `minSize` rounds are enough (`reserve_correct`).
pub reserve : Buffer → ℕ → Run Buffer
reserve b min_size = reserve_with (suc min_size) b min_size

-- The branches of `append(buf, len)` before `safeAppend`.
pub make_room : Buffer → ℕ → Run Buffer
make_room b len = if leb len (b.capacity_ - b.right_index) then ok b else do
  n ← size b
  if leb (len + n) b.capacity_ then forward b 0 else reserve b (n + len + b.left_index)

-- `safeAppend(buf, len)`
pub safe_append : Buffer → List Cell → Run Buffer
safe_append b bs = do
  m ← store b.buffer b.right_index bs
  ok (record b { buffer = m; right_index = b.right_index + length bs })

-- `append(const char *buf, off_t len)`, for bytes outside the buffer's own block.
pub append_bytes : Buffer → List Cell → Run Buffer
append_bytes b bs =
    if length bs == 0
    then fault assertion_failed
    else if empty b
    then ok (of_bytes bs)
    else make_room b (length bs) >>= λ b'. safe_append b' bs

-- `append(off_t n)`
unfoldable pub append_n : Buffer → ℕ → Run Buffer
append_n b n = do
  assert (leb (b.right_index + n) b.capacity_)
  ok (record b { right_index = b.right_index + n })

-- `append(const Buffer &that)` for another buffer.
pub append_buffer : Buffer → Buffer → Run Buffer
append_buffer b that = if empty that then ok b else bytes that >>= append_bytes b

-- `append(const std::string &str)`
pub append_string : Buffer → List ℕ → Run Buffer
append_string b str = append_bytes b (c_string str)

-- `safePreappend(buf, len)`: the write begins `len` bytes before `data()`.
pub safe_preappend : Buffer → List Cell → Run Buffer
safe_preappend b bs = do
  o ← data_begin b
  if ltb o (length bs) then fault out_of_bounds else do
    m ← store b.buffer (o - length bs) bs
    ok (record b { buffer = m; left_index = b.left_index - length bs })

-- The branches of `prepend(buf, len)` before `safePreappend`.
pub make_front : Buffer → ℕ → Run Buffer
make_front b len = if leb len b.left_index then ok b else do
  n ← size b
  if leb (len + n) b.capacity_
      then backward b (len - b.left_index)
      else append_buffer (of_capacity (len + n)) b

-- `prepend(const char *buf, off_t len)`
pub prepend_bytes : Buffer → List Cell → Run Buffer
prepend_bytes b bs =
    if length bs == 0
    then fault assertion_failed
    else make_front b (length bs) >>= λ b'. safe_preappend b' bs

-- `prepend(const Buffer &that)`
pub prepend_buffer : Buffer → Buffer → Run Buffer
prepend_buffer b that = bytes that >>= prepend_bytes b

-- `prepend(const std::string &str)`
pub prepend_string : Buffer → List ℕ → Run Buffer
prepend_string b str = prepend_bytes b (c_string str)

-- `shrink(len)`
pub shrink : Buffer → ℕ → Run Buffer
shrink b len =
    if ltb len b.capacity_
    then (do
      bs ← load b.buffer 0 len
      ok (record { buffer = some bs; left_index = 0; right_index = 0; capacity_ = len }))
    else ok b

-- `shrink_to_fit(len)`
pub shrink_to_fit : Buffer → ℕ → Run Buffer
shrink_to_fit b len = do
  n ← size b
  if ltb len n
      then shrink b n
      else if ltb len (b.capacity_ - b.left_index)
      then (do
        bs ← load b.buffer b.left_index n
        m ← store (new_char (len + b.left_index)) b.left_index bs
        ok (record b { buffer = m; capacity_ = len + b.left_index }))
      else ok b
