-- ===== src/Buffer/Content.antt =====
-- src/Buffer.cpp: the bytes that a buffer holds, the invariant under which they are meaningful,
-- and what the memory functions do in range.
use liby_cpp.Base.{
  ℕ, ◌+◌, ◌-◌, ◌≤◌, ◌<◌, ◌≡◌, refl, sym, inl, inr, List, [], ◌++◌, none, some, arith, length, slice,
  write_at, length-slice, slice-add, slice-zero, true, ◌==◌, slice-write_at_self, slice-write_at_ne,
  le→leb, ok,
}
use liby_cpp.Buffer.{
  Buffer, Cell, Memory, load, store, memmove, size, capacity, swap, data_begin, bytes,
}

abbrev pub block : Memory → List Cell
block none = []
block (some m) = m

-- The bytes from `leftIndex_` up to `rightIndex_`.
abbrev pub content : Buffer → List Cell
content b = slice (block b.buffer) b.left_index (b.right_index - b.left_index)

-- The indices are in order within the capacity, and that is the size of the block.
pub record IsValid (b : Buffer) : Type 0 where
  pub ordered : b.left_index ≤ b.right_index
  pub within : b.right_index ≤ b.capacity_
  pub sized : length (block b.buffer) ≡ b.capacity_

-- A valid buffer of exactly the bytes `bs`.
pub record Holds (bs : List Cell) (b : Buffer) : Type 0 where
  pub valid : IsValid b
  pub same : content b ≡ bs

pub length-content : (b : Buffer) → IsValid b → length (content b) ≡ b.right_index - b.left_index
length-content b v =
    length-slice (block b.buffer) b.left_index (b.right_index - b.left_index) (omega arith)

pub content-empty : (b : Buffer) → (b.left_index == b.right_index) ≡ true → content b ≡ []
content-empty b e =
    let none_left : b.right_index - b.left_index ≡ 0 = ground arith in
    rw none_left (slice-zero (block b.buffer) b.left_index)

module _ (p : Memory) (set : 0 < length (block p)) where
  pub load-ok : (o n : ℕ) → o + n ≤ length (block p) → load p o n ≡ ok (slice (block p) o n)
  unfolding load
  load-ok o n h = ground arith

  pub store-ok :
      (o : ℕ) (bs : List Cell)
      → o + length bs ≤ length (block p)
      → store p o bs ≡ ok (some (write_at (block p) o bs))
  unfolding store
  store-ok o bs h = ground arith

  pub memmove-ok :
      (to from n : ℕ)
      → to + n ≤ length (block p)
      → from + n ≤ length (block p)
      → memmove p to from n ≡ ok (some (write_at (block p) to (slice (block p) from n)))
  unfolding memmove
  memmove-ok to from n h k =
      rw (load-ok from n k)
        (store-ok to (slice (block p) from n) (omega (arith, length-slice (block p) from n)))

pub size-ok : (b : Buffer) → IsValid b → size b ≡ ok (b.right_index - b.left_index)
unfolding size
size-ok b v = rw (le→leb b.left_index b.right_index v.ordered)

pub capacity-ok : (b : Buffer) → IsValid b → 0 < b.capacity_ → capacity b ≡ ok b.capacity_
unfolding capacity
capacity-ok b v set = ground arith

pub swap-ok : (this that : Buffer) → swap this that ≡ (that, this)
unfolding swap
swap-ok this that = refl

pub data_begin-ok :
    (b : Buffer) → IsValid b → 0 < length (block b.buffer) → data_begin b ≡ ok b.left_index
unfolding data_begin
data_begin-ok b v h = ground arith

pub bytes-ok : (b : Buffer) → IsValid b → 0 < length (block b.buffer) → bytes b ≡ ok (content b)
unfolding bytes
bytes-ok b v h =
    rw (data_begin-ok b v h, size-ok b v)
      (load-ok b.buffer h b.left_index (b.right_index - b.left_index) (omega arith))

-- How the slice between two indices changes under a write at one of its ends.
module _ (m : List Cell) (l r : ℕ) (ordered : l ≤ r) where
  pub slice-extend :
      (bs : List Cell)
      → r + length bs ≤ length m
      → slice (write_at m r bs) l (r + length bs - l) ≡ slice m l (r - l) ++ bs
  slice-extend bs h =
      let split : r + length bs - l ≡ (r - l) + length bs = omega arith in
      let at : l + (r - l) ≡ r = omega arith in
      rw (
        split,
        slice-add (write_at m r bs) l (r - l) (length bs),
        at,
        slice-write_at_self m r bs (length bs) refl h,
        slice-write_at_ne m r bs l (r - l) (inl (omega arith)),
      )

  pub slice-extend_front :
      (bs : List Cell)
      → length bs ≤ l
      → r ≤ length m
      → slice (write_at m (l - length bs) bs) (l - length bs) (r - (l - length bs))
        ≡ bs ++ slice m l (r - l)
  slice-extend_front bs h k =
      let split : r - (l - length bs) ≡ length bs + (r - l) = omega arith in
      let at : l - length bs + length bs ≡ l = omega arith in
      rw (
        split,
        slice-add (write_at m (l - length bs) bs) (l - length bs) (length bs) (r - l),
        at,
        slice-write_at_self m (l - length bs) bs (length bs) refl (omega arith),
        slice-write_at_ne m (l - length bs) bs l (r - l) (inr (omega arith)),
      )

-- A block moved to another place is read back there.
pub slice-moved :
    (m q : List Cell) (to from n : ℕ)
    → from + n ≤ length q
    → to + n ≤ length m
    → slice (write_at m to (slice q from n)) to n ≡ slice q from n
slice-moved m q to from n h k =
    slice-write_at_self m to (slice q from n) n (sym (length-slice q from n h)) k
