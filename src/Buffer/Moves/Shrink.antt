-- ===== src/Buffer/Moves/Shrink.antt =====
-- src/Buffer.cpp: `shrink` and `shrink_to_fit`.
use liby_cpp.Base.{
  ℕ, ◌+◌, ◌-◌, ◌≤◌, ◌<◌, ◌≡◌, refl, ◌∙◌, List, [], none, arith, length, replicate, slice,
  slice-zero, length-slice, length-write_at, length-replicate, le→ltb, lt→ltb, Returns, returns,
}
use liby_cpp.Buffer.{Buffer, Cell, new_char}
use liby_cpp.Buffer.Moves.{shrink, shrink_to_fit}
use liby_cpp.Buffer.Content.{
  block, content, IsValid, Holds, load-ok, store-ok, size-ok, slice-moved,
}

-- `shrink_to_fit(len)` with `size() <= len < capacity_ - leftIndex_` gives memory back and keeps
-- the bytes in their place.
pub shrink_to_fit_keeps :
    (b : Buffer) (len : ℕ)
    → IsValid b
    → b.right_index - b.left_index ≤ len
    → len < b.capacity_ - b.left_index
    → 0 < len
    → Returns
        (λ b'.
          Holds (content b) b'
          × (b'.capacity_ ≡ len + b.left_index)
          × (b'.left_index ≡ b.left_index))
        (shrink_to_fit b len)
unfolding shrink_to_fit
shrink_to_fit_keeps b len v h k z =
    let n = b.right_index - b.left_index in
    let m = block b.buffer in
    let fresh : List Cell = replicate (len + b.left_index) none in
    let room : length fresh ≡ len + b.left_index = length-replicate (len + b.left_index) none in
    let moved = length-slice m b.left_index n (omega arith) in
    rw
      (
        size-ok b v,
        le→ltb len n h,
        lt→ltb len (b.capacity_ - b.left_index) k,
        load-ok b.buffer (omega arith) b.left_index n (omega arith),
        store-ok (new_char (len + b.left_index)) (omega arith) b.left_index (slice m b.left_index n)
            (omega arith),
      )
      (returns (
        record {
          valid = record {
            ordered = v.ordered;
            within = omega arith;
            sized = length-write_at fresh b.left_index (slice m b.left_index n) ∙ room;
          };
          same = slice-moved fresh m b.left_index b.left_index n (omega arith) (omega arith);
        },
        refl,
        refl,
      ))

-- `shrink_to_fit(len)` with `len < size() < capacity_` goes to `shrink`, which sets both indices to
-- zero: the buffer is valid and holds none of its bytes.
pub shrink_to_fit_loses :
    (b : Buffer) (len : ℕ)
    → IsValid b
    → len < b.right_index - b.left_index
    → b.right_index - b.left_index < b.capacity_
    → Returns
        (λ b'. Holds [] b' × (b'.capacity_ ≡ b.right_index - b.left_index))
        (shrink_to_fit b len)
unfolding shrink_to_fit shrink
shrink_to_fit_loses b len v h k =
    let n = b.right_index - b.left_index in
    rw
      (
        size-ok b v,
        lt→ltb len n h,
        lt→ltb n b.capacity_ k,
        load-ok b.buffer (omega arith) 0 n (omega arith),
      )
      (returns (
        record {
          valid = record {
            ordered = omega arith;
            within = omega arith;
            sized = length-slice (block b.buffer) 0 n (omega arith);
          };
          same = slice-zero (slice (block b.buffer) 0 n) 0;
        },
        refl,
      ))
