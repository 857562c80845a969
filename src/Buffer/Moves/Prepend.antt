-- ===== src/Buffer/Moves/Prepend.antt =====
-- src/Buffer.cpp: `prepend`, `backward`, and the calls that leave the block.
use liby_cpp.Base.{
  ℕ, ◌+◌, ◌-◌, ◌*◌, ◌≤◌, ◌<◌, ◌≡◌, ◌⊎◌, refl, ◌∙◌, List, ◌++◌, some, arith, leb, ◌==◌, length,
  slice, write_at, length-write_at, slice-nil, slice-all, replicate, length-replicate, none, sym,
  le→ltb, lt→ltb, lt→leb, ne→==, fault, out_of_bounds, Returns, returns, Returns-bind, Returns-map,
  Returns-inv, Returns-if,
}
use liby_cpp.Buffer.{Buffer, Cell, Memory, load, memmove, empty, of_capacity, of_bytes}
use liby_cpp.Buffer.Moves.{
  forward, backward, append_bytes, append_buffer, safe_preappend, make_front, prepend_bytes,
}
use liby_cpp.Buffer.Content.{
  block, content, IsValid, Holds, length-content, store-ok, memmove-ok, size-ok, data_begin-ok,
  bytes-ok, slice-extend_front, slice-moved,
}

-- `backward(offset)` by at most the free space behind the bytes keeps the bytes, and leaves at
-- least `offset` more room in front of them.
pub backward_keeps :
    (b : Buffer) (offset : ℕ)
    → IsValid b
    → 0 < offset
    → offset ≤ b.capacity_ - b.right_index
    → Returns
        (λ b'. Holds (content b) b' × (b.left_index + offset ≤ b'.left_index))
        (backward b offset)
unfolding backward
backward_keeps b offset v h k =
    let n = b.right_index - b.left_index in
    let m = block b.buffer in
    let kept : b.right_index + offset - (b.left_index + offset) ≡ n = omega arith in
    Returns-if (offset == 0) (λ e. absurd (ground arith))
      λ _.
        Returns-if (leb (b.capacity_ - b.left_index) offset)
          (λ e.
            let none_held : b.left_index ≡ b.right_index = ground arith in
            returns (
              record {
                valid = record { ordered = omega arith; within = omega arith; sized = v.sized };
                same =
                    slice-nil m b.capacity_ (b.capacity_ - b.capacity_) (omega arith)
                    ∙ sym (slice-nil m b.left_index n (omega arith));
              },
              omega arith,
            ))
          λ _.
            Returns-if (leb offset (b.capacity_ - b.right_index))
              (λ _.
                rw
                  (memmove-ok b.buffer (omega arith) (b.left_index + offset) b.left_index n
                    (omega arith) (omega arith))
                  (returns
                    {x = record {
                      buffer = some (write_at m (b.left_index + offset) (slice m b.left_index n));
                      left_index = b.left_index + offset;
                      right_index = b.right_index + offset;
                      capacity_ = b.capacity_;
                    }}
                    (
                      record {
                        valid = record {
                          ordered = omega arith;
                          within = omega arith;
                          sized =
                              length-write_at m (b.left_index + offset) (slice m b.left_index n)
                              ∙ v.sized;
                        };
                        same = rw kept (
                            slice-moved m m (b.left_index + offset) b.left_index n (omega arith)
                              (omega arith));
                      },
                      omega arith,
                    )))
              λ e. absurd (ground arith)

-- What `prepend` needs of the buffer that it copies into.
record HasFront (b : Buffer) (len : ℕ) (b' : Buffer) : Type 0 where
  holds : Holds (content b) b'
  front : len ≤ b'.left_index

make_front-HasFront :
    (b : Buffer) (len : ℕ)
    → IsValid b
    → (len ≤ b.left_index) ⊎ (len + (b.right_index - b.left_index) ≤ b.capacity_)
    → Returns (HasFront b len) (make_front b len)
unfolding make_front
make_front-HasFront b len v h =
    Returns-if (leb len b.left_index)
      (λ e. returns (record { holds = record { valid = v; same = refl }; front = ground arith }))
      λ e. rw (size-ok b v) (
        Returns-if (leb (len + (b.right_index - b.left_index)) b.capacity_)
          (λ e'.
            Returns-map (backward_keeps b (len - b.left_index) v (ground arith) (ground arith))
              λ b' (holds, front). record { holds = holds; front = ground arith })
          λ e'. absurd (ground arith))

safe_preappend_extends :
    (b : Buffer) (bs : List Cell)
    → IsValid b
    → 0 < length bs
    → length bs ≤ b.left_index
    → Returns (Holds (bs ++ content b)) (safe_preappend b bs)
unfolding safe_preappend
safe_preappend_extends b bs v h k =
    let m = block b.buffer in
    rw
      (
        data_begin-ok b v (omega arith),
        le→ltb b.left_index (length bs) k,
        store-ok b.buffer (omega arith) (b.left_index - length bs) bs (omega arith),
      )
      (returns (record {
        valid = record {
          ordered = omega arith;
          within = v.within;
          sized = length-write_at m (b.left_index - length bs) bs ∙ v.sized;
        };
        same = slice-extend_front m b.left_index b.right_index v.ordered bs k (omega arith);
      }))

-- `prepend(buf, len)` of at least one byte to a valid buffer that has room for it, in front of the
-- bytes or in the block as a whole, ends normally: the buffer then holds the new bytes followed
-- by its old ones.
pub prepend_correct :
    (b : Buffer) (bs : List Cell)
    → IsValid b
    → 0 < length bs
    → (length bs ≤ b.left_index) ⊎ (length bs + (b.right_index - b.left_index) ≤ b.capacity_)
    → Returns (Holds (bs ++ content b)) (prepend_bytes b bs)
unfolding prepend_bytes
prepend_correct b bs v h k =
    Returns-if (length bs == 0) (λ e. absurd (ground arith))
      λ _.
        Returns-bind (make_front-HasFront b (length bs) v k)
          λ b' r. rw (← r.holds.same) (safe_preappend_extends b' bs r.holds.valid h r.front)

-- With nothing in front of the bytes, `safePreappend` writes before the block.
safe_preappend-no_front :
    (b : Buffer) (bs : List Cell)
    → IsValid b
    → 0 < b.capacity_
    → b.left_index < length bs
    → safe_preappend b bs ≡ fault out_of_bounds
unfolding safe_preappend
safe_preappend-no_front b bs v c h =
    rw (data_begin-ok b v (omega arith), lt→ltb b.left_index (length bs) h)

-- The new block that `prepend` makes has its bytes at the very front.
append_buffer-fresh :
    (b : Buffer) (n : ℕ)
    → IsValid b
    → 0 < n
    → Returns
        (λ b'. IsValid b' × (0 < b'.capacity_) × (b'.left_index ≡ 0))
        (append_buffer (of_capacity n) b)
unfolding append_buffer append_bytes empty of_capacity of_bytes
append_buffer-fresh b n v h =
    let fresh : List Cell = replicate n none in
    let room : length fresh ≡ n = length-replicate n none in
    let all : slice (content b) 0 (length (content b)) ≡ content b =
      slice-all (content b) (length (content b)) refl in
    let size = length-content b v in
    Returns-if (b.left_index == b.right_index)
      (λ _. returns (record { ordered = omega arith; within = omega arith; sized = room }, h, refl))
      λ e. rw (bytes-ok b v (ground arith)) (
        Returns-if (length (content b) == 0) (λ e'. absurd (ground arith))
          λ e'. returns (
            record { ordered = omega arith; within = omega arith; sized = refl },
            ground arith,
            refl,
          ))

-- `prepend(buf, len)` without that room writes before the start of a block: for every valid buffer
-- whose front is shorter than `len` and whose capacity is below `len + size()`, the call makes a
-- new block with the old bytes at its start and then copies to an address `len` bytes before them.
pub prepend_overflow :
    (b : Buffer) (bs : List Cell)
    → IsValid b
    → b.left_index < length bs
    → b.capacity_ < length bs + (b.right_index - b.left_index)
    → prepend_bytes b bs ≡ fault out_of_bounds
unfolding prepend_bytes make_front
prepend_overflow b bs v h k =
    let n = length bs + (b.right_index - b.left_index) in
    let (b', made, (v', c, front)) = Returns-inv (append_buffer-fresh b n v (omega arith)) in
    rw
      (
        ne→== (length bs) 0 (omega arith),
        lt→leb (length bs) b.left_index h,
        size-ok b v,
        lt→leb n b.capacity_ k,
        made,
      )
      (safe_preappend-no_front b' bs v' c (omega arith))

load_past :
    (p : Memory) (o n : ℕ)
    → 0 < length (block p)
    → length (block p) < o + n
    → load p o n ≡ fault out_of_bounds
unfolding load
load_past none o n z h = absurd (omega arith)
load_past (some m) o n z h = rw (lt→leb (o + n) (length m) h)

-- `forward(offset)` with `leftIndex_ < offset < rightIndex_` reads past the block whenever twice
-- the bytes behind `offset` are more than the capacity.
pub forward_overflow :
    (b : Buffer) (offset : ℕ)
    → IsValid b
    → b.left_index < offset
    → offset < b.right_index
    → b.capacity_ < 2 * (b.right_index - offset)
    → forward b offset ≡ fault out_of_bounds
unfolding forward memmove load
forward_overflow b offset v h k w = rw (
  ne→== offset 0 (omega arith),
  lt→leb b.right_index offset k,
  lt→leb offset b.left_index h,
  load_past b.buffer (b.right_index - offset) (b.right_index - offset) (omega arith) (omega arith),
)
