-- ===== src/Buffer/Moves/Append.antt =====
-- src/Buffer.cpp: `append` and what it calls, `forward()`, `resize` and `reserve`.
use native.Mathlib.Nat.{sub-zero}
use liby_cpp.Base.{
  ℕ, zero, suc, ◌+◌, ◌-◌, ◌*◌, ◌≤◌, ◌<◌, ◌≡◌, refl, ap, ◌∙◌, List, ◌++◌, some, none, arith, ltb,
  leb, ◌==◌, length, replicate, slice, length-slice, write_at, slice-all, length-write_at,
  length-replicate, le→ltb, lt→ltb, ltb→lt, Bool-cases, inl, inr, fault, out_of_fuel, Returns,
  returns, Returns-bind, Returns-map, Returns-if,
}
use liby_cpp.Buffer.{Buffer, Cell, new_char, empty, of_bytes}
use liby_cpp.Buffer.Moves.{
  forward, resize, double_until, reserve_with, reserve, make_room, safe_append, append_bytes,
}
use liby_cpp.Buffer.Content.{
  block, content, IsValid, Holds, length-content, load-ok, store-ok, memmove-ok, size-ok,
  content-empty, slice-extend, slice-moved,
}

-- `forward()` moves the bytes to the front of the block: the buffer holds the same bytes, its
-- `leftIndex_` is 0 and its capacity is what it was.
pub forward_to_front :
    (b : Buffer)
    → IsValid b
    → Returns
        (λ b'. Holds (content b) b' × (b'.left_index ≡ 0) × (b'.capacity_ ≡ b.capacity_))
        (forward b 0)
unfolding forward
forward_to_front b v =
    let n = b.right_index - b.left_index in
    let m = block b.buffer in
    Returns-if (b.left_index == 0)
      (λ e. returns (record { valid = v; same = refl }, ground arith, refl))
      λ e.
        rw
          (
            size-ok b v,
            memmove-ok b.buffer (ground arith) 0 b.left_index n (omega arith) (omega arith),
          )
          (returns
            {x = record {
              buffer = some (write_at m 0 (slice m b.left_index n));
              left_index = 0;
              right_index = n;
              capacity_ = b.capacity_;
            }}
            (
              record {
                valid = record {
                  ordered = omega arith;
                  within = omega arith;
                  sized = length-write_at m 0 (slice m b.left_index n) ∙ v.sized;
                };
                same =
                    rw (sub-zero n) (slice-moved m m 0 b.left_index n (omega arith) (omega arith));
              },
              refl,
              refl,
            ))

-- `resize` to at least the capacity keeps the bytes and their place.
pub resize_keeps :
    (b : Buffer) (min_size : ℕ)
    → IsValid b
    → 0 < b.capacity_
    → b.capacity_ ≤ min_size
    → Returns
        (λ b'.
          Holds (content b) b'
          × (b'.capacity_ ≡ min_size)
          × (b'.left_index ≡ b.left_index)
          × (b'.right_index ≡ b.right_index))
        (resize b min_size)
unfolding resize
resize_keeps b min_size v h k =
    let n = b.right_index - b.left_index in
    let m = block b.buffer in
    let fresh : List Cell = replicate min_size none in
    let room : length fresh ≡ min_size = length-replicate min_size none in
    let moved = length-slice m b.left_index n (omega arith) in
    rw
      (
        le→ltb min_size b.capacity_ k,
        size-ok b v,
        load-ok b.buffer (omega arith) b.left_index n (omega arith),
        store-ok (new_char min_size) (omega arith) b.left_index (slice m b.left_index n)
            (omega arith),
      )
      (returns (
        record {
          valid = record {
            ordered = v.ordered;
            within = omega arith;
            sized = length-write_at fresh b.left_index (slice m b.left_index n) ∙ room;
          };
          same = slice-moved fresh m b.left_index b.left_index n (omega arith) (omega arith);
        },
        refl,
        refl,
        refl,
      ))

-- The doubling loop ends within `minSize + 1` rounds from any size above zero, at a size that is
-- large enough and not below the one that it started from.
double_until_ends :
    (f min_size new_size : ℕ)
    → 0 < new_size
    → 0 < f
    → min_size < new_size + f
    → Returns (λ n. (min_size ≤ n) × (new_size ≤ n)) (double_until f min_size new_size)
unfolding double_until
double_until_ends zero min_size new_size h z k = absurd (omega arith)
double_until_ends (suc f) min_size new_size h z k = elim (Bool-cases (ltb new_size min_size)) [
  | inl more ↦
      rw (more, double_until)
        (Returns-map
          (double_until_ends f min_size (new_size * 2) (omega arith)
            (omega (arith, ltb→lt new_size min_size more)) (omega arith))
          λ n (enough, above). (enough, omega arith))
  | inr done ↦ rw (done, double_until) (returns (ground arith, omega arith))
]

-- From size 0 the loop of `reserve` never ends: no fuel is enough for a positive `minSize`.
pub double_until-zero :
    (f min_size : ℕ) → 0 < min_size → double_until f min_size 0 ≡ fault out_of_fuel
unfolding double_until
double_until-zero zero min_size h = refl
double_until-zero (suc f) min_size h =
    rw (lt→ltb 0 min_size h, double_until) (double_until-zero f min_size h)

-- From a capacity above zero, `reserve` ends with the same bytes in the same place and a capacity
-- of at least `minSize`.
pub reserve_correct :
    (b : Buffer) (min_size : ℕ)
    → IsValid b
    → 0 < b.capacity_
    → Returns
        (λ b'.
          Holds (content b) b'
          × (min_size ≤ b'.capacity_)
          × (b'.left_index ≡ b.left_index)
          × (b'.right_index ≡ b.right_index))
        (reserve b min_size)
unfolding reserve reserve_with
reserve_correct b min_size v h =
    Returns-if (ltb min_size b.capacity_)
      (λ e. returns (record { valid = v; same = refl }, ground arith, refl, refl))
      λ _.
        Returns-bind
          (double_until_ends (suc min_size) min_size (b.capacity_ * 2) (omega arith) (omega arith)
            (omega arith))
          λ n (enough, above).
            Returns-map (resize_keeps b n v h (omega arith))
              λ b' (holds, cap, left, right). (holds, omega arith, left, right)

-- What `append` needs of the buffer that it copies into.
record HasRoom (b : Buffer) (len : ℕ) (b' : Buffer) : Type 0 where
  holds : Holds (content b) b'
  room : b'.right_index + len ≤ b'.capacity_

make_room-HasRoom :
    (b : Buffer) (len : ℕ) → IsValid b → 0 < b.capacity_ → Returns (HasRoom b len) (make_room b len)
unfolding make_room
make_room-HasRoom b len v h =
    Returns-if (leb len (b.capacity_ - b.right_index))
      (λ e. returns (record { holds = record { valid = v; same = refl }; room = ground arith }))
      λ _. rw (size-ok b v) (
        Returns-if (leb (len + (b.right_index - b.left_index)) b.capacity_)
          (λ e. Returns-map (forward_to_front b v) λ b' (holds, left, cap). record {
            holds = holds;
            room = ground (
              arith,
              length-content b v,
              length-content b' holds.valid,
              holds.valid.ordered,
              ap length holds.same,
            );
          })
          λ _.
            Returns-map (reserve_correct b (b.right_index - b.left_index + len + b.left_index) v h)
              λ b' (holds, cap, left, right). record { holds = holds; room = omega arith })

safe_append_extends :
    (b : Buffer) (bs : List Cell)
    → IsValid b
    → 0 < b.capacity_
    → b.right_index + length bs ≤ b.capacity_
    → Returns (Holds (content b ++ bs)) (safe_append b bs)
unfolding safe_append
safe_append_extends b bs v h k =
    let m = block b.buffer in
    rw (store-ok b.buffer (omega arith) b.right_index bs (omega arith)) (
      returns (record {
        valid = record {
          ordered = omega arith;
          within = k;
          sized = length-write_at m b.right_index bs ∙ v.sized;
        };
        same = slice-extend m b.left_index b.right_index v.ordered bs (omega arith);
      }))

pub of_bytes-Holds : (bs : List Cell) → Holds bs (of_bytes bs)
unfolding of_bytes
of_bytes-Holds bs = record {
  valid = record { ordered = omega arith; within = omega arith; sized = refl };
  same = slice-all bs (length bs - 0) (omega arith);
}

-- `append(buf, len)` of at least one byte to a valid buffer ends normally, and the buffer then
-- holds its old bytes followed by the new ones.
pub append_correct :
    (b : Buffer) (bs : List Cell)
    → IsValid b
    → 0 < length bs
    → Returns (Holds (content b ++ bs)) (append_bytes b bs)
unfolding append_bytes empty
append_correct b bs v h =
    Returns-if (length bs == 0) (λ e. absurd (ground arith))
      λ _.
        Returns-if (b.left_index == b.right_index)
          (λ e. rw (content-empty b e) (returns (of_bytes-Holds bs)))
          λ e. Returns-bind (make_room-HasRoom b (length bs) v (ground arith)) λ b' r.
            rw (← r.holds.same) (safe_append_extends b' bs r.holds.valid (ground arith) r.room)
