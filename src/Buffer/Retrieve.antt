-- ===== src/Buffer/Retrieve.antt =====
-- src/Buffer.cpp: taking bytes out at the front.
use liby_cpp.Base.{
  [], ℕ, zero, suc, ◌+◌, ◌-◌, ◌≤◌, ◌<◌, ◌≡◌, refl, sym, ◌∙◌, ap, List, true, false, ◌||◌, some,
  none, arith, ltb, leb, ◌==◌, if◌then◌else◌, length, take, drop, slice, drop-all, drop-slice,
  take-slice, slice-zero, slice-nil, slice-all, leb→le, ◌⊎◌, Bool-cases, inl, inr, fault,
  out_of_fuel, Returns, returns, Returns-bind, le→ltb, ne→==,
}
use liby_cpp.Buffer.{
  Buffer, Cell, empty, retrieve, retrieve_all, deep_copy, retrieve_as_string, retrieve_as_vector,
  take_object,
}
use liby_cpp.Buffer.Content.{
  block, content, IsValid, Holds, length-content, content-empty, load-ok, size-ok, data_begin-ok,
  bytes-ok,
}

-- `retrieve(len)` of a valid buffer takes its first `len` bytes away, all of them if `len` is
-- larger than the size, and leaves the capacity as it was.
pub retrieve_correct :
    (b : Buffer) (len : ℕ)
    → IsValid b
    → Returns
        (λ b'. Holds (drop len (content b)) b' × (b'.capacity_ ≡ b.capacity_))
        (retrieve b len)
unfolding retrieve
retrieve_correct b len v =
    let n = b.right_index - b.left_index in
    let m = block b.buffer in
    let size = length-content b v in
    rw (size-ok b v) (elim (Bool-cases (n == 0)) [
      | inl e ↦ rw e (
          returns (
            record {
              valid = v;
              same =
                  slice-nil m b.left_index n (ground arith)
                  ∙ sym (drop-all len (content b) (ground arith));
            },
            refl,
          ))
      | inr e ↦ rw e (elim (Bool-cases (ltb n len)) [
        | inl k ↦ rw k (
            returns (
              record {
                valid = record { ordered = omega arith; within = omega arith; sized = v.sized };
                same = slice-zero m 0 ∙ sym (drop-all len (content b) (ground arith));
              },
              refl,
            ))
        | inr k ↦ rw k (
            returns (
              record {
                valid = record { ordered = ground arith; within = v.within; sized = v.sized };
                same =
                    ap (slice m (b.left_index + len)) (omega arith)
                    ∙ sym (drop-slice m b.left_index n len (ground arith));
              },
              refl,
            ))
      ])
    ])

-- How many bytes `retriveveAsString(len)` hands out of a buffer of `n`.
abbrev pub taken : ℕ → ℕ → ℕ
taken n len = if len == 0 || ltb n len then n else len

-- What a call hands out, and the buffer that it leaves: the first `k` bytes and the others.
abbrev pub Takes : Buffer → ℕ → List Cell × Buffer → Type 0
Takes b k r = (r.0 ≡ take k (content b)) × Holds (drop k (content b)) r.1

retrieve_as_string_here :
    (f : ℕ) (b : Buffer) (len : ℕ)
    → IsValid b
    → 0 < len
    → len ≤ b.right_index - b.left_index
    → Returns (Takes b len) (retrieve_as_string (suc f) b len)
unfolding retrieve_as_string
retrieve_as_string_here f b len v h k =
    let n = b.right_index - b.left_index in
    rw
      (
        size-ok b v,
        ne→== len 0 (omega arith),
        le→ltb n len k,
        data_begin-ok b v (omega arith),
        load-ok b.buffer (omega arith) b.left_index len (omega arith),
      )
      (Returns-bind (retrieve_correct b len v)
        λ b' (holds, _). returns (sym (take-slice (block b.buffer) b.left_index n len k), holds))

-- The branch in which `retriveveAsString` calls itself with the size.
retrieve_as_string-again :
    (f : ℕ) (b : Buffer) (len : ℕ)
    → IsValid b
    → (len == 0 || ltb (b.right_index - b.left_index) len) ≡ true
    → retrieve_as_string (suc f) b len ≡ retrieve_as_string f b (b.right_index - b.left_index)
unfolding retrieve_as_string
retrieve_as_string-again f b len v e =
    rw (size-ok b v) (elim (Bool-cases (len == 0 || ltb (b.right_index - b.left_index) len)) [
      | inl e' ↦ rw e' refl
      | inr e' ↦ cc
    ])

-- `retriveveAsString(len)` of a valid buffer that is not empty returns its first `len` bytes and
-- takes them away; for `len == 0` and for a `len` above the size it does so with all the bytes.
-- A recursion two calls deep is enough.
pub retrieve_as_string_correct :
    (f : ℕ) (b : Buffer) (len : ℕ)
    → IsValid b
    → b.left_index < b.right_index
    → Returns
        (Takes b (taken (b.right_index - b.left_index) len))
        (retrieve_as_string (suc (suc f)) b len)
retrieve_as_string_correct f b len v h =
    let n = b.right_index - b.left_index in
    elim (Bool-cases (len == 0 || ltb n len)) [
      | inl e ↦
          rw (retrieve_as_string-again (suc f) b len v e, e)
            (retrieve_as_string_here f b n v (omega arith) (omega arith))
      | inr e ↦ rw e (retrieve_as_string_here (suc f) b len v (ground arith) (ground arith))
    ]

-- On an empty buffer `retriveveAsString` calls itself without end, for every `len`: no depth of
-- recursion is enough.
pub retrieve_as_string-empty :
    (f : ℕ) (b : Buffer) (len : ℕ)
    → IsValid b
    → b.left_index ≡ b.right_index
    → retrieve_as_string f b len ≡ fault out_of_fuel
retrieve_as_string-empty zero b len v h = unfold retrieve_as_string in refl
retrieve_as_string-empty (suc f) b len v h =
    retrieve_as_string-again f b len v (ground arith)
    ∙ retrieve_as_string-empty f b (b.right_index - b.left_index) v h

-- `retriveveAsVector(len)` with `0 < len <= size()` returns all the bytes of the buffer, and takes
-- only the first `len` of them away.
pub retrieve_as_vector_keeps :
    (f : ℕ) (b : Buffer) (len : ℕ)
    → IsValid b
    → 0 < len
    → len ≤ b.right_index - b.left_index
    → Returns
        (λ r. (r.0 ≡ content b) × Holds (drop len (content b)) r.1)
        (retrieve_as_vector (suc f) b len)
unfolding retrieve_as_vector
retrieve_as_vector_keeps f b len v h k =
    let n = b.right_index - b.left_index in
    rw
      (
        size-ok b v,
        ne→== len 0 (omega arith),
        le→ltb n len k,
        load-ok b.buffer (omega arith) b.left_index n (omega arith),
      )
      (Returns-bind (retrieve_correct b len v) λ b' (holds, _). returns (refl, holds))

-- `take(e)` for an object of `width` bytes reads the first `width` bytes and takes them away if the
-- buffer has as many, and otherwise changes nothing.
pub take_object_correct :
    (b : Buffer) (width : ℕ)
    → IsValid b
    → 0 < width
    → Returns
        (λ r.
          ((width ≤ length (content b))
            × (r.0 ≡ some (take width (content b)))
            × Holds (drop width (content b)) r.1)
          ⊎ ((length (content b) < width) × (r.0 ≡ none) × (r.1 ≡ b)))
        (take_object b width)
unfolding take_object
take_object_correct b width v h =
    let n = b.right_index - b.left_index in
    let size = length-content b v in
    rw (size-ok b v) (elim (Bool-cases (leb width n)) [
      | inl e ↦
          let k : width ≤ n = leb→le width n e in
          rw
            (
              e,
              data_begin-ok b v (omega arith),
              load-ok b.buffer (omega arith) b.left_index width (omega arith),
            )
            (Returns-bind (retrieve_correct b width v) λ b' (holds, _). returns (
              inl (
                omega arith,
                ap some (sym (take-slice (block b.buffer) b.left_index n width k)),
                holds,
              )))
      | inr e ↦ rw e (returns (inr (ground arith, refl, refl)))
    ])

-- `deepCopy(that)` of another valid buffer makes this one hold the bytes of that one.
pub deep_copy_correct :
    (b that : Buffer)
    → IsValid b
    → IsValid that
    → Returns (Holds (content that)) (deep_copy false b that)
unfolding deep_copy empty retrieve_all
deep_copy_correct b that v w =
    let size = length-content that w in
    elim (Bool-cases (that.left_index == that.right_index)) [
      | inl e ↦
          rw (e, content-empty that e)
            (returns (record {
              valid = record { ordered = omega arith; within = omega arith; sized = v.sized };
              same = slice-zero (block b.buffer) 0;
            }))
      | inr e ↦
          rw (e, bytes-ok that w (ground arith))
            (returns (record {
              valid = record { ordered = omega arith; within = omega arith; sized = refl };
              same = slice-all (content that) (length (content that) - 0) (omega arith);
            }))
    ]

-- `retrieve()` leaves a valid buffer without bytes.
pub retrieve_all-Holds : (b : Buffer) → IsValid b → Holds [] (retrieve_all b)
unfolding retrieve_all
retrieve_all-Holds b v = record {
  valid = record { ordered = omega arith; within = omega arith; sized = v.sized };
  same = slice-zero (block b.buffer) 0;
}
