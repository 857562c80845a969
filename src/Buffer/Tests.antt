-- ===== src/Buffer/Tests.antt =====
-- src/Buffer.cpp: the theorems at concrete buffers, and runs of the operations.
use liby_cpp.Base.{◌≡◌, refl, List, [], ◌∷◌, inr, some, none, arith, fault, out_of_bounds, Returns}
use liby_cpp.Buffer.{Buffer}
use liby_cpp.Buffer.Moves.{prepend_bytes}
use liby_cpp.Buffer.Content.{IsValid, Holds}
use liby_cpp.Buffer.Queue.{Op, appends, retrieves, forwards, assigns, run_ops, run_ops-refines}
use liby_cpp.Buffer.Moves.Prepend.{prepend_correct, prepend_overflow}

-- Two bytes in the middle of a block of four.
abbrev middle : Buffer
middle = record {
  buffer = some (some 9 ∷ some 1 ∷ some 2 ∷ none ∷ []);
  left_index = 1;
  right_index = 3;
  capacity_ = 4;
}

-- A full block of three bytes.
abbrev full : Buffer
full = record {
  buffer = some (some 1 ∷ some 2 ∷ some 3 ∷ []);
  left_index = 0;
  right_index = 3;
  capacity_ = 3;
}

abbrev drained : Buffer
drained = record middle { left_index = 3 }

middle-IsValid : IsValid middle
middle-IsValid = record { ordered = omega arith; within = omega arith; sized = refl }

full-IsValid : IsValid full
full-IsValid = record { ordered = omega arith; within = omega arith; sized = refl }

drained-IsValid : IsValid drained
drained-IsValid = record { ordered = omega arith; within = omega arith; sized = refl }

prepend_correct_example :
    Returns
      (Holds (some 7 ∷ some 8 ∷ some 1 ∷ some 2 ∷ []))
      (prepend_bytes middle (some 7 ∷ some 8 ∷ []))
prepend_correct_example =
    prepend_correct middle (some 7 ∷ some 8 ∷ []) middle-IsValid (omega arith) (inr (omega arith))

prepend_overflow_example : prepend_bytes full (some 7 ∷ []) ≡ fault out_of_bounds
prepend_overflow_example =
    prepend_overflow full (some 7 ∷ []) full-IsValid (omega arith) (omega arith)

abbrev session : List Op
session = appends (some 7 ∷ some 8 ∷ []) ∷ retrieves 1 ∷ forwards ∷ assigns full ∷ retrieves 2 ∷ []

run_ops-refines_example : Returns (Holds (some 3 ∷ [])) (run_ops session middle)
run_ops-refines_example =
    run_ops-refines session middle middle-IsValid
      (omega arith, (tt, (tt, (full-IsValid, (tt, tt)))))
