-- ===== src/Buffer/Moves/Strings.antt =====
-- src/Buffer.cpp: `append` of a string and of another buffer.
use liby_cpp.Base.{
  fault, assertion_failed, ◌≡◌, ℕ, refl, List, [], ◌∷◌, ◌++◌, some, none, arith, length-map,
  length-append, replicate, length-replicate, slice-zero, Returns, returns, Returns-if,
}
use mathlib.Core.List.{append-nil}
use liby_cpp.Buffer.{Buffer, of_capacity, c_string, empty}
use liby_cpp.Buffer.Content.{content, IsValid, Holds, bytes-ok, content-empty, length-content}
use liby_cpp.Buffer.Moves.{append_bytes, append_string, append_buffer}
use liby_cpp.Buffer.Moves.Append.{append_correct}

-- A new buffer has no bytes.
pub of_capacity-Holds : (n : ℕ) → Holds [] (of_capacity n)
unfolding of_capacity
of_capacity-Holds n = record {
  valid = record { ordered = omega arith; within = omega arith; sized = length-replicate n none };
  same = slice-zero (replicate n none) 0;
}

-- A string is appended with the zero that ends it.
pub append_string_correct :
    (b : Buffer) (str : List ℕ)
    → IsValid b
    → Returns (Holds (content b ++ c_string str)) (append_string b str)
unfolding append_string
append_string_correct b str v =
    append_correct b (c_string str) v
      (omega (arith, length-map (λ (c : ℕ). some c) (str ++ 0 ∷ []), length-append str (0 ∷ [])))

-- `append` of another valid buffer; one that has no bytes may have no block.
pub append_buffer_correct :
    (b that : Buffer)
    → IsValid b
    → IsValid that
    → Returns (Holds (content b ++ content that)) (append_buffer b that)
unfolding append_buffer empty
append_buffer_correct b that v u =
    Returns-if (empty that)
      (λ e.
        rw (content-empty that e, append-nil (content b))
          (returns (record { valid = v; same = refl })))
      λ e.
        rw (bytes-ok that u (ground (arith, u.sized, u.within, u.ordered)))
          (append_correct b (content that) v (ground (arith, length-content that u, u.ordered)))

pub append_bytes-nothing : (b : Buffer) → append_bytes b [] ≡ fault assertion_failed
unfolding append_bytes
append_bytes-nothing b = refl
