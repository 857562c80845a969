-- ===== src/Buffer/Queue.antt =====
-- src/Buffer.cpp: the buffer as a queue of bytes. `Op` is a call that a user of the buffer makes
-- between two reads and `spec_op` is what it does to the bytes, with nothing said of blocks,
-- indices or capacities.
use liby_cpp.Base.{
  ℕ, ◌<◌, refl, List, [], ◌∷◌, ◌++◌, false, length, drop, Run, ok, ◌>>=◌, Returns, returns,
  Returns-bind, Returns-map,
}
use liby_cpp.Buffer.{Buffer, Cell, retrieve, deep_copy}
use liby_cpp.Buffer.Moves.{forward, append_bytes}
use liby_cpp.Buffer.Content.{content, IsValid, Holds}
use liby_cpp.Buffer.Retrieve.{retrieve_correct, deep_copy_correct}
use liby_cpp.Buffer.Moves.Append.{append_correct, forward_to_front}

pub data Op : Type 0 where
  appends : List Cell → Op
  retrieves : ℕ → Op
  forwards : Op
  -- `buffer = that`
  assigns : Buffer → Op

pub run_op : Op → Buffer → Run Buffer
run_op (appends bs) b = append_bytes b bs
run_op (retrieves n) b = retrieve b n
run_op forwards b = forward b 0
run_op (assigns that) b = deep_copy false b that

pub run_ops : List Op → Buffer → Run Buffer
run_ops [] b = ok b
run_ops (op ∷ ops) b = run_op op b >>= run_ops ops

abbrev pub spec_op : Op → List Cell → List Cell
spec_op (appends bs) q = q ++ bs
spec_op (retrieves n) q = drop n q
spec_op forwards q = q
spec_op (assigns that) q = content that

abbrev pub spec_ops : List Op → List Cell → List Cell
spec_ops [] q = q
spec_ops (op ∷ ops) q = spec_ops ops (spec_op op q)

-- What a call asks of its caller: some bytes to append, a valid buffer to copy.
abbrev pub IsLegal : Op → Type 0
IsLegal (appends bs) = 0 < length bs
IsLegal (retrieves n) = Unit {0}
IsLegal forwards = Unit {0}
IsLegal (assigns that) = IsValid that

abbrev pub AllLegal : List Op → Type 0
AllLegal [] = Unit {0}
AllLegal (op ∷ ops) = IsLegal op × AllLegal ops

run_op-refines :
    (op : Op) (b : Buffer)
    → IsValid b
    → IsLegal op
    → Returns (Holds (spec_op op (content b))) (run_op op b)
unfolding run_op
run_op-refines (appends bs) b v l = append_correct b bs v l
run_op-refines (retrieves n) b v l = Returns-map (retrieve_correct b n v) λ b' (holds, _). holds
run_op-refines forwards b v l = Returns-map (forward_to_front b v) λ b' (holds, _, _). holds
run_op-refines (assigns that) b v l = deep_copy_correct b that v l

-- The buffer refines a queue of bytes: any sequence of appends of at least one byte, retrievals,
-- moves to the front and assignments from valid buffers ends normally from any valid buffer, in a
-- valid buffer, and its bytes are what the same calls make of a plain list.
pub run_ops-refines :
    (ops : List Op) (b : Buffer)
    → IsValid b
    → AllLegal ops
    → Returns (Holds (spec_ops ops (content b))) (run_ops ops b)
unfolding run_ops
run_ops-refines [] b v l = returns (record { valid = v; same = refl })
run_ops-refines (op ∷ ops) b v l =
    Returns-bind (run_op-refines op b v l.0)
      λ b' holds. rw (← holds.same) (run_ops-refines ops b' holds.valid l.1)
