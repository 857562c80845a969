-- ===== src/Buffer/Halts.antt =====
-- src/Buffer.cpp: calls that read a buffer end, how many bytes they leave to read, and `retrieve` of
-- no byte.
use liby_cpp.Base.{
  ℕ, ◌+◌, ◌-◌, ◌≤◌, ◌<◌, ◌≡◌, refl, Bool, true, false, ◌&&◌, none, some, Bool-cases, inl, inr,
  arith, leb, leb→le, length, ◌==◌, ok, Halts, halts, broke, Halts-bind, Halts-if, Halts-map,
  assert,
}
use liby_cpp.Buffer.Content.{IsValid, size-ok}
use liby_cpp.Buffer.{is_set, Buffer, Memory, load, empty, bytes, retrieve, size, data_begin}

-- The number of bytes to read.
abbrev pub unread : Buffer → ℕ
unread b = b.right_index - b.left_index

assert-Halts : (test : Bool) → Halts (λ _. test ≡ true) (assert test)
assert-Halts true = halts refl
assert-Halts false = broke λ e. cc

size-Halts : (b : Buffer) → Halts (λ n. (n ≡ unread b) × (b.left_index ≤ b.right_index)) (size b)
unfolding size
size-Halts b =
    Halts-bind (assert-Halts (leb b.left_index b.right_index))
      λ _ h. halts (refl, leb→le b.left_index b.right_index h)

load-Halts : (m : Memory) (o n : ℕ) → Halts (λ _. Unit {0}) (load m o n)
unfolding load
load-Halts none o n = broke λ e. cc
load-Halts (some m) o n = Halts-if (leb (o + n) (length m)) (λ _. halts tt) λ _. broke (λ e. cc)

data_begin-Halts : (b : Buffer) → Halts (λ _. Unit {0}) (data_begin b)
unfolding data_begin
data_begin-Halts b =
    Halts-bind (assert-Halts (is_set b.buffer && leb b.left_index b.right_index)) λ _ _. halts tt

-- A buffer that is not empty has a byte to read when its bytes are read.
pub bytes-Halts : (b : Buffer) → empty b ≡ false → Halts (λ _. 0 < unread b) (bytes b)
unfolding bytes empty
bytes-Halts b some_left = Halts-bind (data_begin-Halts b) λ o _.
    Halts-bind (size-Halts b)
      λ n (_, ordered). Halts-map (load-Halts b.buffer o n) λ _ _. ground arith

pub retrieve-Halts : (b : Buffer) (n : ℕ) → Halts (λ b'. unread b' ≡ unread b - n) (retrieve b n)
unfolding retrieve
retrieve-Halts b n =
    Halts-bind (size-Halts b) λ k (same, ordered). halts (ground (arith, same, ordered))

pub retrieve-none : (b : Buffer) → IsValid b → retrieve b 0 ≡ ok b
unfolding retrieve
retrieve-none b v =
    let stay : b.left_index + 0 ≡ b.left_index = omega arith in
    let n = b.right_index - b.left_index in
    rw (size-ok b v)
      (elim (Bool-cases (n == 0)) [ inl e ↦ rw e refl | inr e ↦ ground (arith, stay) ])
