-- ===== src/Base/Slices.antt =====
-- A block of memory as a list: the part at an offset, and a write at an offset.
use Prim.Native.Nat.{ℕ, zero, suc, ◌+◌, ◌-◌, ◌≤◌, ◌<◌}
use mathlib.Core.Path.{◌≡◌, refl, ap}
use mathlib.Core.Logic.{◌⊎◌}
use mathlib.Core.List.{List, [], ◌∷◌, ◌++◌}
use native.Mathlib.Omega.{arith}
use package.liby_cpp.Base.Lists.{length, take, drop, set, get_or}

module _ {ℓ} {A : Type ℓ} where
  -- The `n` cells from offset `o`.
  abbrev pub slice : List A → ℕ → ℕ → List A
  slice [] o n = []
  slice (x ∷ m) zero zero = []
  slice (x ∷ m) zero (suc n) = x ∷ slice m zero n
  slice (x ∷ m) (suc o) n = slice m o n

  -- The cells of `bs` put at offset `o`; what would stand past the end is dropped.
  abbrev pub write_at : List A → ℕ → List A → List A
  write_at [] o bs = []
  write_at (x ∷ m) zero [] = x ∷ m
  write_at (x ∷ m) zero (b ∷ bs) = b ∷ write_at m zero bs
  write_at (x ∷ m) (suc o) bs = x ∷ write_at m o bs

  pub length-slice : (m : List A) (o n : ℕ) → o + n ≤ length m → length (slice m o n) ≡ n
  length-slice [] o n h = omega arith
  length-slice (x ∷ m) zero zero h = refl
  length-slice (x ∷ m) zero (suc n) h = omega (arith, length-slice m zero n)
  length-slice (x ∷ m) (suc o) n h = length-slice m o n (omega arith)

  pub length-write_at : (m : List A) (o : ℕ) (bs : List A) → length (write_at m o bs) ≡ length m
  length-write_at [] o bs = refl
  length-write_at (x ∷ m) zero [] = refl
  length-write_at (x ∷ m) zero (b ∷ bs) = ap suc (length-write_at m zero bs)
  length-write_at (x ∷ m) (suc o) bs = ap suc (length-write_at m o bs)

  pub slice-zero : (m : List A) (o : ℕ) → slice m o 0 ≡ []
  slice-zero [] o = refl
  slice-zero (x ∷ m) zero = refl
  slice-zero (x ∷ m) (suc o) = slice-zero m o

  pub slice-nil : (m : List A) (o n : ℕ) → n ≡ 0 → slice m o n ≡ []
  slice-nil m o n e = rw e (slice-zero m o)

  pub slice-all : (m : List A) (n : ℕ) → n ≡ length m → slice m 0 n ≡ m
  slice-all [] n h = refl
  slice-all (x ∷ m) zero h = absurd (omega arith)
  slice-all (x ∷ m) (suc n) h = ap (◌∷◌ x) (slice-all m n (omega arith))

  pub slice-add : (m : List A) (o a b : ℕ) → slice m o (a + b) ≡ slice m o a ++ slice m (o + a) b
  slice-add [] o a b = refl
  slice-add (x ∷ m) zero zero b = ground arith
  slice-add (x ∷ m) zero (suc a) b = ground (arith, slice-add m zero a b)
  slice-add (x ∷ m) (suc o) a b = ground (arith, slice-add m o a b)

  -- What was written is read back.
  pub slice-write_at_self :
      (m : List A) (o : ℕ) (bs : List A) (n : ℕ)
      → n ≡ length bs
      → o + n ≤ length m
      → slice (write_at m o bs) o n ≡ bs
  slice-write_at_self [] o [] n e h = refl
  slice-write_at_self [] o (b ∷ bs) n e h = absurd (omega arith)
  slice-write_at_self (x ∷ m) zero [] zero e h = refl
  slice-write_at_self (x ∷ m) zero [] (suc n) e h = absurd (omega arith)
  slice-write_at_self (x ∷ m) zero (b ∷ bs) zero e h = absurd (omega arith)
  slice-write_at_self (x ∷ m) zero (b ∷ bs) (suc n) e h =
      ap (◌∷◌ b) (slice-write_at_self m zero bs n (omega arith) (omega arith))
  slice-write_at_self (x ∷ m) (suc o) bs n e h = slice-write_at_self m o bs n e (omega arith)

  -- A write elsewhere leaves the slice alone.
  pub slice-write_at_ne :
      (m : List A) (o : ℕ) (bs : List A) (i n : ℕ)
      → (i + n ≤ o) ⊎ (o + length bs ≤ i)
      → slice (write_at m o bs) i n ≡ slice m i n
  slice-write_at_ne [] o bs i n h = refl
  slice-write_at_ne (x ∷ m) zero [] i n h = refl
  slice-write_at_ne (x ∷ m) zero (b ∷ bs) zero zero h = refl
  slice-write_at_ne (x ∷ m) zero (b ∷ bs) zero (suc n) h = absurd (omega arith)
  slice-write_at_ne (x ∷ m) zero (b ∷ bs) (suc i) n h =
      slice-write_at_ne m zero bs i n (omega arith)
  slice-write_at_ne (x ∷ m) (suc o) bs zero zero h = refl
  slice-write_at_ne (x ∷ m) (suc o) bs zero (suc n) h =
      ap (◌∷◌ x) (slice-write_at_ne m o bs zero n (omega arith))
  slice-write_at_ne (x ∷ m) (suc o) bs (suc i) n h = slice-write_at_ne m o bs i n (omega arith)

  pub drop-slice : (m : List A) (o n k : ℕ) → k ≤ n → drop k (slice m o n) ≡ slice m (o + k) (n - k)
  drop-slice [] o n zero h = refl
  drop-slice [] o n (suc k) h = refl
  drop-slice (x ∷ m) zero n zero h = ground arith
  drop-slice (x ∷ m) zero zero (suc k) h = absurd (omega arith)
  drop-slice (x ∷ m) zero (suc n) (suc k) h = ground (arith, drop-slice m zero n k)
  drop-slice (x ∷ m) (suc o) n k h = ground (arith, drop-slice m o n k)

  pub take-slice : (m : List A) (o n k : ℕ) → k ≤ n → take k (slice m o n) ≡ slice m o k
  take-slice [] o n zero h = refl
  take-slice [] o n (suc k) h = refl
  take-slice (x ∷ m) zero n zero h = refl
  take-slice (x ∷ m) zero zero (suc k) h = absurd (omega arith)
  take-slice (x ∷ m) zero (suc n) (suc k) h = ap (◌∷◌ x) (take-slice m zero n k (omega arith))
  take-slice (x ∷ m) (suc o) n k h = take-slice m o n k h

  pub slice-set :
      (m : List A) (o n i : ℕ) (v : A) → slice (set m (o + i) v) o n ≡ set (slice m o n) i v
  slice-set [] o n i v = refl
  slice-set (x ∷ m) zero zero zero v = ground arith
  slice-set (x ∷ m) zero zero (suc i) v = ground (arith, slice-zero (set m i v) 0)
  slice-set (x ∷ m) zero (suc n) zero v = ground arith
  slice-set (x ∷ m) zero (suc n) (suc i) v = ground (arith, slice-set m zero n i v)
  slice-set (x ∷ m) (suc o) n i v = ground (arith, slice-set m o n i v)

  pub get_or-slice :
      (m : List A) (o n i : ℕ) (d : A) → i < n → get_or (slice m o n) i d ≡ get_or m (o + i) d
  get_or-slice [] o n i d h = refl
  get_or-slice (x ∷ m) zero zero i d h = absurd (omega arith)
  get_or-slice (x ∷ m) zero (suc n) zero d h = ground arith
  get_or-slice (x ∷ m) zero (suc n) (suc i) d h = ground (arith, get_or-slice m zero n i d)
  get_or-slice (x ∷ m) (suc o) n i d h = ground (arith, get_or-slice m o n i d)

  pub slice-append : (m q : List A) (o n : ℕ) → o + n ≤ length m → slice (m ++ q) o n ≡ slice m o n
  slice-append [] q o n h = slice-nil q o n (omega arith)
  slice-append (x ∷ m) q zero zero h = refl
  slice-append (x ∷ m) q zero (suc n) h = ap (◌∷◌ x) (slice-append m q zero n (omega arith))
  slice-append (x ∷ m) q (suc o) n h = slice-append m q o n (omega arith)

  -- One more cell.
  pub slice-suc :
      (m : List A) (o n : ℕ) (d : A)
      → o + n < length m
      → slice m o (suc n) ≡ slice m o n ++ get_or m (o + n) d ∷ []
  slice-suc [] o n d h = absurd (omega arith)
  slice-suc (x ∷ m) zero zero d h = ground (arith, slice-zero m 0)
  slice-suc (x ∷ m) zero (suc n) d h = ground (arith, slice-suc m zero n d)
  slice-suc (x ∷ m) (suc o) n d h = ground (arith, slice-suc m o n d)

  pub slice-set_ne :
      (m : List A) (o n i : ℕ) (v : A) → o + n ≤ i → slice (set m i v) o n ≡ slice m o n
  slice-set_ne [] o n i v h = refl
  slice-set_ne (x ∷ m) zero zero zero v h = refl
  slice-set_ne (x ∷ m) zero (suc n) zero v h = absurd (omega arith)
  slice-set_ne (x ∷ m) zero zero (suc i) v h = refl
  slice-set_ne (x ∷ m) zero (suc n) (suc i) v h =
      ap (◌∷◌ x) (slice-set_ne m zero n i v (omega arith))
  slice-set_ne (x ∷ m) (suc o) n zero v h = absurd (omega arith)
  slice-set_ne (x ∷ m) (suc o) n (suc i) v h = slice-set_ne m o n i v (omega arith)
