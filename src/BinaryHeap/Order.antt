-- ===== src/BinaryHeap/Order.antt =====
-- src/BinaryHeap.h: the order that the heap assumes of `operator<`, the heap order between an
-- entry and its parent, and the entries as a collection.
use liby_cpp.Base.{
  ℕ, zero, suc, ◌+◌, ◌-◌, ◌/◌, ◌≤◌, ◌<◌, ◌≡◌, refl, Bool, true, false, List, [], ◌∷◌, Perm, arith,
  ◌==◌, if◌then◌else◌, length, set, get_or, get_or-set, get_or-slice, slice, slice-set,
  length-slice, move-perm, ok,
}
use liby_cpp.BinaryHeap.{Element, read, write}

-- `operator<` is a strict weak order.
pub record IsStrictWeak {ℓ} {A : Type ℓ} (less : A → A → Bool) : Type ℓ where
  pub asym : (a b : A) → less a b ≡ true → less b a ≡ false
  pub neg_trans : (a b c : A) → less b a ≡ false → less c b ≡ false → less c a ≡ false

module _ {ℓ} {A : Type ℓ} ⦃e : Element A⦄ where
  -- `a` may stand above `b`.
  abbrev pub Below : A → A → Type 0
  Below a b = e.less b a ≡ false

  -- The entry at an index, and the default value behind the end.
  abbrev pub entry : List A → ℕ → A
  entry heap i = get_or heap i e.initial

  -- The entry at `c` once `x` is written at `i`.
  abbrev pub filled : List A → ℕ → A → ℕ → A
  filled heap i x c = if c == i then x else entry heap c

  -- Every edge whose parent is at `lo` or later is in order.
  abbrev pub IsHeapFrom : ℕ → List A → ℕ → Type 0
  IsHeapFrom lo heap n =
      (c : ℕ) → 1 < c → c ≤ n → lo ≤ c / 2 → Below (entry heap (c / 2)) (entry heap c)

  abbrev pub IsHeap : List A → ℕ → Type 0
  IsHeap heap n = IsHeapFrom 0 heap n

  -- The entries in use.
  abbrev pub items : List A → ℕ → List A
  items heap n = slice heap 1 n

  pub read-ok : (heap : List A) (i : ℕ) → i < length heap → read heap i ≡ ok (entry heap i)
  unfolding read
  read-ok [] i h = absurd (omega arith)
  read-ok (x ∷ heap) zero h = refl
  read-ok (x ∷ heap) (suc i) h = read-ok heap i (omega arith)

  pub write-ok :
      (heap : List A) (i : ℕ) (x : A) → i < length heap → write heap i x ≡ ok (set heap i x)
  unfolding write
  write-ok heap i x h = ground arith

  pub entry-set :
      (heap : List A) (i : ℕ) (x : A) (c : ℕ)
      → i < length heap
      → entry (set heap i x) c ≡ filled heap i x c
  entry-set heap i x c h = get_or-set heap i c x e.initial h

  pub items-set :
      (heap : List A) (n i : ℕ) (x : A)
      → 0 < i
      → items (set heap i x) n ≡ set (items heap n) (i - 1) x
  items-set heap n zero x h = absurd (omega arith)
  items-set heap n (suc i) x h = ground (arith, slice-set heap 1 n i x)

  -- Moving the entry at `j` into the hole at `i` moves the hole to `j`.
  pub hole-perm :
      (heap : List A) (n i j : ℕ) (x : A)
      → 0 < i
      → i ≤ n
      → 0 < j
      → j ≤ n
      → ¬ (i ≡ j)
      → n < length heap
      → Perm (items (set (set heap i (entry heap j)) j x) n) (items (set heap i x) n)
  hole-perm heap n i j x hi hin hj hjn ne size =
      let ys = items heap n in
      let long : length ys ≡ n = length-slice heap 1 n (omega arith) in
      let back : 1 + (j - 1) ≡ j = omega arith in
      let moved : get_or ys (j - 1) e.initial ≡ entry heap j =
        rw back at (get_or-slice heap 1 n (j - 1) e.initial (omega arith)) in
      rw
        (
          items-set (set heap i (entry heap j)) n j x hj,
          items-set heap n i (entry heap j) hi,
          items-set heap n i x hi,
          ← moved,
        )
        (move-perm ys (i - 1) (j - 1) x e.initial (omega arith) (omega arith)
          (λ same. ne (omega arith)))

-- What the loops leave: the heap order from `lo`, the entries of `heap`, and the vector's length.
pub record Sifted {ℓ} {A : Type ℓ} ⦃e : Element A⦄ (lo : ℕ) (heap : List A) (n : ℕ) (heap' : List A)
    : Type ℓ where
  pub ordered : IsHeapFrom lo heap' n
  pub same : Perm (items heap' n) (items heap n)
  pub sized : length heap' ≡ length heap
