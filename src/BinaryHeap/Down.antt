-- ===== src/BinaryHeap/Down.antt =====
-- src/BinaryHeap.h: `percolate_down` and `build`.
use mathlib.Core.List.Perm
use liby_cpp.Base.{
  ℕ, zero, suc, ◌+◌, ◌*◌, ◌/◌, ◌≤◌, ◌<◌, ◌≡◌, ◌≢◌, ◌⊎◌, inl, inr, refl, ◌∙◌, true, List, arith, leb,
  ◌==◌, length, set, length-set, ok, Returns, returns, Returns-map, Returns-bind, Returns-if,
  Bool-cases, set-get_or, lt→leb, ap,
}
use liby_cpp.BinaryHeap.{Element, smaller_child, sink, percolate_down, build}
use liby_cpp.BinaryHeap.Order.{
  IsStrictWeak, Below, entry, filled, IsHeapFrom, Sifted, read-ok, write-ok, entry-set, hole-perm,
}

module _ {ℓ} {A : Type ℓ} ⦃e : Element A⦄ (law : IsStrictWeak e.less) where
  -- With `tmp` written into the hole, only the edges below the hole may be out of order.
  pub record DownInv (lo : ℕ) (heap : List A) (n hole : ℕ) (tmp : A) : Type 0 where
    pub edges :
        (c : ℕ)
        → 1 < c
        → c ≤ n
        → lo ≤ c / 2
        → c / 2 ≢ hole
        → Below (filled heap hole tmp (c / 2)) (filled heap hole tmp c)
    pub bridged :
        (c : ℕ)
        → c ≤ n
        → c / 2 ≡ hole
        → 1 < hole
        → lo ≤ hole / 2
        → Below (entry heap (hole / 2)) (entry heap c)

  -- `m` is a child of `hole`, and no child is below it.
  record IsSmallerChild (heap : List A) (n hole m : ℕ) : Type 0 where
    inside : m ≤ n
    child : (m ≡ hole * 2) ⊎ (m ≡ hole * 2 + 1)
    least : (c : ℕ) → c ≤ n → c / 2 ≡ hole → Below (entry heap m) (entry heap c)

  smaller_child-IsSmallerChild :
      (heap : List A) (n hole : ℕ)
      → 0 < hole
      → hole * 2 ≤ n
      → n < length heap
      → Returns (IsSmallerChild heap n hole) (smaller_child heap n hole)
  unfolding smaller_child
  smaller_child-IsSmallerChild heap n hole pos h size =
      let child = hole * 2 in
      let refl_below : (a : A) → Below a a = λ a. ground (arith, law.asym a a) in
      Returns-if (child == n)
        (λ last. returns (record {
          inside = h;
          child = inl refl;
          least = λ c p q.
              let only : c ≡ child = ground arith in ground (arith, refl_below (entry heap child));
        }))
        λ more.
          rw (read-ok heap (child + 1) (ground arith), read-ok heap child (omega arith))
            (elim (Bool-cases (e.less (entry heap (child + 1)) (entry heap child))) [
              | inl right ↦ rw right (
                  returns (record {
                    inside = ground arith;
                    child = inr refl;
                    least = λ c p q. ground (
                      arith,
                      refl_below (entry heap (child + 1)),
                      law.asym (entry heap (child + 1)) (entry heap child),
                    );
                  }))
              | inr left ↦ rw left (
                  returns (record {
                    inside = h;
                    child = inl refl;
                    least = λ c p q. ground (arith, refl_below (entry heap child));
                  }))
            ])

  lower-DownInv :
      (lo : ℕ) (heap : List A) (n hole m : ℕ) (tmp : A)
      → DownInv lo heap n hole tmp
      → IsSmallerChild heap n hole m
      → 0 < hole
      → n < length heap
      → e.less (entry heap m) tmp ≡ true
      → DownInv lo (set heap hole (entry heap m)) n m tmp
  lower-DownInv lo heap n hole m tmp v s pos size below =
      let up = entry heap m in
      let at = λ (c : ℕ). entry-set heap hole up c (omega arith) in
      record {
        edges = λ c p q r t.
            ground (arith, at c, at (c / 2), law.asym up tmp, v.edges c, v.bridged m, s.least c);
        bridged = λ c p q r t. ground (arith, at c, at (m / 2), v.edges c);
      }

  sink_restores :
      (f lo : ℕ) (heap : List A) (n hole : ℕ) (tmp : A)
      → n < hole + f
      → 0 < f
      → 0 < hole
      → hole < length heap
      → n < length heap
      → DownInv lo heap n hole tmp
      → Returns (Sifted lo (set heap hole tmp) n) (sink f heap n hole tmp)
  unfolding sink
  sink_restores zero lo heap n hole tmp fuel some pos inside size v = absurd (omega arith)
  sink_restores (suc f) lo heap n hole tmp fuel some pos inside size v =
      let at = λ (c : ℕ). entry-set heap hole tmp c inside in
      rw (write-ok heap hole tmp inside) (
        Returns-if (leb (hole * 2) n)
          (λ more.
            Returns-bind (smaller_child-IsSmallerChild heap n hole pos (ground arith) size) λ m s.
              let up = entry heap m in
              let heap' = set heap hole up in
              let long = length-set heap hole up in
              rw (read-ok heap m (omega arith), write-ok heap hole up inside)
                (Returns-if (e.less up tmp)
                  (λ below.
                    Returns-map
                      (sink_restores f lo heap' n m tmp (omega arith) (ground arith) (omega arith)
                        (omega arith) (omega arith)
                        (lower-DownInv lo heap n hole m tmp v s pos size below))
                      λ b t. record {
                        ordered = t.ordered;
                        same = Perm.trans t.same (
                            hole-perm heap n hole m tmp pos (ground arith) (omega arith) s.inside
                              (ground arith) size);
                        sized =
                            omega
                              (arith, t.sized, length-set heap' m tmp, length-set heap hole tmp);
                      })
                  λ settled. returns (record {
                    ordered = λ c p q r. ground (
                      arith,
                      at c,
                      at (c / 2),
                      v.edges c,
                      s.least c,
                      law.neg_trans tmp up (entry heap c),
                    );
                    same = Perm.rfl;
                    sized = refl;
                  })))
          λ bottom. returns (record {
            ordered = λ c p q r. ground (arith, at c, at (c / 2), v.edges c);
            same = Perm.rfl;
            sized = refl;
          }))

  -- `percolate_down(hole)` turns a vector in which only the edges below `hole` may be out of order
  -- into a heap of the same entries.
  pub percolate_down_restores :
      (lo : ℕ) (heap : List A) (n hole : ℕ)
      → 0 < hole
      → hole < length heap
      → n < length heap
      → ((c : ℕ)
          → 1 < c
          → c ≤ n
          → lo ≤ c / 2
          → c / 2 ≢ hole
          → Below (entry heap (c / 2)) (entry heap c))
      → ((c : ℕ)
          → c ≤ n
          → c / 2 ≡ hole
          → 1 < hole
          → lo ≤ hole / 2
          → Below (entry heap (hole / 2)) (entry heap c))
      → Returns (Sifted lo heap n) (percolate_down heap n hole)
  unfolding percolate_down
  percolate_down_restores lo heap n hole pos inside size edges bridged =
      let tmp = entry heap hole in
      let whole : set heap hole tmp ≡ heap = set-get_or heap hole e.initial in
      rw (read-ok heap hole inside) (
        rw whole at (
          sink_restores (n + 1) lo heap n hole tmp (omega arith) (omega arith) pos inside size
            (record { edges = λ c p q r t. ground (arith, edges c); bridged = bridged })))

  -- Each round of `build` extends the ordered part of the tree by one parent.
  pub build_orders :
      (i : ℕ) (heap : List A) (n : ℕ)
      → i ≤ n
      → n < length heap
      → IsHeapFrom (suc i) heap n
      → Returns (Sifted 0 heap n) (build i heap n)
  unfolding build
  build_orders zero heap n h size v =
      returns (record { ordered = λ c p q r. v c p q (omega arith); same = Perm.rfl; sized = refl })
  build_orders (suc i) heap n h size v =
      Returns-bind
        (percolate_down_restores (suc i) heap n (suc i) (omega arith) (omega arith) size
          (λ c p q r t. v c p q (omega arith)) (λ c p q r t. absurd (omega arith)))
        λ b s.
          Returns-map (build_orders i b n (omega arith) (omega (arith, s.sized)) s.ordered) λ d t.
            record {
              ordered = t.ordered;
              same = Perm.trans t.same s.same;
              sized = t.sized ∙ s.sized;
            }

module _ {ℓ} {A : Type ℓ} ⦃e : Element A⦄ where
  -- At a leaf `percolate_down` changes nothing.
  pub percolate_down-leaf :
      (heap : List A) (n hole : ℕ)
      → n < hole * 2
      → hole < length heap
      → percolate_down heap n hole ≡ ok heap
  unfolding percolate_down sink
  percolate_down-leaf heap n hole leaf inside =
      let one : n + 1 ≡ suc n = omega arith in
      rw
        (
          read-ok heap hole inside,
          one,
          lt→leb (hole * 2) n leaf,
          write-ok heap hole (entry heap hole) inside,
        )
        (ap ok (set-get_or heap hole e.initial))
