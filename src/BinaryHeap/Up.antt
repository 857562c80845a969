-- ===== src/BinaryHeap/Up.antt =====
-- src/BinaryHeap.h: the loop of `insert`.
use mathlib.Core.List.Perm
use liby_cpp.Base.{
  ℕ, zero, suc, ◌/◌, ◌≤◌, ◌<◌, ◌≡◌, ◌≢◌, refl, true, List, arith, ltb, length, set, length-set,
  Returns, returns, Returns-map, Returns-if,
}
use liby_cpp.BinaryHeap.{Element, percolate_up}
use liby_cpp.BinaryHeap.Order.{
  IsStrictWeak, Below, entry, filled, Sifted, read-ok, write-ok, entry-set, hole-perm,
}

module _ {ℓ} {A : Type ℓ} ⦃e : Element A⦄ (law : IsStrictWeak e.less) where
  -- With `x` written into the hole, only the edge above the hole may be out of order.
  pub record UpInv (heap : List A) (n hole : ℕ) (x : A) : Type 0 where
    pub edges :
        (c : ℕ)
        → 1 < c
        → c ≤ n
        → c ≢ hole
        → Below (filled heap hole x (c / 2)) (filled heap hole x c)
    pub bridged :
        (c : ℕ) → c ≤ n → c / 2 ≡ hole → 1 < hole → Below (entry heap (hole / 2)) (entry heap c)

  raise-UpInv :
      (heap : List A) (n hole : ℕ) (x : A)
      → UpInv heap n hole x
      → 1 < hole
      → hole ≤ n
      → n < length heap
      → e.less x (entry heap (hole / 2)) ≡ true
      → UpInv (set heap hole (entry heap (hole / 2))) n (hole / 2) x
  raise-UpInv heap n hole x v pos inside size below =
      let up = entry heap (hole / 2) in
      let at = λ (c : ℕ). entry-set heap hole up c (omega arith) in
      record {
        edges = λ c p q r. ground (
          arith,
          at c,
          at (c / 2),
          law.asym x up,
          v.edges c,
          v.bridged c,
          law.neg_trans x up (entry heap c),
        );
        bridged = λ c p q r. ground (
          arith,
          at c,
          at (hole / 2 / 2),
          v.edges c,
          v.edges (hole / 2),
          law.neg_trans (entry heap (hole / 2 / 2)) up (entry heap c),
        );
      }

  pub percolate_up_restores :
      (f : ℕ) (heap : List A) (n hole : ℕ) (x : A)
      → hole ≤ f
      → 0 < hole
      → hole ≤ n
      → n < length heap
      → UpInv heap n hole x
      → Returns (Sifted 0 (set heap hole x) n) (percolate_up f heap hole x)
  unfolding percolate_up
  percolate_up_restores zero heap n hole x fuel pos inside size v = absurd (omega arith)
  percolate_up_restores (suc f) heap n hole x fuel pos inside size v =
      let up = entry heap (hole / 2) in
      let at = λ (c : ℕ). entry-set heap hole x c (omega arith) in
      rw
        (
          read-ok heap (hole / 2) (omega arith),
          write-ok heap hole up (omega arith),
          write-ok heap hole x (omega arith),
        )
        (Returns-if (ltb 1 hole)
          (λ deep.
            Returns-if (e.less x up)
              (λ below.
                let heap' = set heap hole up in
                let long = length-set heap hole up in
                Returns-map
                  (percolate_up_restores f heap' n (hole / 2) x (ground arith) (ground arith)
                    (ground arith) (omega arith)
                    (raise-UpInv heap n hole x v (ground arith) inside size below))
                  λ b s. record {
                    ordered = s.ordered;
                    same = Perm.trans s.same (
                        hole-perm heap n hole (hole / 2) x pos inside (ground arith) (ground arith)
                          (ground arith) size);
                    sized =
                        omega
                          (arith, s.sized, length-set heap' (hole / 2) x, length-set heap hole x);
                  })
              λ settled. returns (record {
                ordered = λ c p q r. ground (arith, at c, at (c / 2), v.edges c);
                same = Perm.rfl;
                sized = refl;
              }))
          λ root. returns (record {
            ordered = λ c p q r. ground (arith, at c, at (c / 2), v.edges c);
            same = Perm.rfl;
            sized = refl;
          }))
