-- ===== src/EventLoopGroup/Choice.antt =====
-- src/EventLoopGroup.cpp: the loop that is chosen is one of the group.
use native.Mathlib.Nat.{mod-lt}
use liby_cpp.Base.{
  ℕ, zero, suc, ◌+◌, ◌%◌, ◌≤◌, ◌<◌, ◌≡◌, ap, ◌∙◌, some, ◌==◌, get_elem?, false, pos, arith, Returns,
  returns, Returns-if, refl, ok, ==_iff,
}
use liby_cpp.EventLoopGroup.{loops_from, new_group, robin_loop, robin_loop1}

get_elem?-loops_from : (first k i : ℕ) → i < k → get_elem? (loops_from first k) i ≡ some (first + i)
get_elem?-loops_from first zero i h = absurd (omega arith)
get_elem?-loops_from first (suc k) zero h = ap some (omega arith)
get_elem?-loops_from first (suc k) (suc i) h =
    get_elem?-loops_from (suc first) k i (omega arith) ∙ ap some (omega arith)

-- Which loop `robinLoop` gives for a descriptor that is not negative.
pub robin_loop_lem :
    (first n fd : ℕ) → robin_loop (new_group first n) (pos fd) ≡ ok (first + fd % suc n)
unfolding robin_loop new_group
robin_loop_lem first n fd =
    let small : fd % suc n < suc n = mod-lt fd (omega arith) in
    rw (get_elem?-loops_from first (suc n) (fd % suc n) small) refl

positive : (n : ℕ) → (n == 0) ≡ false → 0 < n
positive n h = ground arith

-- For a descriptor that is not negative, `robinLoop` and `robinLoop1` give a loop of the group, and
-- `robinLoop1` gives the loop of the main thread only if there is no other.
pub robin_loop-InGroup :
    (first n fd : ℕ)
    → Returns (λ p. (first ≤ p) × (p ≤ first + n)) (robin_loop (new_group first n) (pos fd))
      × Returns
          (λ p. (first ≤ p) × (p ≤ first + n) × (0 < n → first < p))
          (robin_loop1 (new_group first n) (pos fd))
unfolding robin_loop robin_loop1 new_group
robin_loop-InGroup first n fd =
    let small : fd % suc n < suc n = mod-lt fd (omega arith) in
    (
      rw (get_elem?-loops_from first (suc n) (fd % suc n) small)
          (returns (omega arith, omega arith)),
      Returns-if (n == 0)
          (λ e. returns (omega arith, omega arith, λ h. omega (arith, (==_iff n 0).0 e)))
          λ e.
            let more : 0 < n = positive n e in
            let below : fd % n < n = mod-lt fd more in
            rw (get_elem?-loops_from (suc first) n (fd % n) below)
              (returns (omega arith, omega (arith, below), λ h. omega arith)),
    )
