-- ===== src/EventLoopGroup.antt =====
-- src/EventLoopGroup.cpp: the loops of a group and the choice of one by a descriptor.
pub mod Choice
mod Tests
use liby_cpp.Base.{
  ℕ, zero, suc, ◌+◌, ◌-◌, ◌%◌, Bool, List, [], ◌∷◌, Option, none, some, ◌==◌, if◌then◌else◌,
  get_elem?, ℤ, pos, negsuc, Run, ok, fault, out_of_bounds, or_fault,
}

-- `n_` and `ploops_`, the addresses of the loops, the first one that of the main thread.
pub record EventLoopGroup : Type 0 where
  pub n_ : ℕ
  pub ploops_ : List ℕ

-- `n + 1` loops from an address on.
abbrev pub loops_from : ℕ → ℕ → List ℕ
loops_from p zero = []
loops_from p (suc k) = p ∷ loops_from (suc p) k

-- `EventLoopGroup(n, chooser)`, whose loops are at the addresses from `first` on; that the first is
-- bound to the thread is left out.
unfoldable pub new_group : ℕ → ℕ → EventLoopGroup
new_group first n = record { n_ = n; ploops_ = loops_from first (suc n) }

-- `ploops_[i]`
abbrev pub loop_at : EventLoopGroup → ℤ → Run ℕ
loop_at g (pos i) = or_fault (get_elem? g.ploops_ i) out_of_bounds
loop_at g (negsuc i) = fault out_of_bounds

abbrev minus : ℕ → ℤ
minus zero = pos 0
minus (suc k) = negsuc k

-- `a % b` of C++, which has the sign of `a`.
abbrev pub rem : ℤ → ℕ → ℤ
rem (pos a) b = pos (a % b)
rem (negsuc a) b = minus (suc a % b)

abbrev pub plus_one : ℤ → ℤ
plus_one (pos a) = pos (suc a)
plus_one (negsuc zero) = pos 0
plus_one (negsuc (suc a)) = negsuc a

-- `robinLoop(fd)`
unfoldable pub robin_loop : EventLoopGroup → ℤ → Run ℕ
robin_loop g fd = loop_at g (rem fd (suc g.n_))

-- `robinLoop1(fd)`
unfoldable pub robin_loop1 : EventLoopGroup → ℤ → Run ℕ
robin_loop1 g fd = if g.n_ == 0 then loop_at g (pos 0) else loop_at g (plus_one (rem fd g.n_))
