-- ===== src/Poller/Scan.antt =====
-- src/PollerSelect.cpp, src/PollerPoll.cpp: the loop over the descriptors that both have, with what
-- is done for one descriptor as a parameter.
pub mod Full
use liby_cpp.Base.{
  ℕ, zero, suc, ◌-◌, Bool, true, false, ◌&&◌, ltb, if◌then◌else◌, Run, ok, fault, out_of_fuel,
  ◌>>=◌,
}
use liby_cpp.Poller.{Poller, Call, run_next_tick_handlers}

module _ {ℓ} {P : Type ℓ} (call : Call P) (bound : Poller P → ℕ)
    (visit : ℕ → Poller P → Run (Bool × Poller P)) where
  -- `for (; i < bound && nready > 0; i++)`; at the end of each round, also of one that `continue`
  -- leaves, the handlers of `nextTick` run. The visit says whether it lowers `nready`.
  unfoldable pub scan : ℕ → ℕ → ℕ → ℕ → Poller P → Run (Poller P)
  scan ticks zero i nready w = fault out_of_fuel
  scan ticks (suc fuel) i nready w = elim (ltb i (bound w) && ltb 0 nready) [
    | true ↦ do
      r ← visit i w
      w' ← run_next_tick_handlers call ticks r.1
      scan ticks fuel (suc i) (if r.0 then nready - 1 else nready) w'
    | false ↦ ok w
  ]
