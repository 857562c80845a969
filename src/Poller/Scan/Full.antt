-- ===== src/Poller/Scan/Full.antt =====
-- src/PollerSelect.cpp, src/PollerPoll.cpp: the loop over the descriptors against one that does not
-- look at `nready`.
use liby_cpp.Base.{
  ℕ, zero, suc, ◌+◌, ◌-◌, ◌≤◌, ◌<◌, ◌≡◌, refl, sym, ap, ok-inj, Then, done, Then-inv, Then-if,
  Then-bind, Then-any, ltb→lt, lt→ltb, le→ltb, ◌∙◌, Bool, true, false, ◌&&◌, [], ltb, if◌then◌else◌,
  Bool-cases, arith, inl, inr, Run, ok, fault, out_of_fuel, ◌>>=◌, bind-cong,
}
use liby_cpp.Poller.{is_empty, Poller, Call, run_from, run_next_tick_handlers}
use liby_cpp.Poller.Handlers.{is_empty-nil}
use liby_cpp.Poller.Scan.{scan}

abbrev pub one_if : Bool → ℕ
one_if true = 1
one_if false = 0

-- How many of the `k` descriptors from `i` on are ready.
unfoldable pub count_ready : (ℕ → Bool) → ℕ → ℕ → ℕ
count_ready ready i zero = 0
count_ready ready i (suc k) = one_if (ready i) + count_ready ready (suc i) k

add_zero : (a b : ℕ) → a + b ≡ 0 → (a ≡ 0) × (b ≡ 0)
add_zero a b h = (omega arith, omega arith)

none-false : (b : Bool) → one_if b ≡ 0 → b ≡ false
none-false true h = ground arith
none-false false h = refl

and_false : (b : Bool) → (b && false) ≡ false
and_false true = refl
and_false false = refl

left_over :
    (b r : Bool) (n c : ℕ)
    → one_if b + c ≤ suc n
    → (b ≡ false → r ≡ false)
    → c ≤ (if r then suc n - 1 else suc n)
left_over true true n c few counted = omega arith
left_over true false n c few counted = omega arith
left_over false true n c few counted = absurd (let h = counted refl in cc)
left_over false false n c few counted = omega arith

module _ {ℓ} {P : Type ℓ} (call : Call P) where
  -- `runNextTickHandlers` leaves the list empty.
  pub run_next_tick_handlers-nil :
      (ticks : ℕ) (w : Poller P)
      → Then (λ w'. w'.next_tick_handlers ≡ []) (run_next_tick_handlers call ticks w)
  unfolding run_next_tick_handlers
  run_next_tick_handlers-nil ticks w =
      Then-if (is_empty w.next_tick_handlers) (λ h. done (is_empty-nil w.next_tick_handlers h))
        λ h.
          Then-bind (Then-any (run_from call ticks Poller.next_tick_handlers 0 w))
            λ last _. done refl

  -- With an empty list it does nothing.
  pub run_next_tick_handlers-idle :
      (ticks : ℕ) (w : Poller P)
      → w.next_tick_handlers ≡ []
      → run_next_tick_handlers call ticks w ≡ ok w
  unfolding run_next_tick_handlers
  run_next_tick_handlers-idle ticks w e = rw e refl

module _ {ℓ} {P : Type ℓ} (call : Call P) (bound : Poller P → ℕ)
    (visit : ℕ → Poller P → Run (Bool × Poller P)) where
  -- The loop that goes through all descriptors.
  unfoldable pub scan_all : ℕ → ℕ → ℕ → Poller P → Run (Poller P)
  scan_all ticks zero i w = fault out_of_fuel
  scan_all ticks (suc fuel) i w = elim (ltb i (bound w)) [
    | true ↦ do
      r ← visit i w
      w' ← run_next_tick_handlers call ticks r.1
      scan_all ticks fuel (suc i) w'
    | false ↦ ok w
  ]

  module _ {κ} (Good : Poller P → Type κ) (cap ticks : ℕ) (ready : ℕ → Bool)
      (within : (w : Poller P) → Good w → bound w ≤ cap)
      (visited : (i : ℕ) (w : Poller P) → Good w → i < bound w → Then (λ r. Good r.1) (visit i w))
      (ticked : (w : Poller P) → Good w → Then Good (run_next_tick_handlers call ticks w))
      (idle : (i : ℕ) (w : Poller P)
        → Good w
        → i < bound w
        → ready i ≡ false
        → visit i w ≡ ok (false, w)) where
    -- Without ready descriptors nothing happens.
    scan_all-idle :
        (k i : ℕ) (w : Poller P)
        → Good w
        → w.next_tick_handlers ≡ []
        → cap ≤ i + k
        → count_ready ready i k ≡ 0
        → scan_all ticks (suc k) i w ≡ ok w
    unfolding scan_all count_ready
    scan_all-idle zero i w good no_ticks all none_ready =
        rw (le→ltb i (bound w) (omega (arith, within w good)), scan_all) refl
    scan_all-idle (suc k) i w good no_ticks all none_ready =
        let (not_ready, rest) = add_zero _ _ none_ready in
        elim (Bool-cases (ltb i (bound w))) [
          | inl e ↦
              rw
                (
                  e,
                  scan_all,
                  idle i w good (ltb→lt i (bound w) e) (none-false (ready i) not_ready),
                  run_next_tick_handlers-idle call ticks w no_ticks,
                )
                (scan_all-idle k (suc i) w good no_ticks (omega arith) rest)
          | inr e ↦ rw (e, scan_all) refl
        ]

    -- When no more descriptors are ready than `nready` says, the loop that stops at `nready` 0 does
    -- the same as the one that goes through all of them.
    pub scan-scan_all :
        (k i nready : ℕ) (w : Poller P)
        → Good w
        → w.next_tick_handlers ≡ []
        → cap ≤ i + k
        → count_ready ready i k ≤ nready
        → scan call bound visit ticks (suc k) i nready w ≡ scan_all ticks (suc k) i w
    unfolding scan scan_all count_ready
    scan-scan_all zero i nready w good no_ticks all few =
        rw (le→ltb i (bound w) (omega (arith, within w good)), scan_all, scan) refl
    scan-scan_all (suc k) i zero w good no_ticks all few =
        rw (and_false (ltb i (bound w)), scan)
          (sym (scan_all-idle (suc k) i w good no_ticks all (omega arith)))
    scan-scan_all (suc k) i (suc n) w good no_ticks all few = elim (Bool-cases (ltb i (bound w))) [
      | inl e ↦
          let inside = ltb→lt i (bound w) e in
          let more : ltb 0 (suc n) ≡ true = lt→ltb 0 (suc n) (omega arith) in
          rw (e, more, scan, scan_all)
            (bind-cong (visit i w) _ _ λ r v.
              bind-cong (run_next_tick_handlers call ticks r.1) _ _ λ w' t.
                scan-scan_all k (suc i) (if r.0 then suc n - 1 else suc n) w'
                  (Then-inv (ticked r.1 (Then-inv (visited i w good inside) v)) t)
                  (Then-inv (run_next_tick_handlers-nil call ticks r.1) t) (omega arith)
                  (left_over (ready i) r.0 n _ few (λ h.
                    ap (λ (x : Bool × Poller P). x.0) (ok-inj (sym v ∙ idle i w good inside h)))))
      | inr e ↦ rw (e, scan_all, scan) refl
    ]
