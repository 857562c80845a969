-- ===== src/Poller/Kevent/Batches.antt =====
-- src/PollerKevent.cpp: which changes `updateKevents` hands to the kernel.
use mathlib.Core.Path.{subst}
use liby_cpp.Base.{
  Bool, true, false, ℕ, zero, suc, ◌≤◌, ◌<◌, ◌≡◌, refl, sym, ap, ◌∙◌, Option-cases, ◌-◌, ◌>>=◌,
  Returns-inv, inl, inr, List, [], ◌∷◌, ◌++◌, none, some, arith, if◌then◌else◌, length, lt→ltb, Run,
  ok, Returns, returns, Returns-bind,
}
use liby_cpp.Poller.{Poller, get_channel, is_empty}
use liby_cpp.Poller.Kevent.{Change, Kqueue, Own, span, behind, batches, update_kevents}

module _ (kernel : Kqueue) where
  -- The changes whose descriptor has a channel, in order.
  abbrev pub registered : Poller (Own kernel) → List Change → List Change
  registered w [] = []
  registered w (c ∷ cs) = elim (w.channels_ c.ident) [
    | none ↦ registered w cs
    | some p ↦ c ∷ registered w cs
  ]

  -- Every descriptor of the list is within the table.
  abbrev pub AllInside : Poller (Own kernel) → List Change → Type 0
  AllInside w [] = Unit
  AllInside w (c ∷ cs) = (c.ident < w.open_max) × AllInside w cs

  pub get_channel-ok :
      (w : Poller (Own kernel)) (fd : ℕ) → fd < w.open_max → get_channel w fd ≡ ok (w.channels_ fd)
  unfolding get_channel
  get_channel-ok w fd h = rw (lt→ltb fd w.open_max h) refl

  -- What the inner loop passes is registered, and it stops at a change that is not.
  record Split (w : Poller (Own kernel)) (cs : List Change) (r : List Change × List Change)
      : Type 0 where
    same : registered w cs ≡ r.0 ++ registered w (behind kernel r.1)
    shorter : length (behind kernel r.1) ≤ length cs - 1
    inside : AllInside w (behind kernel r.1)

  span-Split :
      (w : Poller (Own kernel)) (cs : List Change)
      → AllInside w cs
      → Returns (Split w cs) (span kernel w cs)
  unfolding span
  span-Split w [] inside = returns (record { same = refl; shorter = omega arith; inside = tt })
  span-Split w (c ∷ cs) (within, rest) =
      rw (get_channel-ok w c.ident within) (elim (Option-cases (w.channels_ c.ident)) [
        | inl e ↦ rw e (
            returns
              (record { same = rw (registered, e) refl; shorter = omega arith; inside = rest }))
        | inr (p, e) ↦ rw e (
            Returns-bind (span-Split w cs rest) λ r s. returns (record {
              same = rw (registered, e) (ap (◌∷◌ c) s.same);
              shorter = omega (arith, s.shorter);
              inside = s.inside;
            }))
      ])

  if_empty :
      (cs : List Change) (k k' : kernel.Instance)
      → (cs ≡ [] → k ≡ k')
      → (if is_empty cs then k else k') ≡ k'
  if_empty [] k k' h = h refl
  if_empty (c ∷ cs) k k' h = refl

  -- What the kernel documents. `accepts` tells which changes it takes; deleting a filter that was
  -- never added is one that it does not. A list of changes is applied from its front for as long as
  -- the changes are taken; as the call leaves no room for events, it ends at the first that fails.
  pub record Laws : Type 0 where
    pub accepts : kernel.Instance → Change → Bool
    pub nothing : (k : kernel.Instance) → kernel.change k [] ≡ k
    pub one_by_one :
        (k : kernel.Instance) (c : Change) (cs : List Change)
        → accepts k c ≡ true
        → kernel.change k (c ∷ cs) ≡ kernel.change (kernel.change k (c ∷ [])) cs
    pub stops :
        (k : kernel.Instance) (c : Change) (cs : List Change)
        → accepts k c ≡ false
        → kernel.change k (c ∷ cs) ≡ k

  module _ (laws : Laws) where
    -- None of the changes fails, applied one after the other.
    abbrev pub AllAccepted : kernel.Instance → List Change → Type 0
    AllAccepted k [] = Unit
    AllAccepted k (c ∷ cs) = (laws.accepts k c ≡ true) × AllAccepted (kernel.change k (c ∷ [])) cs

    in_order :
        (cs ds : List Change) (k : kernel.Instance)
        → AllAccepted k (cs ++ ds)
        → kernel.change (kernel.change k cs) ds ≡ kernel.change k (cs ++ ds)
    in_order [] ds k all = ap (λ (k' : kernel.Instance). kernel.change k' ds) (laws.nothing k)
    in_order (c ∷ cs) ds k (first, all) =
        ap (λ (k' : kernel.Instance). kernel.change k' ds) (laws.one_by_one k c cs first)
        ∙ in_order cs ds (kernel.change k (c ∷ [])) all
        ∙ sym (laws.one_by_one k c (cs ++ ds) first)

    accepted_behind :
        (cs ds : List Change) (k : kernel.Instance)
        → AllAccepted k (cs ++ ds)
        → AllAccepted (kernel.change k cs) ds
    accepted_behind [] ds k all =
        subst (λ (k' : kernel.Instance). AllAccepted k' ds) (sym (laws.nothing k)) all
    accepted_behind (c ∷ cs) ds k (first, all) =
        subst (λ (k' : kernel.Instance). AllAccepted k' ds) (sym (laws.one_by_one k c cs first))
          (accepted_behind cs ds (kernel.change k (c ∷ [])) all)

    batches-registered :
        (fuel : ℕ) (w : Poller (Own kernel)) (cs : List Change) (k : kernel.Instance)
        → length cs ≤ fuel
        → AllInside w cs
        → AllAccepted k (registered w cs)
        → batches kernel fuel w cs k ≡ ok (kernel.change k (registered w cs))
    unfolding batches
    batches-registered fuel w [] k enough inside all = ap ok (sym (laws.nothing k))
    batches-registered zero w (c ∷ cs) k enough inside all = absurd (omega arith)
    batches-registered (suc fuel) w (c ∷ cs) k enough inside all =
        let (r, e, s) = Returns-inv (span-Split w (c ∷ cs) inside) in
        let k' = kernel.change k r.0 in
        let rest = registered w (behind kernel r.1) in
        let all' : AllAccepted k (r.0 ++ rest) = subst (AllAccepted k) s.same all in
        let passed =
          if_empty r.0 k k'
            λ none_passed. sym (ap (kernel.change k) none_passed ∙ laws.nothing k) in
        ap
          (λ (call : Run (List Change × List Change)). call >>= λ r'.
            batches kernel fuel w (behind kernel r'.1)
              (if is_empty r'.0 then k else kernel.change k r'.0))
          e
        ∙ ap (batches kernel fuel w (behind kernel r.1)) passed
        ∙ (batches-registered fuel w (behind kernel r.1) k' (omega (arith, s.shorter, enough))
              s.inside (accepted_behind r.0 rest k all')
            ∙ ap ok (in_order r.0 rest k all' ∙ ap (kernel.change k) (sym s.same)))

    -- The body of `updateKevents` for the changes `cs`.
    all_changes :
        (w : Poller (Own kernel)) (cs : List Change)
        → w.own.changes_ ≡ cs
        → AllInside w cs
        → AllAccepted w.own.kq_ (registered w cs)
        → (if is_empty cs then ok w else do
          k ← batches kernel (length cs) w cs w.own.kq_
          ok (record w { own = record w.own { kq_ = k; changes_ = [] } }))
          ≡ ok (record w {
            own = record w.own { kq_ = kernel.change w.own.kq_ (registered w cs); changes_ = [] };
          })
    all_changes w [] e inside all =
        ap (λ (cs : List Change). ok (record w { own = record w.own { changes_ = cs } })) e
        ∙ ap
            (λ (k : kernel.Instance).
              ok (record w { own = record w.own { kq_ = k; changes_ = [] } }))
            (sym (laws.nothing w.own.kq_))
    all_changes w (c ∷ cs) e inside all =
        rw (batches-registered (length (c ∷ cs)) w (c ∷ cs) w.own.kq_ (omega arith) inside all) refl

    -- `updateKevents` does what one call of the kernel would do with exactly those of the collected
    -- changes whose descriptor still has a channel, in the order in which they were collected, and
    -- then has no change left, if all their descriptors are within the table and none of those changes
    -- fails when they are applied one after the other.
    pub update_kevents-registered :
        (w : Poller (Own kernel))
        → AllInside w w.own.changes_
        → AllAccepted w.own.kq_ (registered w w.own.changes_)
        → update_kevents kernel w
          ≡ ok (record w {
            own = record w.own {
              kq_ = kernel.change w.own.kq_ (registered w w.own.changes_);
              changes_ = [];
            };
          })
    unfolding update_kevents
    update_kevents-registered w inside all = all_changes w w.own.changes_ refl inside all
