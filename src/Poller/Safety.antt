-- ===== src/Poller/Safety.antt =====
-- src/Poller.cpp, src/Channel.cpp: what the parts of a round do to an invariant that all handlers
-- keep.
use liby_cpp.Base.{
  ℕ, zero, suc, ◌<◌, ◌≡◌, refl, Bool, true, false, ◌&&◌, List, [], Option, none, some, ltb,
  get_elem?, ℤ, pos, negsuc, Bool-cases, Option-cases, ◌⊎◌, ◌==◌, ==_iff, ne→==, lt→ltb, ltb→lt,
  inl, inr, Run, ◌>>=◌, Safe, safe, stopped, Safe-bind, Safe-if,
}
use liby_cpp.Poller.{
  put, is_empty, checked_fd, get_channel, Channel, Poller, Call, call_back, handle_read_event,
  handle_writ_event, handle_erro_event, run_from, run_next_tick_handlers, run_next_loop_handlers,
  run_after_loop_handlers,
}
use liby_cpp.Poller.Scan.{scan}

-- Every place of the table that is set has the address of a channel that is alive and has the
-- descriptor of that place.
unfoldable pub LiveTable : (ℕ → Option ℕ) → (ℕ → Option Channel) → Type 0
LiveTable channels objects =
    (fd p : ℕ) → channels fd ≡ some p → (c : Channel) × (objects p ≡ some c) × (c.fd_ ≡ pos fd)

abbrev pub Live {ℓ} : {P : Type ℓ} → Poller P → Type 0
Live w = LiveTable w.channels_ w.objects

-- What a table has after a write.
pub put-inv {ℓ} :
    {A : Type ℓ} (f : ℕ → A) (i j : ℕ) (a b : A)
    → put f i a j ≡ b
    → ((j ≡ i) × (a ≡ b)) ⊎ (¬ (j ≡ i) × (f j ≡ b))
put-inv f i j a b h = elim (Bool-cases (j == i)) [
  | inl e ↦ inl ((==_iff j i).0 e, rw e at h)
  | inr e ↦ inr ((λ same. let x = (==_iff j i).1 same in cc), rw e at h)
]

module _ (channels : ℕ → Option ℕ) (objects : ℕ → Option Channel) (p fd : ℕ) (c : Channel)
    (table : LiveTable channels objects) (alive : objects p ≡ some c) (fd_c : c.fd_ ≡ pos fd) where
  pub LiveTable-put : LiveTable (put channels fd (some p)) objects
  unfolding LiveTable
  LiveTable-put f q h = elim (put-inv channels fd f (some p) (some q) h) [
    | inl (same, e) ↦ (c, cc, cc)
    | inr (differ, e) ↦ table f q e
  ]

  pub LiveTable-delete : LiveTable (put channels fd none) (put objects p none)
  unfolding LiveTable
  LiveTable-delete f q h = elim (put-inv channels fd f none (some q) h) [
    | inl (same, e) ↦ absurd cc
    | inr (differ, e) ↦
        let (c', live_q, fd_q) = table f q e in
        let other : ¬ (q ≡ p) = λ same. differ cc in (c', rw (ne→== q p other) live_q, fd_q)
  ]

-- A look into the table; what follows may take it that the place is empty or has `p`.
pub get_channel-Safe {ℓ κ ℓ'} :
    {P : Type ℓ} {X : Type κ} {Q : X → Type ℓ'} (w : Poller P) (fd : ℕ) (rest : Option ℕ → Run X)
    → fd < w.open_max
    → Safe Q (rest none)
    → ((p : ℕ) → w.channels_ fd ≡ some p → Safe Q (rest (some p)))
    → Safe Q (get_channel w fd >>= rest)
unfolding get_channel
get_channel-Safe w fd rest inside on_none on_some =
    rw (lt→ltb fd w.open_max inside) (elim (Option-cases (w.channels_ fd)) [
      | inl e ↦ rw e on_none
      | inr (p, e) ↦ rw e (on_some p e)
    ])

pub checked_fd-Safe {ℓ κ} :
    {X : Type ℓ} {Q : X → Type κ} (fd : ℤ) {rest : ℕ → Run X}
    → ((n : ℕ) → fd ≡ pos n → Safe Q (rest n))
    → Safe Q (checked_fd fd >>= rest)
checked_fd-Safe (pos n) continue = continue n refl
checked_fd-Safe (negsuc n) continue = stopped (λ e. cc) λ e. cc

and_true : (a b : Bool) → (a && b) ≡ true → a ≡ true
and_true true b h = refl
and_true false b h = h

module _ {ℓ κ} {P : Type ℓ} (call : Call P) (Good : Poller P → Type κ)
    (keeps : (h : ℕ) (w : Poller P) → Good w → Safe Good (call h w))
    (live : (w : Poller P) → Good w → Live w)
    (forgets : (w : Poller P) (ticks loops afters : List ℕ)
      → Good w
      → Good (record w {
        next_tick_handlers = ticks;
        next_loop_handlers = loops;
        after_loop_handlers = afters;
      })) where
  call_back-Safe : (cb : Option ℕ) (w : Poller P) → Good w → Safe Good (call_back call cb w)
  call_back-Safe none w good = safe good
  call_back-Safe (some h) w good = keeps h w good

  pub handle_read_event-Safe :
      (fd p : ℕ) (w : Poller P)
      → w.channels_ fd ≡ some p
      → Good w
      → Safe Good (handle_read_event call p w)
  unfolding handle_read_event LiveTable
  handle_read_event-Safe fd p w here good =
      let (c, alive, _) = live w good fd p here in rw alive (call_back-Safe c.read_callback w good)

  pub handle_writ_event-Safe :
      (fd p : ℕ) (w : Poller P)
      → w.channels_ fd ≡ some p
      → Good w
      → Safe Good (handle_writ_event call p w)
  unfolding handle_writ_event LiveTable
  handle_writ_event-Safe fd p w here good =
      let (c, alive, _) = live w good fd p here in rw alive (call_back-Safe c.writ_callback w good)

  pub handle_erro_event-Safe :
      (fd p : ℕ) (w : Poller P)
      → w.channels_ fd ≡ some p
      → Good w
      → Safe Good (handle_erro_event call p w)
  unfolding handle_erro_event LiveTable
  handle_erro_event-Safe fd p w here good =
      let (c, alive, _) = live w good fd p here in rw alive (call_back-Safe c.erro_callback w good)

  run_from-Safe :
      (fuel : ℕ) (list : Poller P → List ℕ) (i : ℕ) (w : Poller P)
      → Good w
      → Safe Good (run_from call fuel list i w)
  unfolding run_from
  run_from-Safe zero list i w good = stopped (λ e. cc) λ e. cc
  run_from-Safe (suc fuel) list i w good = elim (Option-cases (get_elem? (list w) i)) [
    | inl e ↦ rw (e, run_from) (safe good)
    | inr (h, e) ↦
        rw (e, run_from)
          (Safe-bind (keeps h w good) λ w' good'. run_from-Safe fuel list (suc i) w' good')
  ]

  pub run_next_tick_handlers-Safe :
      (fuel : ℕ) (w : Poller P) → Good w → Safe Good (run_next_tick_handlers call fuel w)
  unfolding run_next_tick_handlers
  run_next_tick_handlers-Safe fuel w good =
      Safe-if (is_empty w.next_tick_handlers) (λ _. safe good)
        λ _.
          Safe-bind (run_from-Safe fuel Poller.next_tick_handlers 0 w good)
            λ v good'. safe (forgets v [] v.next_loop_handlers v.after_loop_handlers good')

  pub run_next_loop_handlers-Safe :
      (fuel : ℕ) (w : Poller P) → Good w → Safe Good (run_next_loop_handlers call fuel w)
  unfolding run_next_loop_handlers
  run_next_loop_handlers-Safe fuel w good =
      Safe-if (is_empty w.next_loop_handlers) (λ _. safe good)
        λ _.
          Safe-bind (run_from-Safe fuel Poller.next_loop_handlers 0 w good)
            λ v good'. safe (forgets v v.next_tick_handlers [] v.after_loop_handlers good')

  pub run_after_loop_handlers-Safe :
      (fuel : ℕ) (w : Poller P) → Good w → Safe Good (run_after_loop_handlers call fuel w)
  unfolding run_after_loop_handlers
  run_after_loop_handlers-Safe fuel w good =
      Safe-if (is_empty w.after_loop_handlers) (λ _. safe good)
        λ _.
          Safe-bind (run_from-Safe fuel Poller.after_loop_handlers 0 w good)
            λ v good'. safe (forgets v v.next_tick_handlers v.next_loop_handlers [] good')

  pub scan-Safe :
      (bound : Poller P → ℕ) (visit : ℕ → Poller P → Run (Bool × Poller P))
      → ((i : ℕ) (w : Poller P) → Good w → i < bound w → Safe (λ r. Good r.1) (visit i w))
      → (ticks fuel i nready : ℕ) (w : Poller P) → Good w
      → Safe Good (scan call bound visit ticks fuel i nready w)
  unfolding scan
  scan-Safe bound visit visited ticks zero i nready w good = stopped (λ e. cc) λ e. cc
  scan-Safe bound visit visited ticks (suc fuel) i nready w good =
      elim (Bool-cases (ltb i (bound w) && ltb 0 nready)) [
        | inl e ↦
            rw (e, scan)
              (Safe-bind (visited i w good (ltb→lt i (bound w) (and_true _ _ e))) λ r good'.
                Safe-bind (run_next_tick_handlers-Safe ticks r.1 good')
                  λ w' good''. scan-Safe bound visit visited ticks fuel (suc i) _ w' good'')
        | inr e ↦ rw (e, scan) (safe good)
      ]
