-- ===== src/Resolver/Stop.antt =====
-- src/Resolver.cpp: `stop()` ends the resolver thread, so that the `join` behind it returns.
use mathlib.Core.Path.{subst}
use liby_cpp.BlockingQueue.Monitor.{pop_front-list, pop_front-first}
use liby_cpp.Base.{
  ℕ, suc, ◌<◌, ◌≡◌, refl, ap, ◌⊎◌, inl, inr, false, List, [], ◌∷◌, ◌++◌, Option, none, some, length,
  arith, ok, Option-cases, list-cases,
}
use liby_cpp.BlockingQueue.{push_back, of_elements}
use liby_cpp.Resolver.{
  AddrInfo, Query, World, new_thread, async_resolve, request, lower, serve, hand_over, resolve,
}
use liby_cpp.Resolver.Thread.{
  Place, testing, waiting, serving, finished, uncalled, returned, Shared, starting, Work, goes_on,
  ends, takes, serves, Steps, begin, asks, lowers, sends, works, loop_runs, loop_reads, loop_closes,
  others_hand,
}

abbrev Answerable : Query → Type 0
Answerable r = (r.handler ≡ none) ⊎ ((loop : ℕ) × (r.loop ≡ some loop))

abbrev AllAnswerable : List Query → Type 0
AllAnswerable [] = Unit
AllAnswerable (r ∷ rs) = Answerable r × AllAnswerable rs

abbrev InService : Place → Type 0
InService testing = Unit
InService waiting = Unit
InService (serving r) = Answerable r
InService finished = Unit

-- Once `stop()` has returned, a thread in `pop_wait` has an entry to take.
record Ready (s : Shared) : Type 0 where
  down : ¬ (s.stopper ≡ uncalled) → s.thread.keep_running ≡ false
  woken : s.stopper ≡ returned → s.place ≡ waiting → 0 < length s.thread.requests_.queue_
  in_queue : AllAnswerable s.thread.requests_.queue_
  in_service : InService s.place

AllAnswerable-append :
    (rs : List Query) (r : Query) → AllAnswerable rs → Answerable r → AllAnswerable (rs ++ r ∷ [])
AllAnswerable-append [] r all more = (more, tt)
AllAnswerable-append (x ∷ rs) r (first, all) more = (first, AllAnswerable-append rs r all more)

length-snoc : (rs : List Query) (r : Query) → 0 < length (rs ++ r ∷ [])
length-snoc [] r = omega arith
length-snoc (x ∷ rs) r = omega arith

module _ (getaddrinfo : List ℕ → List ℕ → Option (List AddrInfo)) where
  Work-Ready : (s s' : Shared) → Work getaddrinfo s s' → Ready s → Ready s'
  Work-Ready s s' (goes_on at up) k = record {
    down = k.down;
    woken = λ over _. absurd (cc (k.down (λ e. cc)));
    in_queue = k.in_queue;
    in_service = tt;
  }
  Work-Ready s s' (ends at up) k = record {
    down = k.down;
    woken = λ over place. absurd cc;
    in_queue = k.in_queue;
    in_service = tt;
  }
  Work-Ready s s' (takes r rest at e) k =
      let both : AllAnswerable (r ∷ rest.queue_) =
        subst AllAnswerable (pop_front-list s.thread.requests_.queue_ rest r e) k.in_queue in
      record {
        down = k.down;
        woken = λ over place. absurd cc;
        in_queue = both.1;
        in_service = both.0;
      }
  Work-Ready s s' (serves r w at e) k = record {
    down = k.down;
    woken = λ over place. absurd cc;
    in_queue = k.in_queue;
    in_service = tt;
  }

  -- What the loops do is nothing to the resolver thread.
  moved-Ready : (s : Shared) (w : World) → Ready s → Ready (record s { world = w })
  moved-Ready s w k = record {
    down = k.down;
    woken = k.woken;
    in_queue = k.in_queue;
    in_service = k.in_service;
  }

  Steps-Ready : (rs : List Query) (s : Shared) → Steps getaddrinfo rs s → Ready s
  unfolding starting new_thread of_elements async_resolve request lower push_back
  Steps-Ready rs s begin = record {
    down = λ called. absurd (called refl);
    woken = λ over place. absurd cc;
    in_queue = tt;
    in_service = tt;
  }
  Steps-Ready rs' s' (asks {rs} {s} loop host service handler steps) =
      let k = Steps-Ready rs s steps in
      record {
        down = k.down;
        woken = λ _ _. length-snoc s.thread.requests_.queue_ _;
        in_queue = AllAnswerable-append s.thread.requests_.queue_ _ k.in_queue (inr (loop, refl));
        in_service = k.in_service;
      }
  Steps-Ready rs s' (lowers {s = s} steps e) =
      let k = Steps-Ready rs s steps in
      record {
        down = λ _. refl;
        woken = λ over place. absurd cc;
        in_queue = k.in_queue;
        in_service = k.in_service;
      }
  Steps-Ready rs s' (sends {s = s} steps e) =
      let k = Steps-Ready rs s steps in
      record {
        down = λ _. k.down (λ e'. cc);
        woken = λ _ _. length-snoc s.thread.requests_.queue_ _;
        in_queue = AllAnswerable-append s.thread.requests_.queue_ _ k.in_queue (inl refl);
        in_service = k.in_service;
      }
  Steps-Ready rs s' (works {s = s} steps work) = Work-Ready s s' work (Steps-Ready rs s steps)
  Steps-Ready rs s' (loop_runs {s = s} loop h rest steps e) =
      moved-Ready s _ (Steps-Ready rs s steps)
  Steps-Ready rs s' (loop_reads {s = s} loop steps) = moved-Ready s _ (Steps-Ready rs s steps)
  Steps-Ready rs s' (loop_closes {s = s} loop steps) = moved-Ready s _ (Steps-Ready rs s steps)
  Steps-Ready rs s' (others_hand {s = s} loop steps) = moved-Ready s _ (Steps-Ready rs s steps)

  -- The resolver thread comes to its end by itself, in at most so many steps.
  pub data Finishes : ℕ → Shared → Type 0 where
    done : {n : ℕ} {s : Shared} → s.place ≡ finished → Finishes n s
    after : {n : ℕ} {s s' : Shared} → Work getaddrinfo s s' → Finishes n s' → Finishes (suc n) s

  serve-ok : (r : Query) (w : World) → Answerable r → (w' : World) × (serve getaddrinfo r w ≡ ok w')
  unfolding serve
  serve-ok r w (inl e) = (w, rw e refl)
  serve-ok r w (inr (loop, e)) = elim (Option-cases r.handler) [
    | inl none_set ↦ (w, rw none_set refl)
    | inr (h, set) ↦ (
      hand_over (record { loop = loop; handler = h; eps = resolve getaddrinfo r.name r.port }) w,
      rw (set, e) refl,
    )
  ]

  module _ (s : Shared) (k : Ready s) (over : s.stopper ≡ returned) where
    from_testing : s.place ≡ testing → Finishes 1 s
    from_testing at = after (ends at (k.down (λ e. cc))) (done refl)

  from_serving :
      (s : Shared) (k : Ready s) (r : Query)
      → s.stopper ≡ returned
      → s.place ≡ serving r
      → Finishes 2 s
  from_serving s k r over at =
      let (w, e) = serve-ok r s.world (subst InService at k.in_service) in
      let work = serves r w at e in after work (from_testing _ (Work-Ready s _ work k) over refl)

  from_waiting :
      (s : Shared) (k : Ready s) → s.stopper ≡ returned → s.place ≡ waiting → Finishes 3 s
  from_waiting s k over at = elim (list-cases s.thread.requests_.queue_) [
    | inl nothing ↦ absurd (omega (arith, k.woken over at, ap length nothing))
    | inr (r, rest, e) ↦
        let work =
          takes r (record { queue_ = rest }) at
            (pop_front-first s.thread.requests_.queue_ r rest e) in
        after work (from_serving _ (Work-Ready s _ work k) r over refl)
  ]

  longer : (n : ℕ) (s : Shared) → Finishes n s → Finishes (suc n) s
  longer n s (done at) = done at
  longer (suc n) s (after {s' = s'} work rest) = after work (longer n s' rest)

  -- Once `stop()` has returned, the resolver thread comes to its end in at most three steps of its own,
  -- wherever it is then and whatever the other threads have asked; it is not left in `pop_wait`.
  pub Steps-Finishes :
      (rs : List Query) (s : Shared) → Steps getaddrinfo rs s → s.stopper ≡ returned → Finishes 3 s
  Steps-Finishes rs s steps over = let k = Steps-Ready rs s steps in at_place s.place refl k
    where
      at_place : (place : Place) → s.place ≡ place → Ready s → Finishes 3 s
      at_place testing at k = longer 2 s (longer 1 s (from_testing s k over at))
      at_place waiting at k = from_waiting s k over at
      at_place (serving r) at k = longer 2 s (from_serving s k r over at)
      at_place finished at k = done at
