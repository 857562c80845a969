-- ===== src/Resolver/Delivery.antt =====
-- src/Resolver.cpp, src/EventQueue.cpp: what the loops have taken and still hold of all that was handed
-- to them.
use mathlib.Core.List.{append_assoc}
use liby_cpp.Base.{
  ℕ, ◌≡◌, refl, sym, ap, ◌∙◌, List, [], ◌∷◌, ◌++◌, length, arith, ok, places, places-snoc, ◌==◌,
  if◌then◌else◌, Bool-cases, inl, inr,
}
use liby_cpp.BlockingQueue.{BlockingQueue, pop_front}
use liby_cpp.BlockingQueue.Monitor.{pop_front-list}
use liby_cpp.EventQueue.{destroy}
use liby_cpp.EventQueue.Wakeup.{run_event_handler-queue}
use liby_cpp.Resolver.{Post, Handed, resolved, other, loop_of, World, hand}
use liby_cpp.Resolver.Thread.{taken, eventfd_read, eventfd_closed}

-- The closures of the resolver thread among all that was handed over.
abbrev pub closures : List Handed → List Post
closures [] = []
closures (resolved p ∷ hs) = p ∷ closures hs
closures (other loop ∷ hs) = closures hs

pub closures-resolved :
    (hs : List Handed) (p : Post) → closures (hs ++ resolved p ∷ []) ≡ closures hs ++ p ∷ []
closures-resolved [] p = refl
closures-resolved (resolved q ∷ hs) p = ap (◌∷◌ q) (closures-resolved hs p)
closures-resolved (other loop ∷ hs) p = closures-resolved hs p

pub closures-other : (hs : List Handed) (loop : ℕ) → closures (hs ++ other loop ∷ []) ≡ closures hs
closures-other [] loop = refl
closures-other (resolved q ∷ hs) loop = ap (◌∷◌ q) (closures-other hs loop)
closures-other (other l ∷ hs) loop = closures-other hs loop

-- What a loop has taken and what its queue holds are together the numbers of all that was handed to
-- it, in order.
abbrev pub Delivered : World → Type 0
Delivered w =
    (loop : ℕ)
    → w.ran loop ++ (w.loops loop).event_handlers.queue_
      ≡ places (λ h. loop == loop_of h) 0 w.handed

pub hand-Delivered : (h : Handed) (w : World) → Delivered w → Delivered (hand h w)
unfolding hand
hand-Delivered h w all loop = elim (Bool-cases (loop == loop_of h)) [
  | inl here ↦ rw here (
      ap (◌++◌ (w.ran loop)) (run_event_handler-queue (w.loops loop) (length w.handed))
      ∙ sym (append_assoc (w.ran loop) (w.loops loop).event_handlers.queue_ _)
      ∙ ap (λ (l : List ℕ). l ++ length w.handed ∷ []) (all loop)
      ∙ sym (rw here at snoc))
  | inr away ↦ rw away (all loop ∙ sym (rw away at snoc))
]
  where
    snoc : places (λ (q : Handed). loop == loop_of q) 0 (w.handed ++ h ∷ []) ≡ (
        if loop == loop_of h
        then places (λ (q : Handed). loop == loop_of q) 0 w.handed ++ length w.handed ∷ []
        else places (λ (q : Handed). loop == loop_of q) 0 w.handed)
    snoc = ground (arith, places-snoc (λ (q : Handed). loop == loop_of q) 0 w.handed h)

pub taken-Delivered :
    (loop h : ℕ) (rest : BlockingQueue ℕ) (w : World)
    → pop_front (w.loops loop).event_handlers ≡ ok (h, rest)
    → Delivered w
    → Delivered (taken loop h rest w)
taken-Delivered loop h rest w e all l = elim (Bool-cases (l == loop)) [
  | inl here ↦
      let same : l ≡ loop = ground arith in
      rw (here, same)
        (append_assoc (w.ran loop) (h ∷ []) rest.queue_
          ∙ ap (◌++◌ (w.ran loop))
              (sym (pop_front-list (w.loops loop).event_handlers.queue_ rest h e))
          ∙ all loop)
  | inr away ↦ rw away (all l)
]

pub eventfd_read-Delivered : (loop : ℕ) (w : World) → Delivered w → Delivered (eventfd_read loop w)
eventfd_read-Delivered loop w all l = ground (arith, all l)

pub eventfd_closed-Delivered :
    (loop : ℕ) (w : World) → Delivered w → Delivered (eventfd_closed loop w)
unfolding destroy
eventfd_closed-Delivered loop w all l = ground (arith, all l)
