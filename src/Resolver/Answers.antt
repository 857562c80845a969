-- ===== src/Resolver/Answers.antt =====
-- src/Resolver.cpp: which endpoints reach which loop.
use mathlib.Core.Path.{subst}
use mathlib.Core.List.{append_assoc, append-nil}
use liby_cpp.Base.{
  ℕ, ◌≡◌, refl, sym, ap, ◌∙◌, List, [], ◌∷◌, ◌++◌, Option, none, some, Option-cases, inl, inr, ok,
  ok-inj,
}
use liby_cpp.BlockingQueue.{push_back, of_elements}
use liby_cpp.BlockingQueue.Monitor.{pop_front-list}
use liby_cpp.EventQueue.{new_event_queue}
use liby_cpp.Resolver.Delivery.{
  closures, closures-resolved, closures-other, Delivered, hand-Delivered, taken-Delivered,
  eventfd_read-Delivered, eventfd_closed-Delivered,
}
use liby_cpp.Resolver.{
  AddrInfo, Query, Post, World, new_thread, async_resolve, request, lower, last_request, hand_over,
  hand, resolved, other, resolve, serve,
}
use liby_cpp.Resolver.Thread.{
  Place, testing, waiting, serving, finished, Shared, starting, Work, goes_on, ends, takes, serves,
  Steps, begin, asks, lowers, sends, works, loop_runs, loop_reads, loop_closes, others_hand,
}

module _ (getaddrinfo : List ℕ → List ℕ → Option (List AddrInfo)) where
  -- What a request is answered with, if anything.
  abbrev pub answer : Query → List Post
  answer r = elim r.handler [
    | none ↦ []
    | some handler ↦ elim r.loop [
      | none ↦ []
      | some loop ↦
          record { loop = loop; handler = handler; eps = resolve getaddrinfo r.name r.port } ∷ []
    ]
  ]

  abbrev pub answers : List Query → List Post
  answers [] = []
  answers (r ∷ rs) = answer r ++ answers rs

  -- The request that the thread has taken, and those of the queue.
  abbrev pub unanswered : Place → List Query → List Query
  unanswered testing q = q
  unanswered waiting q = q
  unanswered (serving r) q = r ∷ q
  unanswered finished q = q

  answers-snoc : (rs : List Query) (r : Query) → answers (rs ++ r ∷ []) ≡ answers rs ++ answer r
  answers-snoc [] r = append-nil (answer r)
  answers-snoc (x ∷ rs) r =
      ap (◌++◌ (answer x)) (answers-snoc rs r)
      ∙ sym (append_assoc (answer x) (answers rs) (answer r))

  unanswered-snoc :
      (p : Place) (q : List Query) (r : Query)
      → unanswered p (q ++ r ∷ []) ≡ unanswered p q ++ r ∷ []
  unanswered-snoc testing q r = refl
  unanswered-snoc waiting q r = refl
  unanswered-snoc (serving x) q r = refl
  unanswered-snoc finished q r = refl

  -- Each request is answered or waits, and the loops have the answers.
  pub record Answered (rs : List Query) (s : Shared) : Type 0 where
    pub in_order :
        answers rs
        ≡ closures s.world.handed ++ answers (unanswered s.place s.thread.requests_.queue_)
    pub delivered : Delivered s.world

  serve-posts :
      (r : Query) (w w' : World)
      → serve getaddrinfo r w ≡ ok w'
      → Delivered w
      → (closures w'.handed ≡ closures w.handed ++ answer r) × Delivered w'
  unfolding serve hand_over hand
  serve-posts r w w' e all = elim (Option-cases r.handler) [
    | inl silent ↦
        let same : w ≡ w' = ok-inj (rw silent at e) in
        subst (λ (v : World). (closures v.handed ≡ closures w.handed ++ answer r) × Delivered v)
          same (rw (answer, silent) (sym (append-nil (closures w.handed))), all)
    | inr (h, set) ↦ elim (Option-cases r.loop) [
      | inl lost ↦ absurd (cc (rw (set, lost) at e))
      | inr (loop, found) ↦
          let p : Post = record {
            loop = loop;
            handler = h;
            eps = resolve getaddrinfo r.name r.port;
          } in
          let same : hand_over p w ≡ w' = ok-inj (rw (set, found) at e) in
          subst (λ (v : World). (closures v.handed ≡ closures w.handed ++ answer r) × Delivered v)
            same
            (
              rw (answer, set, found) (closures-resolved w.handed p),
              hand-Delivered (resolved p) w all,
            )
    ]
  ]

  -- The answers stay in order when a request is put behind the others.
  asked-in_order :
      (rs : List Query) (ps : List Post) (p : Place) (q : List Query) (r : Query)
      → answers rs ≡ ps ++ answers (unanswered p q)
      → answers (rs ++ r ∷ []) ≡ ps ++ answers (unanswered p (q ++ r ∷ []))
  asked-in_order rs ps p q r e =
      answers-snoc rs r
      ∙ ap (λ (front : List Post). front ++ answer r) e
      ∙ append_assoc ps (answers (unanswered p q)) (answer r)
      ∙ sym (ap (◌++◌ ps) (ap answers (unanswered-snoc p q r) ∙ answers-snoc (unanswered p q) r))

  last-unanswered :
      (p : Place) (q : List Query)
      → answers (unanswered p (q ++ last_request ∷ [])) ≡ answers (unanswered p q)
  last-unanswered p q =
      ap answers (unanswered-snoc p q last_request)
      ∙ answers-snoc (unanswered p q) last_request
      ∙ append-nil (answers (unanswered p q))

  Work-Answered :
      (rs : List Query) (s s' : Shared) → Work getaddrinfo s s' → Answered rs s → Answered rs s'
  Work-Answered rs s s' (goes_on at up) k = record {
    in_order = rw at at k.in_order;
    delivered = k.delivered;
  }
  Work-Answered rs s s' (ends at up) k = record {
    in_order = rw at at k.in_order;
    delivered = k.delivered;
  }
  Work-Answered rs s s' (takes r rest at e) k = record {
    in_order =
        rw at at k.in_order
        ∙ ap (λ (q : List Query). closures s.world.handed ++ answers q)
            (pop_front-list s.thread.requests_.queue_ rest r e);
    delivered = k.delivered;
  }
  Work-Answered rs s s' (serves r w at e) k =
      let (same, all) = serve-posts r s.world w e k.delivered in
      record {
        in_order =
            rw at at k.in_order
            ∙ sym (
                append_assoc (closures s.world.handed) (answer r)
                  (answers s.thread.requests_.queue_))
            ∙ ap (λ (ps : List Post). ps ++ answers s.thread.requests_.queue_) (sym same);
        delivered = all;
      }

  -- However the requests made in the threads of loops, the resolver thread, `stop`, the loops that
  -- read their eventfds and take handlers out of their queues, and the threads that hand handlers of
  -- their own to loops follow each other: the closures that the resolver thread has handed to loops
  -- and the answers of the requests it has not answered yet are together the answers of all requests
  -- made, in the order in which these were made, so that each request with a handler gets the
  -- endpoints of its own name, once, and none is dropped or overtaken; and what each loop has taken
  -- out of its queue and what the queue still holds are together all that was handed to that loop, the
  -- closures for its requests among it, in the order in which it was handed over.
  pub Steps-Answered : (rs : List Query) (s : Shared) → Steps getaddrinfo rs s → Answered rs s
  unfolding starting new_thread of_elements async_resolve request lower push_back new_event_queue
      hand
  Steps-Answered rs s begin = record { in_order = refl; delivered = λ loop. refl }
  Steps-Answered rs' s' (asks {rs} {s} loop host service handler steps) =
      let k = Steps-Answered rs s steps in
      record {
        in_order =
            asked-in_order rs (closures s.world.handed) s.place s.thread.requests_.queue_ _
              k.in_order;
        delivered = k.delivered;
      }
  Steps-Answered rs s' (lowers {s = s} steps e) =
      let k = Steps-Answered rs s steps in record { in_order = k.in_order; delivered = k.delivered }
  Steps-Answered rs s' (sends {s = s} steps e) =
      let k = Steps-Answered rs s steps in
      record {
        in_order =
            k.in_order
            ∙ sym (
                ap (◌++◌ (closures s.world.handed))
                  (last-unanswered s.place s.thread.requests_.queue_));
        delivered = k.delivered;
      }
  Steps-Answered rs s' (works {s = s} steps work) =
      Work-Answered rs s s' work (Steps-Answered rs s steps)
  Steps-Answered rs s' (loop_runs {s = s} loop h rest steps e) =
      let k = Steps-Answered rs s steps in
      record {
        in_order = k.in_order;
        delivered = taken-Delivered loop h rest s.world e k.delivered;
      }
  Steps-Answered rs s' (loop_reads {s = s} loop steps) =
      let k = Steps-Answered rs s steps in
      record { in_order = k.in_order; delivered = eventfd_read-Delivered loop s.world k.delivered }
  Steps-Answered rs s' (loop_closes {s = s} loop steps) =
      let k = Steps-Answered rs s steps in
      record {
        in_order = k.in_order;
        delivered = eventfd_closed-Delivered loop s.world k.delivered;
      }
  Steps-Answered rs s' (others_hand {s = s} loop steps) =
      let k = Steps-Answered rs s steps in
      record {
        in_order =
            k.in_order
            ∙ ap (λ (ps : List Post). ps ++ answers (unanswered s.place s.thread.requests_.queue_))
                (sym (closures-other s.world.handed loop));
        delivered = hand-Delivered (other loop) s.world k.delivered;
      }
