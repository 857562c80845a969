-- ===== src/BlockingQueue/Monitor.antt =====
-- src/BlockingQueue.h: threads that push and threads that wait for an element, as a step relation.
use mathlib.Core.List.{append_assoc}
use liby_cpp.Base.{
  ℕ, zero, suc, ◌+◌, ◌≤◌, ◌≡◌, refl, sym, ap, ◌∙◌, List, [], ◌∷◌, ◌++◌, some, length, get_elem?,
  arith, ok-inj, list-cases, ◌⊎◌, inl, inr, length-append, ok,
}
use liby_cpp.BlockingQueue.{BlockingQueue, push_back, pop_front, front, pop}

-- The list without the entry at a place.
abbrev pub remove_at {ℓ} : {A : Type ℓ} → List A → ℕ → List A
remove_at [] i = []
remove_at (x ∷ xs) zero = xs
remove_at (x ∷ xs) (suc i) = x ∷ remove_at xs i

-- The threads that are blocked in `cond_.wait` and those that were woken and have not yet looked at
-- the queue again, with all elements that were ever put in and taken out, and the number of those
-- that `push_back` put in while a thread was blocked.
pub record Monitor {ℓ} (T : Type ℓ) : Type ℓ where
  pub queue : BlockingQueue T
  pub waiting : List ℕ
  pub awake : List ℕ
  pub put_in : List T
  pub taken_out : List T
  pub quiet : ℕ

length-remove_at {κ} :
    {A : Type κ} (xs : List A) (i : ℕ) (x : A)
    → get_elem? xs i ≡ some x
    → suc (length (remove_at xs i)) ≡ length xs
length-remove_at [] i x h = ground arith
length-remove_at (y ∷ xs) zero x h = refl
length-remove_at (y ∷ xs) (suc i) x h = ap suc (length-remove_at xs i x h)

-- `push_back` wakes nobody, which matters where somebody waits.
abbrev pub quiet_after : List ℕ → ℕ → ℕ
quiet_after [] n = n
quiet_after (thread ∷ others) n = suc n

module _ {ℓ} {T : Type ℓ} where
  abbrev pub pushed : T → Monitor T → Monitor T
  pushed e m = record m { queue = push_back m.queue e; put_in = m.put_in ++ e ∷ [] }

  abbrev pub popped : T → BlockingQueue T → Monitor T → Monitor T
  popped e q m = record m { queue = q; taken_out = m.taken_out ++ e ∷ [] }

  -- One call, or one return of `cond_.wait`. `notify_one` wakes any one of the threads that wait, and
  -- a thread may wake without a cause.
  pub data Step (m : Monitor T) : Monitor T → Type ℓ where
    push_notify :
        (e : T) (i thread : ℕ)
        → get_elem? m.waiting i ≡ some thread
        → Step m (record (pushed e m) { waiting = remove_at m.waiting i; awake = thread ∷ m.awake })
    push_notify_none : (e : T) → m.waiting ≡ [] → Step m (pushed e m)
    push_broadcast :
        (e : T) → Step m (record (pushed e m) { waiting = []; awake = m.waiting ++ m.awake })
    push_back_quiet :
        (e : T) → Step m (record (pushed e m) { quiet = quiet_after m.waiting m.quiet })
    pop_now :
        (e : T) (q : BlockingQueue T)
        → front m.queue ≡ ok e
        → pop m.queue ≡ ok q
        → Step m (popped e q m)
    pop_front_now :
        (e : T) (q : BlockingQueue T) → pop_front m.queue ≡ ok (e, q) → Step m (popped e q m)
    pop_wait_blocks :
        (thread : ℕ) → m.queue.queue_ ≡ [] → Step m (record m { waiting = thread ∷ m.waiting })
    woken_takes :
        (e : T) (q : BlockingQueue T) (i thread : ℕ)
        → get_elem? m.awake i ≡ some thread
        → pop_front m.queue ≡ ok (e, q)
        → Step m (record (popped e q m) { awake = remove_at m.awake i })
    woken_blocks :
        (i thread : ℕ)
        → get_elem? m.awake i ≡ some thread
        → m.queue.queue_ ≡ []
        → Step m (record m { waiting = thread ∷ m.waiting; awake = remove_at m.awake i })
    wakes_early :
        (i thread : ℕ)
        → get_elem? m.waiting i ≡ some thread
        → Step m (record m { waiting = remove_at m.waiting i; awake = thread ∷ m.awake })

  pub data Steps (m : Monitor T) : Monitor T → Type ℓ where
    none_taken : Steps m m
    step_after : {m' m'' : Monitor T} → Steps m m' → Step m' m'' → Steps m m''

  -- A queue of elements, and no thread yet.
  abbrev pub starting : List T → Monitor T
  starting elements = record {
    queue = record { queue_ = elements };
    waiting = [];
    awake = [];
    put_in = elements;
    taken_out = [];
    quiet = 0;
  }

  pub pop_front-list :
      (xs : List T) (rest : BlockingQueue T) (e : T)
      → pop_front (record { queue_ = xs }) ≡ ok (e, rest)
      → xs ≡ e ∷ rest.queue_
  unfolding pop_front front pop
  pop_front-list [] rest e h = absurd cc
  pop_front-list (x ∷ xs) rest e h =
      let same = ok-inj h in ap (λ (r : T × BlockingQueue T). r.0 ∷ (r.1).queue_) same

  pub pop_front-first :
      (xs : List T) (e : T) (rest : List T)
      → xs ≡ e ∷ rest
      → pop_front (record { queue_ = xs }) ≡ ok (e, record { queue_ = rest })
  unfolding pop_front front pop
  pop_front-first xs e rest h = rw h refl

  pop_front-parts :
      (b : BlockingQueue T) (e : T) (q : BlockingQueue T)
      → front b ≡ ok e
      → pop b ≡ ok q
      → pop_front b ≡ ok (e, q)
  unfolding pop_front
  pop_front-parts b e q first rest = rw (first, rest) refl

  -- In the order in which they were put in, the elements were taken out or are still in the queue;
  -- and while a thread waits, at least as many threads are awake as there are elements, those that
  -- `push_back` put in behind its back not counted.
  pub record Fair (m : Monitor T) : Type ℓ where
    pub in_order : m.taken_out ++ m.queue.queue_ ≡ m.put_in
    pub enough : (m.waiting ≡ []) ⊎ (length m.queue.queue_ ≤ length m.awake + m.quiet)

  module _ (m : Monitor T) (f : Fair m) where
    pushed-in_order : (e : T) → m.taken_out ++ (push_back m.queue e).queue_ ≡ m.put_in ++ e ∷ []
    unfolding push_back
    pushed-in_order e =
        sym (append_assoc m.taken_out m.queue.queue_ (e ∷ []))
        ∙ ap (λ (l : List T). l ++ e ∷ []) f.in_order

    length-push_back : (e : T) → length (push_back m.queue e).queue_ ≡ suc (length m.queue.queue_)
    unfolding push_back
    length-push_back e = omega (arith, length-append m.queue.queue_ (e ∷ []))

    popped-in_order :
        (e : T) (q : BlockingQueue T)
        → pop_front m.queue ≡ ok (e, q)
        → (m.taken_out ++ e ∷ []) ++ q.queue_ ≡ m.put_in
    popped-in_order e q h =
        append_assoc m.taken_out (e ∷ []) q.queue_
        ∙ ap (◌++◌ m.taken_out) (sym (pop_front-list m.queue.queue_ q e h))
        ∙ f.in_order

    length-popped :
        (e : T) (q : BlockingQueue T)
        → pop_front m.queue ≡ ok (e, q)
        → suc (length q.queue_) ≡ length m.queue.queue_
    length-popped e q h = sym (ap length (pop_front-list m.queue.queue_ q e h))

    -- Where a thread waits, the second half holds.
    when_waiting :
        (i thread : ℕ)
        → get_elem? m.waiting i ≡ some thread
        → length m.queue.queue_ ≤ length m.awake + m.quiet
    when_waiting i thread h = elim f.enough [
      | inl nobody ↦ omega (arith, ap length nobody, length-remove_at m.waiting i thread h)
      | inr enough ↦ enough
    ]

    pushed-enough :
        (e : T)
        → (m.waiting ≡ [])
          ⊎ (length (push_back m.queue e).queue_ ≤ length m.awake + quiet_after m.waiting m.quiet)
    pushed-enough e = elim f.enough [
      | inl nobody ↦ inl nobody
      | inr enough ↦ elim (list-cases m.waiting) [
        | inl nobody ↦ inl nobody
        | inr (thread, others, waits) ↦ inr (rw waits (omega (arith, length-push_back e, enough)))
      ]
    ]

    popped-Fair :
        (e : T) (q : BlockingQueue T) → pop_front m.queue ≡ ok (e, q) → Fair (popped e q m)
    popped-Fair e q h = record {
      in_order = popped-in_order e q h;
      enough = elim f.enough [
        | inl nobody ↦ inl nobody
        | inr enough ↦ inr (omega (arith, length-popped e q h))
      ];
    }

  Step-Fair : (m m' : Monitor T) → Step m m' → Fair m → Fair m'
  Step-Fair m m' (push_notify e i thread h) f = record {
    in_order = pushed-in_order m f e;
    enough = inr (omega (arith, length-push_back m f e, when_waiting m f i thread h));
  }
  Step-Fair m m' (push_notify_none e nobody) f = record {
    in_order = pushed-in_order m f e;
    enough = inl nobody;
  }
  Step-Fair m m' (push_broadcast e) f = record {
    in_order = pushed-in_order m f e;
    enough = inl refl;
  }
  Step-Fair m m' (push_back_quiet e) f = record {
    in_order = pushed-in_order m f e;
    enough = pushed-enough m f e;
  }
  Step-Fair m m' (pop_now e q first rest) f =
      popped-Fair m f e q (pop_front-parts m.queue e q first rest)
  Step-Fair m m' (pop_front_now e q h) f = popped-Fair m f e q h
  Step-Fair m m' (pop_wait_blocks thread nothing) f = record {
    in_order = f.in_order;
    enough = inr (omega (arith, ap length nothing));
  }
  Step-Fair m m' (woken_takes e q i thread here h) f = record {
    in_order = popped-in_order m f e q h;
    enough = elim f.enough [
      | inl nobody ↦ inl nobody
      | inr enough ↦
          inr (omega (arith, length-popped m f e q h, length-remove_at m.awake i thread here))
    ];
  }
  Step-Fair m m' (woken_blocks i thread here nothing) f = record {
    in_order = f.in_order;
    enough = inr (omega (arith, ap length nothing));
  }
  Step-Fair m m' (wakes_early i thread h) f = record {
    in_order = f.in_order;
    enough = inr (omega (arith, when_waiting m f i thread h));
  }

  -- However the pushes of all three kinds, the pops and the waits of any threads follow each other,
  -- the elements come out in the order in which they went in, none lost and none twice; and while a
  -- thread waits, the queue has at most as many elements as threads are awake and `push_back`, which
  -- notifies nobody, has put in while a thread was waiting.
  pub Steps-Fair : (elements : List T) (m : Monitor T) → Steps (starting elements) m → Fair m
  Steps-Fair elements m none_taken = record { in_order = refl; enough = inl refl }
  Steps-Fair elements m (step_after {m'} steps step) =
      Step-Fair m' m step (Steps-Fair elements m' steps)
