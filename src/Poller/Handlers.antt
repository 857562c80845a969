-- ===== src/Poller/Handlers.antt =====
-- src/Poller.cpp: the handlers of `nextTick` that run when an event has been handled.
use mathlib.Core.List.{append_assoc, append-nil}
use liby_cpp.Base.{
  true, Bool-cases, Returns-inv, length-append, ℕ, zero, suc, ◌+◌, ◌≤◌, ◌<◌, ◌≡◌, refl, sym, ap,
  ◌∙◌, List, [], ◌∷◌, ◌++◌, some, arith, length, drop, get_elem?, drop-all, get_elem?-append,
  drop-get_elem?, get_elem?-lt, get_elem?-ge, Option-cases, inl, inr, Run, ok, ◌>>=◌, Returns,
  returns, Returns-bind, Returns-map,
}
use liby_cpp.Poller.{is_empty, Poller, Call, run_from, run_next_tick_handlers}

pub is_empty-nil {ℓ} : {A : Type ℓ} (xs : List A) → is_empty xs ≡ true → xs ≡ []
is_empty-nil [] h = refl
is_empty-nil (x ∷ xs) h = cc

module _ {ℓ} {P : Type ℓ} (call : Call P) where
  -- Handlers called one after the other.
  pub call_all : List ℕ → Poller P → Run (Poller P)
  call_all [] w = ok w
  call_all (h ∷ hs) w = call h w >>= call_all hs

  -- What a handler may do to a list: append to it, up to `n` handlers in all.
  pub record Appends (list : Poller P → List ℕ) (n : ℕ) (w w' : Poller P) : Type ℓ where
    pub added : List ℕ
    pub longer : list w' ≡ list w ++ added
    pub few : length (list w') ≤ n

  record Walked (list : Poller P → List ℕ) (i : ℕ) (w w' : Poller P) : Type ℓ where
    pub added : List ℕ
    pub longer : list w' ≡ list w ++ added
    pub called : call_all (drop i (list w')) w ≡ ok w'

  Walked-step :
      (list : Poller P → List ℕ) (i h : ℕ) (w w1 w' : Poller P)
      → get_elem? (list w) i ≡ some h
      → call h w ≡ ok w1
      → (added : List ℕ) → list w1 ≡ list w ++ added
      → Walked list (suc i) w1 w'
      → Walked list i w w'
  unfolding call_all
  Walked-step list i h w w1 w' e called added longer r =
      let all : list w' ≡ list w ++ (added ++ r.added) =
        r.longer ∙ ap (λ (l : List ℕ). l ++ r.added) longer ∙ append_assoc (list w) added r.added in
      let here : get_elem? (list w') i ≡ some h =
        rw all (get_elem?-append (list w) (added ++ r.added) i h e) in
      record {
        added = added ++ r.added;
        longer = all;
        called = rw (drop-get_elem? (list w') i h here, called) r.called;
      }

  run_from-Walked :
      (list : Poller P → List ℕ) (n : ℕ)
      → ((h : ℕ) (w : Poller P) → length (list w) ≤ n → Returns (Appends list n w) (call h w))
      → (fuel i : ℕ) (w : Poller P) → length (list w) ≤ n
      → n < fuel + i
      → i ≤ length (list w)
      → Returns (Walked list i w) (run_from call fuel list i w)
  unfolding run_from call_all
  run_from-Walked list n grows zero i w few fuel inside = absurd (omega arith)
  run_from-Walked list n grows (suc fuel) i w few enough inside =
      elim (Option-cases (get_elem? (list w) i)) [
        | inl e ↦
            rw (e, run_from)
              (returns (record {
                added = [];
                longer = sym (append-nil (list w));
                called = rw (drop-all i (list w) (get_elem?-ge (list w) i e)) refl;
              }))
        | inr (h, e) ↦
            let (w1, called, a) = Returns-inv (grows h w few) in
            let inside' : suc i ≤ length (list w1) = omega (
              arith,
              get_elem?-lt (list w) i h e,
              ap length a.longer,
              length-append (list w) a.added,
            ) in
            rw (e, run_from, called)
              (Returns-map
                (run_from-Walked list n grows fuel (suc i) w1 a.few (omega arith) inside')
                λ w' r. Walked-step list i h w w1 w' e called a.added a.longer r)
      ]

  -- What `runNextTickHandlers` has done: the handlers that were in the list at the end, which are
  -- those at the start and those pushed meanwhile, were called once each and in order, and then
  -- the list was cleared.
  pub record RanAll (w w' : Poller P) : Type ℓ where
    pub last : Poller P
    pub added : List ℕ
    pub longer : last.next_tick_handlers ≡ w.next_tick_handlers ++ added
    pub called : call_all last.next_tick_handlers w ≡ ok last
    pub cleared : w' ≡ record last { next_tick_handlers = [] }

  -- When no handler makes the list longer than `n` or takes something off it, `runNextTickHandlers`
  -- ends, and every handler has run: those in the list and those pushed meanwhile, once each and in
  -- the order in which they were pushed, before the list is cleared.
  pub run_next_tick_handlers-RanAll :
      (n fuel : ℕ) (w : Poller P)
      → ((h : ℕ) (v : Poller P)
          → length v.next_tick_handlers ≤ n
          → Returns (Appends Poller.next_tick_handlers n v) (call h v))
      → length w.next_tick_handlers ≤ n
      → n < fuel
      → Returns (RanAll w) (run_next_tick_handlers call fuel w)
  unfolding run_next_tick_handlers call_all
  run_next_tick_handlers-RanAll n fuel w grows few enough =
      elim (Bool-cases (is_empty w.next_tick_handlers)) [
        | inl e ↦
            let empty = is_empty-nil w.next_tick_handlers e in
            rw e (
              returns (record {
                last = w;
                added = [];
                longer = sym (append-nil w.next_tick_handlers);
                called = ap (λ (l : List ℕ). call_all l w) empty;
                cleared = ap (λ (l : List ℕ). record w { next_tick_handlers = l }) empty;
              }))
        | inr e ↦ rw e (
            Returns-bind
              (run_from-Walked Poller.next_tick_handlers n grows fuel 0 w few (omega arith)
                (omega arith))
              λ last r. returns (record {
                last = last;
                added = r.added;
                longer = r.longer;
                called = r.called;
                cleared = refl;
              }))
      ]
