-- ===== src/BinaryHeap/Erase.antt =====
-- src/BinaryHeap.h: `erase_if`, and calls on a heap whose vector `clear` has emptied.
use mathlib.Core.List.Perm
use liby_cpp.Base.{
  ℕ, zero, suc, ◌+◌, ◌-◌, ◌*◌, ◌/◌, ◌≤◌, ◌<◌, ◌≡◌, ◌⊎◌, inl, inr, refl, true, false, Bool, List,
  ◌∷◌, Perm, Option, some, none, arith, ◌==◌, length, set, Bool-cases, ne→==, ok, fault, length-set,
  out_of_bounds, Returns, returns, Returns-map, Returns-bind,
}
use liby_cpp.BinaryHeap.{
  Element, BinaryHeap, write, empty, clear, insert, make_room, percolate_up, search_from, erase_at,
  erase_if,
}
use liby_cpp.BinaryHeap.Order.{IsStrictWeak, Below, entry, IsHeap, read-ok, write-ok, entry-set}
use liby_cpp.BinaryHeap.Down.{percolate_down_restores, percolate_down-leaf}
use liby_cpp.BinaryHeap.Operations.{IsValid, contents, erase-perm, cleared}

module _ {ℓ} {A : Type ℓ} ⦃e : Element A⦄ where
  -- `insert` after `clear` writes behind the end of the vector, whatever the heap and the entry: the
  -- test for a full vector does not see that it has no places at all.
  pub insert-clear : (h : BinaryHeap A) (x : A) → insert (clear h) x ≡ fault out_of_bounds
  unfolding insert clear make_room percolate_up write
  insert-clear h x = refl

  -- Entry `i` is the first of the `k` entries from `from` on that `p` holds of.
  pub record IsFirst (p : A → Bool) (heap : List A) (from k i : ℕ) : Type 0 where
    pub after : from ≤ i
    pub before : i < from + k
    pub holds : p (entry heap i) ≡ true
    pub first : (j : ℕ) → from ≤ j → j < i → p (entry heap j) ≡ false

  -- `p` holds of none of them.
  abbrev pub NoneFits : (A → Bool) → List A → ℕ → ℕ → Type 0
  NoneFits p heap from k = (j : ℕ) → from ≤ j → j < from + k → p (entry heap j) ≡ false

  abbrev pub Found : (A → Bool) → List A → ℕ → ℕ → Option ℕ → Type 0
  Found p heap from k none = NoneFits p heap from k
  Found p heap from k (some i) = IsFirst p heap from k i

  -- The search of `erase_if` finds the first entry that the predicate holds of.
  search_from_finds :
      (p : A → Bool) (heap : List A) (from k : ℕ)
      → from + k ≤ length heap
      → Returns (Found p heap from k) (search_from p heap from k)
  unfolding search_from
  search_from_finds p heap from zero h = returns (λ j q r. absurd (omega arith))
  search_from_finds p heap from (suc k) h =
      rw (read-ok heap from (omega arith)) (elim (Bool-cases (p (entry heap from))) [
        | inl hit ↦ rw hit (
            returns (record {
              after = omega arith;
              before = omega arith;
              holds = hit;
              first = λ j q r. absurd (omega arith);
            }))
        | inr miss ↦
            rw miss
              (Returns-map (search_from_finds p heap (from + 1) k (omega arith)) (further miss))
      ])
    where
      further :
          p (entry heap from) ≡ false
          → (o : Option ℕ) → Found p heap (from + 1) k o
          → Found p heap from (suc k) o
      further miss none found = λ j q r. elim (Bool-cases (j == from)) [
        | inl here ↦ let same : j ≡ from = ground arith in rw same miss
        | inr there ↦ found j (ground arith) (omega arith)
      ]
      further miss (some i) found = record {
        after = omega (arith, found.after);
        before = omega (arith, found.before);
        holds = found.holds;
        first = λ j q r. elim (Bool-cases (j == from)) [
          | inl here ↦ let same : j ≡ from = ground arith in rw same miss
          | inr there ↦ found.first j (ground arith) r
        ];
      }

  -- What `erase_if` leaves: a valid heap less the first entry that `p` holds of, or the heap as it
  -- was, if `p` holds of none.
  abbrev pub Erased : (A → Bool) → BinaryHeap A → BinaryHeap A → Type ℓ
  Erased p h h' =
      IsValid h'
      × (((i : ℕ) × IsFirst p h.heap 1 h.size_ i × Perm (entry h.heap i ∷ contents h') (contents h))
          ⊎ (NoneFits p h.heap 1 h.size_ × (h' ≡ h)))

  search_from-first :
      (p : A → Bool) (heap : List A) (from k i : ℕ)
      → from + k ≤ length heap
      → IsFirst p heap from k i
      → search_from p heap from k ≡ ok (some i)
  unfolding search_from
  search_from-first p heap from zero i h v = absurd (omega (arith, v.after, v.before))
  search_from-first p heap from (suc k) i h v =
      rw (read-ok heap from (omega arith)) (elim (Bool-cases (i == from)) [
        | inl here ↦
            let same : i ≡ from = ground arith in
            let hit : p (entry heap from) ≡ true = rw same at v.holds in rw (hit, same)
        | inr there ↦
            let later : from < i = ground (arith, v.after) in
            rw (v.first from (omega arith) later) (
              search_from-first p heap (from + 1) k i (omega arith) (record {
                after = omega arith;
                before = omega (arith, v.before);
                holds = v.holds;
                first = λ j q r. v.first j (omega arith) r;
              }))
      ])

module _ {ℓ} {A : Type ℓ} ⦃e : Element A⦄ (law : IsStrictWeak e.less) where
  erase_at_correct :
      (h : BinaryHeap A) (i : ℕ)
      → IsValid h
      → 0 < i
      → i ≤ h.size_
      → (1 < i → Below (entry h.heap (i / 2)) (entry h.heap h.size_))
      → Returns
          (λ h'. IsValid h' × Perm (entry h.heap i ∷ contents h') (contents h))
          (erase_at h (some i))
  unfolding erase_at
  erase_at_correct h i v pos inside fine =
      let heap = h.heap in
      let last = entry heap h.size_ in
      let fits = v.fits in
      let at = λ (c : ℕ). entry-set heap i last c (omega arith) in
      let long = length-set heap i last in
      rw (read-ok heap h.size_ (omega arith), write-ok heap i last (omega arith))
        (Returns-bind
          (percolate_down_restores law 0 (set heap i last) (h.size_ - 1) i pos (omega arith)
            (omega arith) (λ c p q r t. ground (arith, at c, at (c / 2), v.ordered c, fine))
            (λ c p q r t. ground (
              arith,
              at c,
              at (i / 2),
              v.ordered c,
              v.ordered i,
              law.neg_trans (entry heap (i / 2)) (entry heap i) (entry heap c),
            )))
          λ b s.
            Returns-bind (cleared law h b last (set heap i last) i refl s v (omega arith))
              λ b' (valid, same). returns (
                valid,
                Perm.trans (Perm.cons (entry heap i) same)
                    (erase-perm heap h.size_ i pos inside v.fits),
              ))

  -- `erase_if` of a valid heap does this, provided that the last entry is not below the parent of
  -- the entry found: it is moved there and then only ever sifted down.
  pub erase_if_correct :
      (p : A → Bool) (h : BinaryHeap A)
      → IsValid h
      → ((i : ℕ)
          → IsFirst p h.heap 1 h.size_ i
          → 1 < i
          → Below (entry h.heap (i / 2)) (entry h.heap h.size_))
      → Returns (Erased p h) (erase_if p h)
  unfolding erase_if empty
  erase_if_correct p h v fine = elim (Bool-cases (h.size_ == 0)) [
    | inl none_left ↦ rw none_left (returns (v, inr (λ j q r. absurd (ground arith), refl)))
    | inr some_left ↦
        rw some_left
          (Returns-bind (search_from_finds p h.heap 1 h.size_ (omega (arith, v.fits))) found)
  ]
    where
      found : (o : Option ℕ) → Found p h.heap 1 h.size_ o → Returns (Erased p h) (erase_at h o)
      found none absent = unfold erase_at in returns (v, inr (absent, refl))
      found (some i) first =
          Returns-map
            (erase_at_correct h i v (omega (arith, first.after)) (omega (arith, first.before))
              (fine i first))
            λ h' (valid, same). (valid, inl (i, first, same))

  -- Without that proviso the heap order is lost: whenever the entry found is a leaf of the shorter
  -- heap and the last entry is below its parent, the heap that `erase_if` leaves is out of order.
  pub erase_if_unordered :
      (p : A → Bool) (h : BinaryHeap A) (i : ℕ)
      → IsValid h
      → IsFirst p h.heap 1 h.size_ i
      → 1 < i
      → i < h.size_
      → h.size_ ≤ i * 2
      → e.less (entry h.heap h.size_) (entry h.heap (i / 2)) ≡ true
      → Returns (λ h'. ¬ IsHeap h'.heap h'.size_) (erase_if p h)
  unfolding erase_if empty erase_at
  erase_if_unordered p h i v first deep inside leaf below =
      let heap = h.heap in
      let last = entry heap h.size_ in
      let fits = v.fits in
      let moved = set heap i last in
      let long = length-set heap i last in
      let at = λ (c : ℕ). entry-set heap i last c (omega arith) in
      let at' = λ (c : ℕ). entry-set moved h.size_ e.initial c (omega arith) in
      rw
        (
          ne→== h.size_ 0 (omega arith),
          search_from-first p heap 1 h.size_ i (omega arith) first,
          read-ok heap h.size_ (omega arith),
          write-ok heap i last (omega arith),
          percolate_down-leaf moved (h.size_ - 1) i (omega arith) (omega arith),
          write-ok moved h.size_ e.initial (omega arith),
        )
        (returns λ ordered. ground (arith, ordered i, at i, at (i / 2), at' i, at' (i / 2)))
