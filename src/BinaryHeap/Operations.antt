-- ===== src/BinaryHeap/Operations.antt =====
-- src/BinaryHeap.h: `insert`, `delete_min` and the constructor from a vector.
use mathlib.Core.List.Perm
use liby_cpp.Base.{
  ℕ, zero, suc, ◌+◌, ◌-◌, ◌/◌, ◌≤◌, ◌<◌, ◌≡◌, inl, inr, refl, sym, ap, ◌∙◌, false, List, [], ◌∷◌,
  ◌++◌, Perm, arith, ltb, ◌==◌, length, set, get_or, length-set, length-append, length-replicate,
  get_or-append, slice-append, slice-suc, slice-set_ne, slice-nil, slice-all, get_or-slice,
  length-slice, replicate, set-perm, set-get_or, set-set, snoc-perm, Bool-cases, ne→==, ok, Returns,
  returns, Returns-bind,
}
use liby_cpp.BinaryHeap.{
  Element, BinaryHeap, write, empty, find_min, percolate_up, make_room, insert, percolate_down,
  of_capacity, of_items, delete_min, take_min,
}
use liby_cpp.BinaryHeap.Order.{
  IsStrictWeak, Below, entry, IsHeap, items, Sifted, read-ok, write-ok, entry-set, items-set,
}
use liby_cpp.BinaryHeap.Up.{percolate_up_restores}
use liby_cpp.BinaryHeap.Down.{percolate_down_restores, build_orders}

module _ {ℓ} {A : Type ℓ} ⦃e : Element A⦄ where
  pub record IsValid (h : BinaryHeap A) : Type 0 where
    pub ordered : IsHeap h.heap h.size_
    pub fits : h.size_ < length h.heap

  pub of_capacity_lem : (n : ℕ) → of_capacity n ≡ record { heap = replicate n e.initial; size_ = 0 }
  unfolding of_capacity
  of_capacity_lem n = refl

  pub empty-size : (h : BinaryHeap A) → 0 < h.size_ → empty h ≡ false
  unfolding empty
  empty-size h p = ground arith

  -- The entries of a heap.
  abbrev pub contents : BinaryHeap A → List A
  contents h = items h.heap h.size_

  pub find_min-root : (h : BinaryHeap A) → 1 < length h.heap → find_min h ≡ ok (entry h.heap 1)
  unfolding find_min
  find_min-root h p = read-ok h.heap 1 p

  -- What is left of a heap of `m` entries when the one at `i` is replaced by the last one.
  pub erase-perm :
      (heap : List A) (m i : ℕ)
      → 0 < i
      → i ≤ m
      → m < length heap
      → Perm (entry heap i ∷ items (set heap i (entry heap m)) (m - 1)) (items heap m)
  erase-perm heap m i pos inside size =
      let n = m - 1 in
      let last = entry heap m in
      let ys = items heap n in
      let long : length ys ≡ n = length-slice heap 1 n (omega arith) in
      let grown : items heap m ≡ ys ++ last ∷ [] = ground (arith, slice-suc heap 1 n e.initial) in
      rw grown (elim (Bool-cases (i == m)) [
        | inl at_end ↦
            let same : i ≡ m = ground arith in
            rw same (rw (set-get_or heap m e.initial) (Perm.symm (snoc-perm ys last)))
        | inr before ↦
            let back : 1 + (i - 1) ≡ i = omega arith in
            let old : get_or ys (i - 1) e.initial ≡ entry heap i =
              rw back at (get_or-slice heap 1 n (i - 1) e.initial (ground arith)) in
            rw (items-set heap n i last pos, ← old)
              (Perm.trans (set-perm ys (i - 1) last e.initial (ground arith))
                (Perm.symm (snoc-perm ys last)))
      ])

  -- The vector that `insert` works on: one more place, and the old entries.
  pub record HasRoom (h : BinaryHeap A) (room : List A) : Type ℓ where
    pub long : suc h.size_ < length room
    pub kept : (c : ℕ) → c ≤ h.size_ → entry room c ≡ entry h.heap c
    pub same : items room h.size_ ≡ contents h

  pub make_room-HasRoom : (h : BinaryHeap A) → h.size_ < length h.heap → HasRoom h (make_room h)
  unfolding make_room
  make_room-HasRoom h v =
      let more = replicate (length h.heap) e.initial in
      elim (Bool-cases (h.size_ + 1 == length h.heap)) [
        | inl full ↦ rw full (record {
          long =
              ground
                (arith, v, length-append h.heap more, length-replicate (length h.heap) e.initial);
          kept = λ c p. get_or-append h.heap more c e.initial (omega arith);
          same = slice-append h.heap more 1 h.size_ (omega arith);
        })
        | inr free ↦ rw free (record { long = ground (arith, v); kept = λ c p. refl; same = refl })
      ]

  -- Where the new entry is not less than its parent, `insert` puts it at the end.
  pub insert-at_end :
      (h : BinaryHeap A) (x : A)
      → h.size_ < length h.heap
      → (0 < h.size_ → e.less x (entry h.heap ((h.size_ + 1) / 2)) ≡ false)
      → insert h x ≡ ok (record { heap = set (make_room h) (suc h.size_) x; size_ = suc h.size_ })
  unfolding insert percolate_up
  insert-at_end h x v above =
      let n = h.size_ in
      let room = make_room h in
      let r = make_room-HasRoom h v in
      let one : n + 1 ≡ suc n = omega arith in
      let long = r.long in
      let half : suc n / 2 ≤ n = omega arith in
      elim (Bool-cases (ltb 1 (suc n))) [
        | inl deep ↦
            let stay : e.less x (entry room (suc n / 2)) ≡ false =
              rw (r.kept (suc n / 2) half) (rw one at (above (ground arith))) in
            rw (
              one,
              deep,
              read-ok room (suc n / 2) (omega arith),
              stay,
              write-ok room (suc n) x long,
            )
        | inr root ↦ rw (one, root, write-ok room (suc n) x long)
      ]

  -- `x` written behind the last entry.
  pub items-set_last :
      (heap : List A) (n : ℕ) (x : A)
      → suc n < length heap
      → items (set heap (suc n) x) (suc n) ≡ items heap n ++ x ∷ []
  items-set_last heap n x size =
      let there : entry (set heap (suc n) x) (1 + n) ≡ x =
        ground (arith, entry-set heap (suc n) x (1 + n)) in
      rw (
        slice-suc (set heap (suc n) x) 1 n e.initial (omega (arith, length-set heap (suc n) x)),
        slice-set_ne heap 1 n (suc n) x (omega arith),
        there,
      )

module _ {ℓ} {A : Type ℓ} ⦃e : Element A⦄ (law : IsStrictWeak e.less) where
  -- `insert(x)` into a valid heap ends normally with a valid heap of the old entries and `x`.
  pub insert_correct :
      (h : BinaryHeap A) (x : A)
      → IsValid h
      → Returns (λ h'. IsValid h' × Perm (contents h') (x ∷ contents h)) (insert h x)
  unfolding insert
  insert_correct h x v =
      let n = h.size_ in
      let room = make_room h in
      let r = make_room-HasRoom h v.fits in
      let one : n + 1 ≡ suc n = omega arith in
      rw one (
        Returns-bind
          (percolate_up_restores law (suc n) room (suc n) (suc n) x (omega arith) (omega arith)
            (omega arith) r.long
            (record {
              edges = λ c p q t. ground (arith, v.ordered c, r.kept c, r.kept (c / 2));
              bridged = λ c p q t. absurd (omega arith);
            }))
          λ b s. returns (
            record {
              ordered = s.ordered;
              fits = omega (arith, s.sized, length-set room (suc n) x, r.long);
            },
            Perm.trans s.same
                (rw (items-set_last room n x r.long, r.same) (snoc-perm (contents h) x)),
          ))

  root-Below :
      (k : ℕ) (heap : List A) (n c : ℕ)
      → c < k
      → IsHeap heap n
      → 0 < c
      → c ≤ n
      → Below (entry heap 1) (entry heap c)
  root-Below zero heap n c fuel v pos inside = absurd (omega arith)
  root-Below (suc k) heap n c fuel v pos inside = elim (Bool-cases (c == 1)) [
    | inl root ↦
        let same : c ≡ 1 = ground arith in
        rw same (ground (arith, law.asym (entry heap 1) (entry heap 1)))
    | inr below ↦
        law.neg_trans (entry heap 1) (entry heap (c / 2)) (entry heap c)
          (root-Below k heap n (c / 2) (ground arith) v (ground arith) (omega arith))
          (v c (ground arith) inside (omega arith))
  ]

  -- `percolate_down` from the root, once the last entry stands there.
  root_replaced :
      (h : BinaryHeap A)
      → IsValid h
      → 0 < h.size_
      → Returns
          (Sifted 0 (set h.heap 1 (entry h.heap h.size_)) (h.size_ - 1))
          (percolate_down (set h.heap 1 (entry h.heap h.size_)) (h.size_ - 1) 1)
  root_replaced h v pos =
      let heap = h.heap in
      let last = entry heap h.size_ in
      let long = length-set heap 1 last in
      let fits = v.fits in
      let at = λ (c : ℕ). entry-set heap 1 last c (omega arith) in
      percolate_down_restores law 0 (set heap 1 last) (h.size_ - 1) 1 (omega arith) (omega arith)
        (omega arith) (λ c p q r t. ground (arith, at c, at (c / 2), v.ordered c))
        (λ c p q r t. absurd (omega arith))

  -- `heap[size_ + 1] = T()` behind the entries.
  pub cleared :
      (h : BinaryHeap A) (b : List A) (x : A) (heap : List A) (i : ℕ)
      → heap ≡ set h.heap i x
      → Sifted 0 heap (h.size_ - 1) b
      → IsValid h
      → 0 < h.size_
      → Returns
          (λ b'.
            IsValid (record { heap = b'; size_ = h.size_ - 1 })
            × Perm (items b' (h.size_ - 1)) (items heap (h.size_ - 1)))
          (write b h.size_ e.initial)
  cleared h b x heap i made s v pos =
      let long : length b ≡ length h.heap = ground (arith, s.sized, length-set h.heap i x) in
      let fits = v.fits in
      let at = λ (c : ℕ). entry-set b h.size_ e.initial c (omega arith) in
      rw (write-ok b h.size_ e.initial (omega arith)) (
        returns (
          record {
            ordered = λ c p q r. ground (arith, at c, at (c / 2), s.ordered c);
            fits = omega (arith, length-set b h.size_ e.initial);
          },
          rw (slice-set_ne b 1 (h.size_ - 1) h.size_ e.initial (omega arith)) s.same,
        ))

  -- `delete_min()` of a valid heap that is not empty ends normally: the entry at the root goes, the
  -- heap is valid with the other entries, and no entry of the old heap is below that one.
  pub delete_min_correct :
      (h : BinaryHeap A)
      → IsValid h
      → 0 < h.size_
      → Returns
          (λ h'.
            IsValid h'
            × Perm (entry h.heap 1 ∷ contents h') (contents h)
            × ((c : ℕ) → 0 < c → c ≤ h.size_ → Below (entry h.heap 1) (entry h.heap c)))
          (delete_min h)
  unfolding delete_min empty
  delete_min_correct h v pos =
      let heap = h.heap in
      let last = entry heap h.size_ in
      let fits = v.fits in
      rw
        (
          ne→== h.size_ 0 (omega arith),
          read-ok heap h.size_ (omega arith),
          write-ok heap 1 last (omega arith),
        )
        (Returns-bind (root_replaced h v pos) λ b s.
          Returns-bind (cleared h b last (set heap 1 last) 1 refl s v pos) λ b' (valid, same).
            returns (
              valid,
              Perm.trans (Perm.cons (entry heap 1) same)
                  (erase-perm heap h.size_ 1 (omega arith) pos v.fits),
              λ c p q. root-Below (suc c) heap h.size_ c (omega arith) v.ordered p q,
            ))

  -- Where `delete_min(x)` has cleared the root, the last entry is still what it was, unless it is
  -- the root itself, and then no entry is left.
  blank_last :
      (h : BinaryHeap A)
      → IsValid h
      → 0 < h.size_
      → items (set h.heap 1 (entry (set h.heap 1 e.initial) h.size_)) (h.size_ - 1)
        ≡ items (set h.heap 1 (entry h.heap h.size_)) (h.size_ - 1)
  blank_last h v pos =
      let heap = h.heap in
      let w = entry (set heap 1 e.initial) h.size_ in
      let last = entry heap h.size_ in
      elim (Bool-cases (h.size_ == 1)) [
        | inl one ↦
            slice-nil (set heap 1 w) 1 (h.size_ - 1) (ground arith)
            ∙ sym (slice-nil (set heap 1 last) 1 (h.size_ - 1) (ground arith))
        | inr more ↦
            let same : w ≡ last =
              ground (arith, entry-set heap 1 e.initial h.size_ (omega (arith, v.fits))) in
            ap (λ (x : A). items (set heap 1 x) (h.size_ - 1)) same
      ]

  -- `delete_min(x)` puts the entry at the root into `x` and leaves a valid heap of the others.
  pub take_min_correct :
      (h : BinaryHeap A)
      → IsValid h
      → 0 < h.size_
      → Returns
          (λ r. (r.0 ≡ entry h.heap 1) × IsValid r.1 × Perm (r.0 ∷ contents r.1) (contents h))
          (take_min h)
  unfolding take_min empty
  take_min_correct h v pos =
      let heap = h.heap in
      let blank = set heap 1 e.initial in
      let w = entry blank h.size_ in
      let fits = v.fits in
      let long = length-set heap 1 e.initial in
      let long' = length-set heap 1 w in
      rw
        (
          ne→== h.size_ 0 (omega arith),
          read-ok heap 1 (omega arith),
          write-ok heap 1 e.initial (omega arith),
          read-ok blank h.size_ (omega arith),
          write-ok blank 1 w (omega arith),
          set-set heap 1 e.initial w,
        )
        (Returns-bind
          (percolate_down_restores law 0 (set heap 1 w) (h.size_ - 1) 1 (omega arith) (omega arith)
            (omega arith)
            (λ c p q r t. ground (
              arith,
              entry-set heap 1 w c (omega arith),
              entry-set heap 1 w (c / 2) (omega arith),
              v.ordered c,
            ))
            (λ c p q r t. absurd (omega arith)))
          λ b s. returns (
            refl,
            record { ordered = s.ordered; fits = omega (arith, s.sized) },
            Perm.trans (Perm.cons (entry heap 1) s.same)
                (rw (blank_last h v pos) (erase-perm heap h.size_ 1 (omega arith) pos v.fits)),
          ))

  -- The constructor from a vector ends normally with a valid heap of exactly its entries.
  pub of_items_correct :
      (xs : List A) → Returns (λ h. IsValid h × Perm (contents h) xs) (of_items xs)
  unfolding of_items
  of_items_correct xs =
      let n = length xs in
      let pad = replicate 9 e.initial in
      let heap = e.initial ∷ (xs ++ pad) in
      let long = length-append xs pad in
      let ninth : length pad ≡ 9 = length-replicate 9 e.initial in
      Returns-bind
        (build_orders law (n / 2) heap n (omega arith) (omega arith)
          (λ c p q r. absurd (omega arith)))
        λ b s. returns (
          record { ordered = s.ordered; fits = omega (arith, s.sized) },
          Perm.trans s.same
              (rw (slice-append xs pad 0 n (omega arith), slice-all xs n refl) Perm.rfl),
        )
