-- ===== src/BinaryHeap.antt =====
-- src/BinaryHeap.h: the binary heap that TimerQueue keeps its timers in. The vector is 1-based:
-- `heap[0]` is never used. `size_` is a `uint32_t`; a heap of 2^32 entries is left out.
pub mod Order
pub mod Up
pub mod Down
pub mod Operations
pub mod Erase
mod Tests
use liby_cpp.Base.{
  ℕ, zero, suc, ◌+◌, ◌-◌, ◌*◌, ◌/◌, Bool, true, false, not, ◌&&◌, List, [], ◌∷◌, ◌++◌, Option, none,
  some, ltb, leb, ◌==◌, if◌then◌else◌, length, get_elem?, set, replicate, Run, ok, fault,
  out_of_bounds, thrown, out_of_fuel, ◌>>=◌, or_fault,
}

-- What the template asks of `T`: `operator<` and the default constructor.
pub record Element {ℓ} (A : Type ℓ) : Type ℓ where
  pub less : A → A → Bool
  pub initial : A

pub record BinaryHeap {ℓ} (A : Type ℓ) : Type ℓ where
  pub heap : List A
  pub size_ : ℕ

module _ {ℓ} {A : Type ℓ} where
  -- `heap[i]` where it is read, and where it is written.
  pub read : List A → ℕ → Run A
  read heap i = or_fault (get_elem? heap i) out_of_bounds

  pub write : List A → ℕ → A → Run (List A)
  write heap i x = if ltb i (length heap) then ok (set heap i x) else fault out_of_bounds

  pub empty : BinaryHeap A → Bool
  empty h = h.size_ == 0

  pub size : BinaryHeap A → ℕ
  size h = h.size_

  pub find_min : BinaryHeap A → Run A
  find_min h = read h.heap 1

  pub clear : BinaryHeap A → BinaryHeap A
  clear h = record { heap = []; size_ = 0 }

module _ {ℓ} {A : Type ℓ} ⦃e : Element A⦄ where
  -- `BinaryHeap(capacity)`
  pub of_capacity : ℕ → BinaryHeap A
  of_capacity n = record { heap = replicate n e.initial; size_ = 0 }

  -- The `for` of `insert`, and the write behind it. Its rounds halve `hole`.
  pub percolate_up : ℕ → List A → ℕ → A → Run (List A)
  percolate_up zero heap hole x = fault out_of_fuel
  percolate_up (suc f) heap hole x =
      let rise : Run (List A) = do
        above ← read heap (hole / 2)
        heap' ← write heap hole above
        percolate_up f heap' (hole / 2) x
      in let test : Run (List A) = do
        above ← read heap (hole / 2)
        if e.less x above then rise else write heap hole x
        in if ltb 1 hole then test else write heap hole x

  -- The vector of `insert` after the test for a full one. For an empty vector `heap.size() - 1`
  -- wraps around and equals no `size_`.
  pub make_room : BinaryHeap A → List A
  make_room h =
      if h.size_ + 1 == length h.heap then h.heap ++ replicate (length h.heap) e.initial else h.heap

  pub insert : BinaryHeap A → A → Run (BinaryHeap A)
  insert h x = do
    heap ← percolate_up (h.size_ + 1) (make_room h) (h.size_ + 1) x
    ok (record { heap = heap; size_ = h.size_ + 1 })

  -- The choice of the child in `percolate_down`.
  pub smaller_child : List A → ℕ → ℕ → Run ℕ
  smaller_child heap n hole =
      let child = hole * 2 in
      if child == n then ok child else do
        right ← read heap (child + 1)
        left ← read heap child
        ok (if e.less right left then child + 1 else child)

  -- The `for` of `percolate_down`, and the write behind it. Its rounds at least double `hole`.
  pub sink : ℕ → List A → ℕ → ℕ → A → Run (List A)
  sink zero heap n hole tmp = fault out_of_fuel
  sink (suc f) heap n hole tmp =
      let round : Run (List A) = do
        child ← smaller_child heap n hole
        x ← read heap child
        let descend = write heap hole x >>= λ heap'. sink f heap' n child tmp
        if e.less x tmp then descend else write heap hole tmp
      in if leb (hole * 2) n then round else write heap hole tmp

  pub percolate_down : List A → ℕ → ℕ → Run (List A)
  percolate_down heap n hole = do tmp ← read heap hole; sink (n + 1) heap n hole tmp

  -- `build()`: the loop from `i` down to 1.
  pub build : ℕ → List A → ℕ → Run (List A)
  build zero heap n = ok heap
  build (suc i) heap n = percolate_down heap n (suc i) >>= λ heap'. build i heap' n

  -- `BinaryHeap(items)`
  pub of_items : List A → Run (BinaryHeap A)
  of_items items = do
    let n = length items
    heap ← build (n / 2) (e.initial ∷ (items ++ replicate 9 e.initial)) n
    ok (record { heap = heap; size_ = n })

  insert_all : BinaryHeap A → List A → Run (BinaryHeap A)
  insert_all h [] = ok h
  insert_all h (x ∷ xs) = insert h x >>= λ h'. insert_all h' xs

  -- `BinaryHeap({...})`
  pub of_list : List A → Run (BinaryHeap A)
  of_list items = insert_all (of_capacity (length items + 10)) items

  -- `delete_min()`
  pub delete_min : BinaryHeap A → Run (BinaryHeap A)
  delete_min h = if empty h then fault thrown else do
    last ← read h.heap h.size_
    heap ← write h.heap 1 last
    heap' ← percolate_down heap (h.size_ - 1) 1
    heap'' ← write heap' h.size_ e.initial
    ok (record { heap = heap''; size_ = h.size_ - 1 })

  -- `delete_min(x)`: what is put into `x`, and the heap.
  pub take_min : BinaryHeap A → Run (A × BinaryHeap A)
  take_min h = if empty h then fault thrown else do
    x ← read h.heap 1
    heap ← write h.heap 1 e.initial
    last ← read heap h.size_
    heap' ← write heap 1 last
    heap'' ← percolate_down heap' (h.size_ - 1) 1
    ok (x, record { heap = heap''; size_ = h.size_ - 1 })

  -- The search of `erase_if` from index `i`, with `k` entries left.
  pub search_from : (A → Bool) → List A → ℕ → ℕ → Run (Option ℕ)
  search_from p heap i zero = ok none
  search_from p heap i (suc k) =
      let rest = search_from p heap (i + 1) k in
      do x ← read heap i; if p x then ok (some i) else rest

  -- `erase_if` behind its search.
  pub erase_at : BinaryHeap A → Option ℕ → Run (BinaryHeap A)
  erase_at h none = ok h
  erase_at h (some i) = do
    last ← read h.heap h.size_
    heap ← write h.heap i last
    heap' ← percolate_down heap (h.size_ - 1) i
    heap'' ← write heap' h.size_ e.initial
    ok (record { heap = heap''; size_ = h.size_ - 1 })

  pub erase_if : (A → Bool) → BinaryHeap A → Run (BinaryHeap A)
  erase_if p h = if empty h then ok h else do i ← search_from p h.heap 1 h.size_; erase_at h i
