-- ===== src/BinaryHeap/Tests.antt =====
-- src/BinaryHeap.h: the theorems at a heap of numbers, and runs of the operations.
use liby_cpp.Base.{
  ℕ, zero, suc, ◌/◌, ◌≤◌, ◌<◌, ◌≡◌, refl, Bool, [], ◌∷◌, Perm, arith, ltb, ◌==◌, ok, Returns,
}
use liby_cpp.BinaryHeap.{
  Element, BinaryHeap, insert, delete_min, of_items, erase_if, percolate_down, sink, smaller_child,
  read, write, build,
}
use liby_cpp.BinaryHeap.Order.{IsStrictWeak, Below, entry}
use liby_cpp.BinaryHeap.Operations.{IsValid, contents, insert_correct, delete_min_correct}
use liby_cpp.BinaryHeap.Erase.{Erased, IsFirst, erase_if_correct}

instance abbrev number : Element ℕ
number = record { less = ltb; initial = 0 }

number-IsStrictWeak : IsStrictWeak ltb
number-IsStrictWeak = record { asym = λ a b h. ground arith; neg_trans = λ a b c p q. ground arith }

abbrev three : BinaryHeap ℕ
three = record { heap = 0 ∷ 1 ∷ 5 ∷ 2 ∷ 0 ∷ []; size_ = 3 }

three-ordered : (c : ℕ) → 1 < c → c ≤ 3 → Below (entry three.heap (c / 2)) (entry three.heap c)
three-ordered zero p q = absurd (omega arith)
three-ordered (suc zero) p q = absurd (omega arith)
three-ordered (suc (suc zero)) p q = refl
three-ordered (suc (suc (suc zero))) p q = refl
three-ordered (suc (suc (suc (suc n)))) p q = absurd (omega arith)

three-IsValid : IsValid three
three-IsValid = record { ordered = λ c p q r. three-ordered c p q; fits = omega arith }

of_items_run :
    of_items {A = ℕ} (5 ∷ 1 ∷ 2 ∷ [])
    ≡ ok (record { heap = 0 ∷ 1 ∷ 5 ∷ 2 ∷ 0 ∷ 0 ∷ 0 ∷ 0 ∷ 0 ∷ 0 ∷ 0 ∷ 0 ∷ 0 ∷ []; size_ = 3 })
unfolding of_items build percolate_down sink smaller_child read write
of_items_run = refl

insert_correct_example :
    Returns (λ h'. IsValid h' × Perm (contents h') (4 ∷ 1 ∷ 5 ∷ 2 ∷ [])) (insert three 4)
insert_correct_example = insert_correct number-IsStrictWeak three 4 three-IsValid

delete_min_correct_example :
    Returns
      (λ h'.
        IsValid h'
        × Perm (1 ∷ contents h') (1 ∷ 5 ∷ 2 ∷ [])
        × ((c : ℕ) → 0 < c → c ≤ 3 → Below 1 (entry three.heap c)))
      (delete_min three)
delete_min_correct_example =
    delete_min_correct number-IsStrictWeak three three-IsValid (omega arith)

abbrev is_five : ℕ → Bool
is_five x = x == 5

three-fine :
    (i : ℕ)
    → IsFirst is_five three.heap 1 3 i
    → 1 < i
    → Below (entry three.heap (i / 2)) (entry three.heap 3)
three-fine zero v p = absurd (omega arith)
three-fine (suc zero) v p = absurd (omega arith)
three-fine (suc (suc zero)) v p = refl
three-fine (suc (suc (suc zero))) v p = refl
three-fine (suc (suc (suc (suc i)))) v p = absurd (omega (arith, v.before))

erase_if_correct_example : Returns (Erased is_five three) (erase_if is_five three)
erase_if_correct_example =
    erase_if_correct number-IsStrictWeak is_five three three-IsValid three-fine
