-- ===== src/Base/Lists.antt =====
-- Lists measured and indexed by native numbers, under the library's names.
use Prim.Native.Nat.{ℕ, zero, suc, ◌+◌, ◌-◌, ◌≤◌, ◌<◌}
use mathlib.Core.Path.{◌≡◌, refl, ap, ◌∙◌}
use mathlib.Core.List.{List, [], ◌∷◌, ◌++◌, map}
use mathlib.Core.Bool.{Bool}
use mathlib.Core.Logic.{◌⊎◌, inl, inr}
use mathlib.Core.Option.{Option, none, some}
use native.Mathlib.Omega.{arith}
use mathlib.Core.List.{Perm, perm_middle, append-nil}
use mathlib.Core.List.Perm
use package.liby_cpp.Base.Tests.{◌==◌, if◌then◌else◌}

module _ {ℓ} {A : Type ℓ} where
  abbrev pub length : List A → ℕ
  length [] = 0
  length (x ∷ xs) = suc (length xs)

  abbrev pub get_elem? : List A → ℕ → Option A
  get_elem? [] i = none
  get_elem? (x ∷ xs) zero = some x
  get_elem? (x ∷ xs) (suc i) = get_elem? xs i

  -- A write out of bounds changes nothing.
  abbrev pub set : List A → ℕ → A → List A
  set [] i v = []
  set (x ∷ xs) zero v = v ∷ xs
  set (x ∷ xs) (suc i) v = x ∷ set xs i v

  abbrev pub take : ℕ → List A → List A
  take zero xs = []
  take (suc n) [] = []
  take (suc n) (x ∷ xs) = x ∷ take n xs

  abbrev pub drop : ℕ → List A → List A
  drop zero xs = xs
  drop (suc n) [] = []
  drop (suc n) (x ∷ xs) = drop n xs

  abbrev pub replicate : ℕ → A → List A
  replicate zero a = []
  replicate (suc n) a = a ∷ replicate n a

  pub length-append : (xs ys : List A) → length (xs ++ ys) ≡ length xs + length ys
  length-append [] ys = omega arith
  length-append (x ∷ xs) ys = omega (arith, length-append xs ys)

  pub length-set : (xs : List A) (i : ℕ) (v : A) → length (set xs i v) ≡ length xs
  length-set [] i v = refl
  length-set (x ∷ xs) zero v = refl
  length-set (x ∷ xs) (suc i) v = ap suc (length-set xs i v)

  pub length-replicate : (n : ℕ) (a : A) → length (replicate n a) ≡ n
  length-replicate zero a = refl
  length-replicate (suc n) a = ap suc (length-replicate n a)

  pub length-take : (n : ℕ) (xs : List A) → n ≤ length xs → length (take n xs) ≡ n
  length-take zero xs h = refl
  length-take (suc n) [] h = absurd (omega arith)
  length-take (suc n) (x ∷ xs) h = omega (arith, length-take n xs)

  pub length-drop : (n : ℕ) (xs : List A) → length (drop n xs) ≡ length xs - n
  length-drop zero xs = omega arith
  length-drop (suc n) [] = omega arith
  length-drop (suc n) (x ∷ xs) = omega (arith, length-drop n xs)

module _ {ℓ} {A : Type ℓ} where
  pub drop-all : (n : ℕ) (xs : List A) → length xs ≤ n → drop n xs ≡ []
  drop-all zero [] h = refl
  drop-all zero (x ∷ xs) h = absurd (omega arith)
  drop-all (suc n) [] h = refl
  drop-all (suc n) (x ∷ xs) h = drop-all n xs (omega arith)

  pub take-all : (n : ℕ) (xs : List A) → length xs ≤ n → take n xs ≡ xs
  take-all zero [] h = refl
  take-all zero (x ∷ xs) h = absurd (omega arith)
  take-all (suc n) [] h = refl
  take-all (suc n) (x ∷ xs) h = ap (◌∷◌ x) (take-all n xs (omega arith))

module _ {ℓ} {A : Type ℓ} where
  -- `d` stands for what is behind the end.
  abbrev pub get_or : List A → ℕ → A → A
  get_or [] i d = d
  get_or (x ∷ xs) zero d = x
  get_or (x ∷ xs) (suc i) d = get_or xs i d

  pub get_or-set :
      (xs : List A) (i j : ℕ) (v d : A)
      → i < length xs
      → get_or (set xs i v) j d ≡ (if j == i then v else get_or xs j d)
  get_or-set [] i j v d h = absurd (omega arith)
  get_or-set (x ∷ xs) zero zero v d h = refl
  get_or-set (x ∷ xs) zero (suc j) v d h = ground arith
  get_or-set (x ∷ xs) (suc i) zero v d h = ground arith
  get_or-set (x ∷ xs) (suc i) (suc j) v d h = ground (arith, get_or-set xs i j v d)

  pub get_or-append :
      (xs ys : List A) (i : ℕ) (d : A) → i < length xs → get_or (xs ++ ys) i d ≡ get_or xs i d
  get_or-append [] ys i d h = absurd (omega arith)
  get_or-append (x ∷ xs) ys zero d h = refl
  get_or-append (x ∷ xs) ys (suc i) d h = get_or-append xs ys i d (omega arith)

  pub set-get_or : (xs : List A) (i : ℕ) (d : A) → set xs i (get_or xs i d) ≡ xs
  set-get_or [] i d = refl
  set-get_or (x ∷ xs) zero d = refl
  set-get_or (x ∷ xs) (suc i) d = ap (◌∷◌ x) (set-get_or xs i d)

  pub set-set : (xs : List A) (i : ℕ) (v w : A) → set (set xs i v) i w ≡ set xs i w
  set-set [] i v w = refl
  set-set (x ∷ xs) zero v w = refl
  set-set (x ∷ xs) (suc i) v w = ap (◌∷◌ x) (set-set xs i v w)

  pub snoc-perm : (xs : List A) (x : A) → Perm (xs ++ x ∷ []) (x ∷ xs)
  snoc-perm xs x = rw (append-nil xs) at (perm_middle {a = x} xs [])

  -- A write trades the old entry for the new one.
  pub set-perm :
      (xs : List A) (i : ℕ) (v d : A) → i < length xs → Perm (get_or xs i d ∷ set xs i v) (v ∷ xs)
  set-perm [] i v d h = absurd (omega arith)
  set-perm (x ∷ xs) zero v d h = Perm.swap v x xs
  set-perm (x ∷ xs) (suc i) v d h =
      let rest = Perm.cons x (set-perm xs i v d (omega arith)) in
      Perm.trans (Perm.swap x _ _) (Perm.trans rest (Perm.swap v x xs))

  -- Moving the entry at `j` to `i` and putting `v` at `j` is, as a collection, putting `v` at `i`.
  pub move-perm :
      (xs : List A) (i j : ℕ) (v d : A)
      → i < length xs
      → j < length xs
      → ¬ (i ≡ j)
      → Perm (set (set xs i (get_or xs j d)) j v) (set xs i v)
  move-perm xs i j v d hi hj ne =
      let w = get_or xs j d in
      let b = set xs i w in
      let kept : get_or b j d ≡ w = ground (arith, get_or-set xs i j w d) in
      let one = rw kept at (set-perm b j v d (rw length-set hj)) in
      let two = set-perm xs i w d hi in
      let three = set-perm xs i v d hi in
      let all = Perm.trans (Perm.cons (get_or xs i d) one) (
        Perm.trans (Perm.swap v (get_or xs i d) b) (
          Perm.trans (Perm.cons v two) (
            Perm.trans (Perm.swap w v xs)
              (Perm.trans (Perm.cons w (Perm.symm three)) (Perm.swap (get_or xs i d) w _))))) in
      Perm.cons_inv (Perm.cons_inv all)

pub length-map {ℓ κ} :
    {A : Type ℓ} {B : Type κ} (f : A → B) (xs : List A) → length (map f xs) ≡ length xs
length-map f [] = refl
length-map f (x ∷ xs) = ap suc (length-map f xs)

module _ {ℓ} {A : Type ℓ} where
  pub list-cases : (xs : List A) → (xs ≡ []) ⊎ ((x : A) × (ys : List A) × (xs ≡ x ∷ ys))
  list-cases [] = inl refl
  list-cases (x ∷ xs) = inr (x, xs, refl)

  pub get_elem?-append :
      (xs ys : List A) (i : ℕ) (x : A) → get_elem? xs i ≡ some x → get_elem? (xs ++ ys) i ≡ some x
  get_elem?-append [] ys i x h = ground arith
  get_elem?-append (z ∷ xs) ys zero x h = h
  get_elem?-append (z ∷ xs) ys (suc i) x h = get_elem?-append xs ys i x h

  pub drop-get_elem? :
      (xs : List A) (i : ℕ) (x : A) → get_elem? xs i ≡ some x → drop i xs ≡ x ∷ drop (suc i) xs
  drop-get_elem? [] i x h = ground arith
  drop-get_elem? (z ∷ xs) zero x h = ground arith
  drop-get_elem? (z ∷ xs) (suc i) x h = drop-get_elem? xs i x h

  pub get_elem?-lt : (xs : List A) (i : ℕ) (x : A) → get_elem? xs i ≡ some x → i < length xs
  get_elem?-lt [] i x h = ground arith
  get_elem?-lt (z ∷ xs) zero x h = omega arith
  get_elem?-lt (z ∷ xs) (suc i) x h = omega (arith, get_elem?-lt xs i x h)

  pub get_elem?-ge : (xs : List A) (i : ℕ) → get_elem? xs i ≡ none → length xs ≤ i
  get_elem?-ge [] i h = omega arith
  get_elem?-ge (z ∷ xs) zero h = ground arith
  get_elem?-ge (z ∷ xs) (suc i) h = omega (arith, get_elem?-ge xs i h)

module _ {ℓ} {A : Type ℓ} where
  pub take-drop : (n : ℕ) (xs : List A) → take n xs ++ drop n xs ≡ xs
  take-drop zero xs = refl
  take-drop (suc n) [] = refl
  take-drop (suc n) (x ∷ xs) = ap (◌∷◌ x) (take-drop n xs)

  pub take-append : (n : ℕ) (xs ys : List A) → n ≤ length xs → take n (xs ++ ys) ≡ take n xs
  take-append zero xs ys h = refl
  take-append (suc n) [] ys h = absurd (omega arith)
  take-append (suc n) (x ∷ xs) ys h = ap (◌∷◌ x) (take-append n xs ys (omega arith))

  pub drop-append_le :
      (n : ℕ) (xs ys : List A) → n ≤ length xs → drop n (xs ++ ys) ≡ drop n xs ++ ys
  drop-append_le zero xs ys h = refl
  drop-append_le (suc n) [] ys h = absurd (omega arith)
  drop-append_le (suc n) (x ∷ xs) ys h = drop-append_le n xs ys (omega arith)

  pub drop-append_ge :
      (n : ℕ) (xs ys : List A) → length xs ≤ n → drop n (xs ++ ys) ≡ drop (n - length xs) ys
  drop-append_ge n [] ys h = ap (λ (k : ℕ). drop k ys) (omega arith)
  drop-append_ge zero (x ∷ xs) ys h = absurd (omega arith)
  drop-append_ge (suc n) (x ∷ xs) ys h =
      drop-append_ge n xs ys (omega arith) ∙ ap (λ (k : ℕ). drop k ys) (omega arith)

module _ {ℓ} {A : Type ℓ} where
  -- The places of the entries that pass a test, the first place being `n`.
  abbrev pub places : (A → Bool) → ℕ → List A → List ℕ
  places test n [] = []
  places test n (x ∷ xs) = let rest = places test (suc n) xs in if test x then n ∷ rest else rest

  pub places-snoc :
      (test : A → Bool) (n : ℕ) (xs : List A) (x : A)
      → places test n (xs ++ x ∷ [])
        ≡ (if test x then places test n xs ++ (n + length xs) ∷ [] else places test n xs)
  places-snoc test n [] x = ground arith
  places-snoc test n (y ∷ xs) x = ground (arith, places-snoc test (suc n) xs x)
