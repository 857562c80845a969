-- ===== src/Trie/Map.antt =====
-- src/util.h: `find` after `insert` in a Trie.
use liby_cpp.Base.{
  ℕ, ◌-◌, ◌≤◌, ◌≡◌, refl, Bool, true, false, ◌&&◌, List, [], ◌∷◌, Option, none, some, arith, ◌==◌,
  if◌then◌else◌, ok, Returns, returns, Returns-bind, Returns-map, Bool-cases, inl, inr, ==_self,
  ==_iff, le→ltb,
}
use liby_cpp.Trie.{Trie, node, Nodes, node_at, set_node, or_new, conv, insert, find_from, find}

-- The bytes of both strings are equal.
abbrev pub same : List ℕ → List ℕ → Bool
same [] [] = true
same [] (d ∷ ds) = false
same (c ∷ cs) [] = false
same (c ∷ cs) (d ∷ ds) = c == d && same cs ds

-- The strings that the Trie takes: each byte from 32 to 126.
unfoldable pub IsPrintable : List ℕ → Type 0
IsPrintable [] = Unit
IsPrintable (c ∷ cs) = (32 ≤ c) × (c ≤ 126) × IsPrintable cs

conv-printable : (c : ℕ) → 32 ≤ c → c ≤ 126 → conv c ≡ ok (c - 32)
unfolding conv
conv-printable c h k = rw (le→ltb c 32 h, le→ltb 126 c k) refl

find_from-none {ℓ} : (T : Type ℓ) (t : List ℕ) → find_from {T = T} t none ≡ ok false
unfolding find_from
find_from-none T [] = refl
find_from-none T (c ∷ t) = refl

module _ {ℓ} {T : Type ℓ} where
  find_from-or_new :
      (t : List ℕ) (o : Option (Trie T))
      → IsPrintable t
      → find_from t (some (or_new o)) ≡ find_from t o
  unfolding find_from IsPrintable
  find_from-or_new [] none h = refl
  find_from-or_new (c ∷ t) none (low, high, h) =
      rw (conv-printable c low high, find_from-none T t) refl
  find_from-or_new t (some p) h = refl

  find-here :
      (x : T) (e : Option T) (nodes : Nodes T) (t : List ℕ)
      → IsPrintable t
      → find t (node (some x) nodes) ≡ (if same t [] then ok true else find t (node e nodes))
  unfolding find_from
  find-here x e nodes [] k = refl
  find-here x e nodes (d ∷ ds) k = refl

  find-below :
      (c : ℕ) (s : List ℕ) (e : Option T) (nodes : Nodes T) (q : Trie T)
      → 32 ≤ c
      → ((t : List ℕ)
          → IsPrintable t
          → find t q ≡ (if same t s then ok true else find t (or_new (node_at (c - 32) nodes))))
      → (t : List ℕ) → IsPrintable t
      → find t (node e (set_node (c - 32) q nodes))
        ≡ (if same t (c ∷ s) then ok true else find t (node e nodes))
  unfolding find_from IsPrintable
  find-below c s e nodes q least known [] k = refl
  find-below c s e nodes q least known (d ∷ ds) (low, high, k) = elim (Bool-cases (d == c)) [
    | inl same_byte ↦
        let eq = (==_iff d c).0 same_byte in
        rw
          (
            eq,
            conv-printable c (rw eq at low) (rw eq at high),
            ==_self c,
            ==_self (c - 32),
            known ds k,
            find_from-or_new ds (node_at (c - 32) nodes) k,
          )
          refl
    | inr other ↦
        let apart : (d - 32 == c - 32) ≡ false = ground arith in
        rw (conv-printable d low high, other, apart) refl
  ]

  insert_agrees :
      (s : List ℕ) (x : T) (p : Trie T)
      → IsPrintable s
      → Returns
          (λ q. (t : List ℕ) → IsPrintable t → find t q ≡ (if same t s then ok true else find t p))
          (insert s x p)
  unfolding insert find_from IsPrintable
  insert_agrees [] x (node e nodes) h = returns (find-here x e nodes)
  insert_agrees (c ∷ s) x (node e nodes) (low, high, h) =
      let i = c - 32 in
      let old = node_at i nodes in
      rw (conv-printable c low high) (
        Returns-bind (insert_agrees s x (or_new old) h)
          λ q known. returns λ t k. find-below c s e nodes q low known t k)

  -- `insert` of a printable string ends normally, and `find` of a printable string then says yes
  -- for the one inserted and what it said before for every other.
  pub find-insert :
      (s : List ℕ) (x : T) (p : Trie T) (t : List ℕ)
      → IsPrintable s
      → IsPrintable t
      → Returns (λ q. find t q ≡ (if same t s then ok true else find t p)) (insert s x p)
  find-insert s x p t h k = Returns-map (insert_agrees s x p h) λ q known. known t k
