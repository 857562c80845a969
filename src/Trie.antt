-- ===== src/Trie.antt =====
-- src/util.h: class Trie. A node has an element or none, and the pointers of the array `nodes_` that
-- are not null, each with its index.
pub mod Map
mod Tests
use liby_cpp.Base.{
  ℕ, ◌-◌, Bool, true, false, ◌||◌, List, [], ◌∷◌, Option, none, some, ltb, ◌==◌, if◌then◌else◌, Run,
  ok, fault, thrown, ◌>>=◌,
}

mutual
  pub data Trie {ℓ} (T : Type ℓ) : Type ℓ where
    node : Option T → Nodes T → Trie T

  pub data Nodes {ℓ} (T : Type ℓ) : Type ℓ where
    null : Nodes T
    pointer : ℕ → Trie T → Nodes T → Nodes T

module _ {ℓ} {T : Type ℓ} where
  -- `Trie()`
  abbrev pub empty : Trie T
  empty = node none null

  -- `nodes_[i]`
  abbrev pub node_at : ℕ → Nodes T → Option (Trie T)
  node_at i null = none
  node_at i (pointer j t rest) = if i == j then some t else node_at i rest

  -- `nodes_[i] = t`
  abbrev pub set_node : ℕ → Trie T → Nodes T → Nodes T
  set_node i t rest = pointer i t rest

  abbrev pub or_new : Option (Trie T) → Trie T
  or_new none = empty
  or_new (some t) = t

-- `conv(c)`; `throw` without an exception ends the program.
unfoldable pub conv : ℕ → Run ℕ
conv c = if ltb c 32 || ltb 126 c then fault thrown else ok (c - 32)

abbrev pub is_some {ℓ} : {T : Type ℓ} → Option T → Bool
is_some none = false
is_some (some x) = true

module _ {ℓ} {T : Type ℓ} where
  -- `insert(str, element)` of a C string.
  unfoldable pub insert : List ℕ → T → Trie T → Run (Trie T)
  insert [] x (node e nodes) = ok (node (some x) nodes)
  insert (c ∷ str) x (node e nodes) = do
    i ← conv c
    child ← insert str x (or_new (node_at i nodes))
    ok (node e (set_node i child nodes))

  -- The loop of `find` at the node that a pointer leads to; a null pointer ends it.
  unfoldable pub find_from : List ℕ → Option (Trie T) → Run Bool
  find_from [] none = ok false
  find_from [] (some (node e nodes)) = ok (is_some e)
  find_from (c ∷ str) none = ok false
  find_from (c ∷ str) (some (node e nodes)) = conv c >>= λ i. find_from str (node_at i nodes)

  -- `find(str)` of a C string.
  abbrev pub find : List ℕ → Trie T → Run Bool
  find str t = find_from str (some t)
