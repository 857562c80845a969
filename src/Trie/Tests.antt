-- ===== src/Trie/Tests.antt =====
-- src/util.h: the theorem on class Trie at a concrete Trie.
use liby_cpp.Base.{ℕ, ◌≡◌, true, List, [], ◌∷◌, arith, ok, Returns}
use liby_cpp.Trie.{empty, insert, find}
use liby_cpp.Trie.Map.{IsPrintable, find-insert}

-- "ab"
abbrev word : List ℕ
word = 97 ∷ 98 ∷ []

word-IsPrintable : IsPrintable word
unfolding IsPrintable
word-IsPrintable = (omega arith, omega arith, (omega arith, omega arith, tt))

find-insert_example : Returns (λ q. find {T = ℕ} word q ≡ ok true) (insert {T = ℕ} word 5 empty)
find-insert_example = find-insert word 5 empty word word-IsPrintable word-IsPrintable
