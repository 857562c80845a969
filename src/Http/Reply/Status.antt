-- ===== src/Http/Reply/Status.antt =====
-- src/http/HttpDef.cpp: the two tables of the statuses.
use liby_cpp.Base.{
  ℕ, ◌≡◌, refl, sym, ap, Bool, true, false, ◌&&◌, List, [], ◌∷◌, some, Option-cases, Bool-cases,
  inl, inr, arith, ◌==◌, ==_iff, ℤ, pos, negsuc, Run, ok, fault,
}
use liby_cpp.Http.{Text, lookup, get_or_empty}
use liby_cpp.Http.Numbers.{stoi}
use liby_cpp.Http.Scan.{lacks}
use liby_cpp.Http.Reply.{status_number}
use liby_cpp.Http.Reply.Print.{status_string}

abbrev all_entries : (ℕ → Text → Bool) → List (ℕ × Text) → Bool
all_entries check [] = true
all_entries check ((s, w) ∷ rest) = check s w && all_entries check rest

lookup-all :
    (check : ℕ → Text → Bool) (s : ℕ) (w : Text) (t : List (ℕ × Text))
    → lookup ◌==◌ s t ≡ some w
    → all_entries check t ≡ true
    → check s w ≡ true
lookup-all check s w [] e h = cc
lookup-all check s w ((k, v) ∷ rest) e h = elim (Bool-cases (s == k)) [
  | inl here ↦
      let same_key : s ≡ k = (==_iff s k).0 here in
      let same_text : v ≡ w = cc (rw here at e) in rw (same_key, sym same_text) (ground (arith, h))
  | inr other ↦ lookup-all check s w rest (rw other at e) (ground (arith, h))
]

abbrev reads_as : ℕ → Run ℤ → Bool
reads_as s (fault e) = false
reads_as s (ok (pos n)) = n == s
reads_as s (ok (negsuc n)) = false

reads_as-eq : (s : ℕ) (r : Run ℤ) → reads_as s r ≡ true → r ≡ ok (pos s)
reads_as-eq s (fault e) h = absurd cc
reads_as-eq s (ok (pos n)) h = ap (λ (k : ℕ). ok (pos k)) ((==_iff n s).0 h)
reads_as-eq s (ok (negsuc n)) h = absurd cc

abbrev is_number : ℕ → Text → Bool
is_number s w = lacks 32 w && reads_as s (stoi w)

-- Each number of the table is the digits of its key.
status_number-fine : all_entries is_number status_number ≡ true
unfolding status_number stoi
status_number-fine = refl

status_string-fine : all_entries (λ s w. lacks 10 w) status_string ≡ true
unfolding status_string
status_string-fine = refl

pub known_number :
    (s : ℕ) (w : Text)
    → lookup ◌==◌ s status_number ≡ some w
    → (lacks 32 w ≡ true) × (stoi w ≡ ok (pos s))
known_number s w e =
    let both : is_number s w ≡ true = lookup-all is_number s w status_number e status_number-fine in
    (ground (arith, both), reads_as-eq s (stoi w) (ground (arith, both)))

-- The string that `toString` prints for a status.
abbrev pub string_of : ℕ → Text
string_of s = get_or_empty (lookup ◌==◌ s status_string)

pub string_of-lacks : (s : ℕ) → lacks 10 (string_of s) ≡ true
string_of-lacks s = elim (Option-cases (lookup ◌==◌ s status_string)) [
  | inl e ↦ rw e refl
  | inr (w, e) ↦ rw e (lookup-all (λ s w. lacks 10 w) s w status_string e status_string-fine)
]
