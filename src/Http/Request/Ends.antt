-- ===== src/Http/Request/Ends.antt =====
-- src/http/HttpDef.cpp: the loops of `RequestParser::parse` end on every text.
use liby_cpp.Base.{
  ℕ, zero, suc, ◌+◌, ◌-◌, ◌<◌, ◌≤◌, ◌≡◌, refl, Bool, true, false, ◌||◌, [], ◌∷◌, Option, none, some,
  arith, ◌==◌, leb, length, drop, get_elem?, leb→le, Bool-cases, inl, inr, Run, ok, fault, Fault,
  out_of_bounds, out_of_fuel, or_fault, assert, ◌>>=◌, if◌then◌else◌,
}
use liby_cpp.Http.{
  Text, char_at, find_char, find_index, substring, is_space, parse_hex, same, http_1_0, http_1_1,
}
use liby_cpp.Http.Request.{
  Progress, parsing_method, parsing_uri, parsing_version, parsing_headers, good, bad_method,
  bad_uri, bad_version, bad_header, RequestParser, parse_method, decode_uri, parse_uri,
  parse_http_version, skip_left, skip_right, parse_header, line_end,
}
use liby_cpp.Http.Request.Stages.{
  advance, from_headers, from_version, from_uri, from_method, from_progress, parse,
}

-- The call ends with a value, or with a fault that is not the end of the fuel.
pub data Ends {ℓ} {A : Type ℓ} : Run A → Type ℓ where
  ended : {a : A} → Ends (ok a)
  failed : {e : Fault} → ¬ (e ≡ out_of_fuel) → Ends (fault e)

module _ {ℓ} {A : Type ℓ} where
  bounds-Ends : Ends {A = A} (fault out_of_bounds)
  bounds-Ends = failed λ e. cc

  Ends-if :
      {x y : Run A} (b : Bool)
      → (b ≡ true → Ends x)
      → (b ≡ false → Ends y)
      → Ends (if b then x else y)
  Ends-if true h k = h refl
  Ends-if false h k = k refl

  or_fault-Ends : (o : Option A) → Ends (or_fault o out_of_bounds)
  or_fault-Ends none = bounds-Ends
  or_fault-Ends (some a) = ended

  Ends-bind {κ} :
      {B : Type κ} {m : Run A} {f : A → Run B}
      → Ends m
      → ((a : A) → m ≡ ok a → Ends (f a))
      → Ends (m >>= f)
  Ends-bind (ended {a}) k = k a refl
  Ends-bind (failed ne) k = failed ne

char_at-Ends : (text : Text) (i : ℕ) → Ends (char_at text i)
unfolding char_at
char_at-Ends text i = or_fault-Ends (get_elem? text i)

find_char-Ends : (text : Text) (i c : ℕ) → Ends (find_char text i c)
unfolding find_char
find_char-Ends text i c = Ends-if (leb i (length text)) (λ _. ended) (λ _. bounds-Ends)

substring-Ends : (text : Text) (i j : ℕ) → Ends (substring text i j)
unfolding substring
substring-Ends text i j = Ends-if (leb i j) (λ _. ended) (λ _. failed λ e. cc)

assert-Ends : (b : Bool) → Ends (assert b)
assert-Ends true = ended
assert-Ends false = failed λ e. cc

parse_hex-Ends : (memory : Text) → Ends (parse_hex memory)
unfolding parse_hex
parse_hex-Ends memory =
    Ends-bind (char_at-Ends memory 0) λ c _. Ends-bind (char_at-Ends memory 1) λ d _. ended

skip_left-Ends : (text : Text) (i : ℕ) → Ends (skip_left text i)
unfolding skip_left
skip_left-Ends text zero = bounds-Ends
skip_left-Ends text (suc i) =
    Ends-bind (char_at-Ends text i)
      λ c _. Ends-if (is_space c) (λ _. skip_left-Ends text i) (λ _. ended)

skip_right-Ends : (i : ℕ) (memory : Text) → Ends (skip_right i memory)
unfolding skip_right
skip_right-Ends i [] = bounds-Ends
skip_right-Ends i (c ∷ cs) = Ends-if (is_space c) (λ _. skip_right-Ends (suc i) cs) (λ _. ended)

line_end-Ends : (text : Text) (i : ℕ) → Ends (line_end text i)
unfolding line_end
line_end-Ends text zero = bounds-Ends
line_end-Ends text (suc i) = Ends-bind (char_at-Ends text i) λ c _. ended

decode_uri-Ends :
    (fuel n j : ℕ) (q : Option ℕ) (memory : Text) → n ≤ fuel → Ends (decode_uri fuel n j q memory)
unfolding decode_uri
decode_uri-Ends fuel zero j q memory h = ended
decode_uri-Ends zero (suc n) j q memory h = absurd (omega arith)
decode_uri-Ends (suc fuel) (suc n) j q [] h = bounds-Ends
decode_uri-Ends (suc fuel) (suc n) j q (c ∷ memory) h =
    let skip = if c == 37 then 2 else 0 in
    Ends-bind (Ends-if (c == 37) (λ _. parse_hex-Ends memory) (λ _. ended)) λ d _.
      Ends-bind
        (decode_uri-Ends fuel (n - skip) (suc j) (if d == 63 then some j else q) (drop skip memory)
          (omega arith))
        λ r _. ended

parse_method-Ends : (p : RequestParser) (text : Text) (i j : ℕ) → Ends (parse_method p text i j)
unfolding parse_method
parse_method-Ends p text i j =
    Ends-bind (assert-Ends (leb i j)) λ _ _. Ends-bind (substring-Ends text i j) λ method _. ended

parse_uri-Ends : (p : RequestParser) (text : Text) (i j : ℕ) → Ends (parse_uri p text i j)
unfolding parse_uri
parse_uri-Ends p text i j = Ends-bind (assert-Ends (leb i j)) λ _ _.
    Ends-bind (decode_uri-Ends (j - i) (j - i) 0 none (drop i text) (omega arith)) λ r _. ended

parse_http_version-Ends :
    (p : RequestParser) (text : Text) (i j : ℕ) → Ends (parse_http_version p text i j)
unfolding parse_http_version
parse_http_version-Ends p text i j = Ends-bind (assert-Ends (leb i j)) λ _ _.
    Ends-if ((j - i) == 8)
      (λ _. Ends-bind (substring-Ends text i j) λ version _.
        Ends-if (same http_1_1 version) (λ _. ended)
          λ _. Ends-if (same http_1_0 version) (λ _. ended) λ _. ended)
      λ _. ended

parse_header-Ends : (p : RequestParser) (text : Text) (i j : ℕ) → Ends (parse_header p text i j)
unfolding parse_header
parse_header-Ends p text i j = Ends-bind (assert-Ends (leb i j)) λ _ _.
    Ends-bind (find_char-Ends text i 58) λ found _.
      let mid = if leb j found then j else found in
      Ends-bind (skip_left-Ends text mid) λ left _.
        Ends-bind (skip_right-Ends (suc mid) (drop (suc mid) text)) λ right _.
          Ends-bind (substring-Ends text i left)
            λ key _. Ends-bind (substring-Ends text right j) λ value _. ended

find_char-within :
    (text : Text) (i c j : ℕ) → find_char text i c ≡ ok j → (i ≤ length text) × (i ≤ j)
unfolding find_char
find_char-within text i c j h = elim (Bool-cases (leb i (length text))) [
  | inl e ↦
      let found : Path (Run ℕ) (ok (i + find_index c (drop i text))) (ok j) = rw e at h in
      (leb→le i (length text) e, ground arith)
  | inr e ↦ let none_found : Path (Run ℕ) (fault out_of_bounds) (ok j) = rw e at h in absurd cc
]

from_headers-Ends :
    (fuel : ℕ) (p : RequestParser) (text : Text) (i : ℕ)
    → 0 < fuel
    → length text < fuel + i
    → Ends (from_headers fuel p text i)
unfolding from_headers
from_headers-Ends zero p text i h k = absurd (omega arith)
from_headers-Ends (suc fuel) p text i h k =
    Ends-if (i == length text) (λ _. ended)
      λ more. Ends-bind (find_char-Ends text i 10) λ finish found.
        Ends-if (finish == i || finish == suc i) (λ _. ended)
          λ _. Ends-bind (line_end-Ends text finish) λ end _.
            Ends-bind (parse_header-Ends p text i end) λ r _.
              Ends-if r.0
                (λ _.
                  let within = find_char-within text i 10 finish found in
                  from_headers-Ends fuel (advance r.1 i (suc finish)) text (suc finish)
                    (ground (arith, within.0, more)) (omega (arith, within.1)))
                λ _. ended

from_version-Ends : (p : RequestParser) (text : Text) (i : ℕ) → Ends (from_version p text i)
unfolding from_version
from_version-Ends p text i = Ends-bind (find_char-Ends text i 10) λ finish _.
    Ends-bind (line_end-Ends text finish) λ end _.
      Ends-bind (parse_http_version-Ends p text i end) λ r _.
        Ends-if r.0
          (λ _.
            from_headers-Ends (suc (length text)) (advance r.1 i (suc finish)) text (suc finish)
              (omega arith) (omega arith))
          λ _. ended

from_uri-Ends : (p : RequestParser) (text : Text) (i : ℕ) → Ends (from_uri p text i)
unfolding from_uri
from_uri-Ends p text i = Ends-bind (find_char-Ends text i 32) λ finish _.
    Ends-bind (parse_uri-Ends p text i finish) λ r _.
      Ends-if r.0 (λ _. from_version-Ends (advance r.1 i (suc finish)) text (suc finish)) λ _. ended

from_method-Ends : (p : RequestParser) (text : Text) (i : ℕ) → Ends (from_method p text i)
unfolding from_method
from_method-Ends p text i = Ends-bind (find_char-Ends text i 32) λ finish _.
    Ends-bind (parse_method-Ends p text i finish) λ r _.
      Ends-if r.0 (λ _. from_uri-Ends (advance r.1 i (suc finish)) text (suc finish)) λ _. ended

from_progress-Ends :
    (s : Progress) (p : RequestParser) (text : Text) → Ends (from_progress s p text)
unfolding from_progress
from_progress-Ends parsing_method p text = from_method-Ends p text 0
from_progress-Ends parsing_uri p text = from_uri-Ends p text 0
from_progress-Ends parsing_version p text = from_version-Ends p text 0
from_progress-Ends parsing_headers p text =
    from_headers-Ends (suc (length text)) p text 0 (omega arith) (omega arith)
from_progress-Ends good p text = ended
from_progress-Ends bad_method p text = ended
from_progress-Ends bad_uri p text = ended
from_progress-Ends bad_version p text = ended
from_progress-Ends bad_header p text = ended

-- `parse` ends on every text and from every progress: its loops are given enough fuel. It ends
-- with a parser, or with an access out of bounds, an exception or a failed assertion.
pub parse-Ends : (p : RequestParser) (text : Text) → Ends (parse p text)
unfolding parse
parse-Ends p text = from_progress-Ends p.progress_ p text
