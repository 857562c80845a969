-- ===== src/Http/Request/Counts.antt =====
-- src/http/HttpDef.cpp: `bytes_` under `RequestParser::parse`.
use mathlib.Core.Path.{subst}
use liby_cpp.Base.{
  ℕ, zero, suc, ◌+◌, ◌-◌, ◌≤◌, ◌<◌, ◌≡◌, refl, sym, Bool, true, false, ◌||◌, Option, none, some,
  arith, ◌==◌, leb, length, drop, Run, ok, Then, done, failed, Then-bind, Then-if, Then-any, assert,
  if◌then◌else◌,
}
use liby_cpp.Http.{Text, find_char, substring, same, http_1_0, http_1_1, lookup, methods}
use liby_cpp.Http.Request.{
  Progress, parsing_method, parsing_uri, parsing_version, parsing_headers, good, bad_method,
  bad_uri, bad_version, bad_header, RequestParser, is_good, code, set_method, parse_method,
  decode_uri, parse_uri, parse_http_version, skip_left, skip_right, parse_header, line_end,
}
use liby_cpp.Http.Request.Stages.{
  advance, from_headers, from_version, from_uri, from_method, from_progress, parse,
}

-- A stage leaves the count to its caller.
abbrev Kept : RequestParser → Bool × RequestParser → Type 0
Kept p r = r.1.bytes_ ≡ p.bytes_

set_method-Kept : (p : RequestParser) (m : Option ℕ) → Kept p (set_method p m)
unfolding set_method
set_method-Kept p none = refl
set_method-Kept p (some m) = refl

parse_method-Kept :
    (p : RequestParser) (text : Text) (i j : ℕ) → Then (Kept p) (parse_method p text i j)
unfolding parse_method
parse_method-Kept p text i j = Then-bind (Then-any (assert (leb i j))) λ _ _.
    Then-bind (Then-any (substring text i j))
      λ method _. done (set_method-Kept p (lookup same method methods))

parse_uri-Kept : (p : RequestParser) (text : Text) (i j : ℕ) → Then (Kept p) (parse_uri p text i j)
unfolding parse_uri
parse_uri-Kept p text i j =
    Then-bind (Then-any (assert (leb i j)))
      λ _ _. Then-bind (Then-any (decode_uri (j - i) (j - i) 0 none (drop i text))) λ r _. done refl

parse_http_version-Kept :
    (p : RequestParser) (text : Text) (i j : ℕ) → Then (Kept p) (parse_http_version p text i j)
unfolding parse_http_version
parse_http_version-Kept p text i j = Then-bind (Then-any (assert (leb i j))) λ _ _.
    Then-if ((j - i) == 8)
      (λ _. Then-bind (Then-any (substring text i j)) λ version _.
        Then-if (same http_1_1 version) (λ _. done refl)
          λ _. Then-if (same http_1_0 version) (λ _. done refl) λ _. done refl)
      λ _. done refl

parse_header-Kept :
    (p : RequestParser) (text : Text) (i j : ℕ) → Then (Kept p) (parse_header p text i j)
unfolding parse_header
parse_header-Kept p text i j = Then-bind (Then-any (assert (leb i j))) λ _ _.
    Then-bind (Then-any (find_char text i 58)) λ found _.
      let mid = if leb j found then j else found in
      Then-bind (Then-any (skip_left text mid)) λ left _.
        Then-bind (Then-any (skip_right (suc mid) (drop (suc mid) text))) λ right _.
          Then-bind (Then-any (substring text i left))
            λ key _. Then-bind (Then-any (substring text right j)) λ value _. done refl

-- At least `n` bytes are counted.
abbrev Counted : ℕ → RequestParser → Type 0
Counted n q = n ≤ q.bytes_

Counted-weaken :
    (n m : ℕ) (call : Run RequestParser) → n ≤ m → Then (Counted m) call → Then (Counted n) call
Counted-weaken n m _ h (done q) = done (omega (arith, h, q))
Counted-weaken n m _ h failed = failed

-- What follows a stage counts the bytes up to `j` first.
next-Counted :
    (n : ℕ) (p : RequestParser) (i j : ℕ) (r : Bool × RequestParser) (rest : Run RequestParser)
    → Kept p r
    → n ≤ p.bytes_ + (j - i)
    → (r.0 ≡ false → n ≤ p.bytes_)
    → Then (Counted (advance r.1 i j).bytes_) rest
    → Then (Counted n) (if r.0 then rest else ok r.1)
unfolding advance
next-Counted n p i j r rest kept more stays h =
    Then-if r.0 (λ _. Counted-weaken n (r.1.bytes_ + (j - i)) rest (omega (arith, kept, more)) h)
      λ stop. done (omega (arith, kept, stays stop))

from_headers-Counted :
    (fuel : ℕ) (p : RequestParser) (text : Text) (i : ℕ)
    → Then (Counted p.bytes_) (from_headers fuel p text i)
unfolding from_headers advance
from_headers-Counted zero p text i = failed
from_headers-Counted (suc fuel) p text i =
    Then-if (i == length text) (λ _. done (omega arith))
      λ _. Then-bind (Then-any (find_char text i 10)) λ finish _.
        Then-if (finish == i || finish == suc i) (λ _. done (omega arith))
          λ _. Then-bind (Then-any (line_end text finish)) λ end _.
            Then-bind (parse_header-Kept p text i end) λ r kept.
              next-Counted p.bytes_ p i (suc finish) r _ kept (omega arith) (λ _. omega arith)
                (from_headers-Counted fuel (advance r.1 i (suc finish)) text (suc finish))

from_version-Counted :
    (p : RequestParser) (text : Text) (i : ℕ) → Then (Counted p.bytes_) (from_version p text i)
unfolding from_version
from_version-Counted p text i = Then-bind (Then-any (find_char text i 10)) λ finish _.
    Then-bind (Then-any (line_end text finish)) λ end _.
      Then-bind (parse_http_version-Kept p text i end) λ r kept.
        next-Counted p.bytes_ p i (suc finish) r _ kept (omega arith) (λ _. omega arith)
          (from_headers-Counted (suc (length text)) (advance r.1 i (suc finish)) text (suc finish))

from_uri-Counted :
    (p : RequestParser) (text : Text) (i : ℕ) → Then (Counted p.bytes_) (from_uri p text i)
unfolding from_uri
from_uri-Counted p text i = Then-bind (Then-any (find_char text i 32)) λ finish _.
    Then-bind (parse_uri-Kept p text i finish) λ r kept.
      next-Counted p.bytes_ p i (suc finish) r _ kept (omega arith) (λ _. omega arith)
        (from_version-Counted (advance r.1 i (suc finish)) text (suc finish))

from_method-Counted :
    (p : RequestParser) (text : Text) (i : ℕ) → Then (Counted p.bytes_) (from_method p text i)
unfolding from_method
from_method-Counted p text i = Then-bind (Then-any (find_char text i 32)) λ finish _.
    Then-bind (parse_method-Kept p text i finish) λ r kept.
      next-Counted p.bytes_ p i (suc finish) r _ kept (omega arith) (λ _. omega arith)
        (from_uri-Counted (advance r.1 i (suc finish)) text (suc finish))

from_progress-Counted :
    (s : Progress) (p : RequestParser) (text : Text)
    → Then (Counted p.bytes_) (from_progress s p text)
unfolding from_progress
from_progress-Counted parsing_method p text = from_method-Counted p text 0
from_progress-Counted parsing_uri p text = from_uri-Counted p text 0
from_progress-Counted parsing_version p text = from_version-Counted p text 0
from_progress-Counted parsing_headers p text = from_headers-Counted (suc (length text)) p text 0
from_progress-Counted good p text = done (omega arith)
from_progress-Counted bad_method p text = done (omega arith)
from_progress-Counted bad_uri p text = done (omega arith)
from_progress-Counted bad_version p text = done (omega arith)
from_progress-Counted bad_header p text = done (omega arith)

-- No call of `parse` takes bytes back.
pub parse-Counted : (p : RequestParser) (text : Text) → Then (Counted p.bytes_) (parse p text)
unfolding parse
parse-Counted p text = from_progress-Counted p.progress_ p text

set_method-bad :
    (p : RequestParser) (m : Option ℕ)
    → (set_method p m).0 ≡ false
    → is_good (set_method p m).1 ≡ false
unfolding set_method is_good code
set_method-bad p none h = refl
set_method-bad p (some m) h = absurd cc

parse_method-bad :
    (p : RequestParser) (text : Text) (i j : ℕ)
    → Then (λ r. Kept p r × (r.0 ≡ false → is_good r.1 ≡ false)) (parse_method p text i j)
unfolding parse_method
parse_method-bad p text i j = Then-bind (Then-any (assert (leb i j))) λ _ _.
    Then-bind (Then-any (substring text i j)) λ method _.
      let m = lookup same method methods in done (set_method-Kept p m, set_method-bad p m)

-- The call counts a byte if it ends with `Good`.
abbrev Strict : ℕ → RequestParser → Type 0
Strict n q = is_good q ≡ true → n < q.bytes_

Counted-Strict :
    (n m : ℕ) (call : Run RequestParser) → n < m → Then (Counted m) call → Then (Strict n) call
Counted-Strict n m _ h (done q) = done λ _. omega (arith, h, q)
Counted-Strict n m _ h failed = failed

from_method-Strict :
    (p : RequestParser) (text : Text) → Then (Strict p.bytes_) (from_method p text 0)
unfolding from_method advance
from_method-Strict p text = Then-bind (Then-any (find_char text 0 32)) λ finish _.
    Then-bind (parse_method-bad p text 0 finish) λ r (kept, bad).
      let p' = advance r.1 0 (suc finish) in
      Then-if r.0
        (λ _.
          Counted-Strict p.bytes_ p'.bytes_ _ (omega (arith, kept))
            (from_uri-Counted p' text (suc finish)))
        λ stop. done λ is_it. absurd (cc (bad stop, is_it))

-- A parser that was cleared gets to `Good` only with at least one byte.
pub parse-Strict :
    (p : RequestParser) (text : Text)
    → p.progress_ ≡ parsing_method
    → Then (Strict p.bytes_) (parse p text)
unfolding parse from_progress
parse-Strict p text h =
    subst (λ (s : Progress). Then (Strict p.bytes_) (from_progress s p text)) (sym h)
      (from_method-Strict p text)
