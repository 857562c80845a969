-- ===== src/Http/Request/HeaderLines.antt =====
-- src/http/HttpDef.cpp: `case ParsingHeaders` over the lines that `toString` prints.
use mathlib.Core.List.{append_assoc, append-nil}
use liby_cpp.Base.{
  ℕ, zero, suc, ◌+◌, ◌-◌, ◌<◌, ◌≡◌, refl, sym, ap, ◌∙◌, true, false, ◌||◌, [], ◌∷◌, ◌++◌, none,
  arith, ◌==◌, length, length-append, ne→==, ok,
}
use liby_cpp.Http.{Text, same, find_char, lookup, assign, Headers, line_feed}
use liby_cpp.Http.Scan.{
  From, lacks, lacks-append, solid_start, solid_end, From-length, From-add, From-suc,
  find_char-From,
}
use liby_cpp.Http.Request.{RequestParser, good, parse_header, line_end, print_header, print_headers}
use liby_cpp.Http.Request.Fields.{parse_header-solid, line_end-crlf}
use liby_cpp.Http.Request.Stages.{advance, from_headers}

-- A key and a value that the parser takes apart as they were put together.
pub record IsHeader (key value : Text) : Type 0 where
  pub no_colon : lacks 58 key ≡ true
  pub key_in_line : lacks 10 key ≡ true
  pub value_in_line : lacks 10 value ≡ true
  pub key_ends : solid_end key ≡ true
  pub value_starts : solid_start value ≡ true

-- Each header of the list can be parsed, and its key is none of those before it.
unfoldable pub AreHeaders : Headers → Headers → Type 0
AreHeaders before [] = Unit
AreHeaders before ((key, value) ∷ rest) =
    IsHeader key value
    × (lookup same key before ≡ none)
    × AreHeaders (before ++ (key, value) ∷ []) rest

pub assign-new :
    (key value : Text) (h : Headers)
    → lookup same key h ≡ none
    → assign same key value h ≡ h ++ (key, value) ∷ []
assign-new key value [] e = refl
assign-new key value ((k, v) ∷ rest) e = ground (arith, assign-new key value rest)

-- Where a header line ends, without the carriage return.
abbrev pub line_stop : ℕ → Text → Text → ℕ
line_stop i key value = suc (suc (i + length key)) + length value

pub header-body :
    (key value r : Text) → print_header key value ++ r ≡ (key ++ 58 ∷ 32 ∷ value) ++ 13 ∷ r
unfolding print_header
header-body key value r =
    append_assoc key (58 ∷ 32 ∷ (value ++ 13 ∷ [])) r
    ∙ ap (λ (t : Text). key ++ 58 ∷ 32 ∷ t) (append_assoc value (13 ∷ []) r)
    ∙ sym (append_assoc key (58 ∷ 32 ∷ value) (13 ∷ r))

pub length-print_header :
    (i : ℕ) (key value : Text) → i + length (print_header key value) ≡ suc (line_stop i key value)
unfolding print_header
length-print_header i key value =
    omega (arith, length-append key (58 ∷ 32 ∷ (value ++ 13 ∷ [])), length-append value (13 ∷ []))

pub find_line :
    {text : Text} {i : ℕ} (key value r : Text)
    → From text i (print_header key value ++ 10 ∷ r)
    → IsHeader key value
    → find_char text i line_feed ≡ ok (suc (line_stop i key value))
unfolding print_header
find_line {text} {i} key value r f h =
    let clean =
      lacks-append 10 key (58 ∷ 32 ∷ (value ++ 13 ∷ [])) h.key_in_line
        (lacks-append 10 value (13 ∷ []) h.value_in_line refl) in
    find_char-From (print_header key value) r 10 f clean
    ∙ ap (λ (n : ℕ). ok n) (length-print_header i key value)

pub cut_line :
    {text : Text} {i : ℕ} (key value r : Text)
    → From text i (print_header key value ++ 10 ∷ r)
    → line_end text (suc (line_stop i key value)) ≡ ok (line_stop i key value)
cut_line {text} {i} key value r f =
    let w = key ++ 58 ∷ 32 ∷ value in
    let size : i + length w ≡ line_stop i key value =
      omega (arith, length-append key (58 ∷ 32 ∷ value)) in
    let from : From text i (w ++ 13 ∷ 10 ∷ r) = rw (sym (header-body key value (10 ∷ r))) f in
    rw size at (line_end-crlf w (10 ∷ r) from)

read_line :
    {text : Text} {i : ℕ} (p : RequestParser) (key value r : Text)
    → From text i (print_header key value ++ 10 ∷ r)
    → IsHeader key value
    → lookup same key p.request.headers_ ≡ none
    → parse_header p text i (line_stop i key value)
      ≡ ok (
        true,
        record p {
          request = record p.request { headers_ = p.request.headers_ ++ (key, value) ∷ [] };
        },
      )
read_line {text} {i} p key value r f h new =
    let from : From text i (key ++ 58 ∷ 32 ∷ (value ++ 13 ∷ 10 ∷ r)) =
      rw
        (
          sym (append_assoc key (58 ∷ 32 ∷ value) (13 ∷ 10 ∷ r)),
          sym (header-body key value (10 ∷ r)),
        )
        f in
    rw (assign-new key value p.request.headers_ new) at
      (parse_header-solid p key value (10 ∷ r) from h.no_colon h.key_ends h.value_starts)

-- The lines of `toString` end with `Good`, all headers in the map and all lines counted.
pub from_headers-printed :
    {text : Text} (fuel : ℕ) (i : ℕ) (p : RequestParser) (hs : Headers) (behind : Text)
    → From text i (print_headers hs behind)
    → AreHeaders p.request.headers_ hs
    → length hs < fuel
    → from_headers fuel p text i
      ≡ ok (record p {
        progress_ = good;
        bytes_ = p.bytes_ + length (print_headers hs []);
        request = record p.request { headers_ = p.request.headers_ ++ hs };
      })
unfolding from_headers print_headers advance AreHeaders
from_headers-printed zero i p hs behind f a h = absurd (omega arith)
from_headers-printed {text} (suc fuel) i p [] behind f a h =
    let inside : ¬ (i ≡ length text) = λ e. omega (arith, From-length f, e) in
    let first : i + 1 ≡ suc i = omega arith in
    let found = rw first at (find_char-From (13 ∷ []) behind 10 f refl) in
    let short : (suc i == i || suc i == suc i) ≡ true = ground arith in
    let size : suc (suc i) - i ≡ 2 = omega arith in
    rw (ne→== i (length text) inside, found, short, size, append-nil p.request.headers_) refl
from_headers-printed {text} (suc fuel) i p ((key, value) ∷ hs) behind f (good_line, new, more) h =
    let r = print_headers hs behind in
    let finish = suc (line_stop i key value) in
    let size = length-print_header i key value in
    let line = print_header key value in
    let inside : ¬ (i ≡ length text) =
      λ e. omega (arith, From-length f, length-append line (10 ∷ r), e) in
    let long : (finish == i || finish == suc i) ≡ false = ground arith in
    let next : From text (suc finish) r = rw size at (From-suc (From-add line (10 ∷ r) f)) in
    let old = p.request.headers_ in
    let p' : RequestParser = record p {
      request = record p.request { headers_ = old ++ (key, value) ∷ [] };
    } in
    let lines = print_headers hs [] in
    let count : p.bytes_ + (suc finish - i) + length lines
        ≡ p.bytes_ + length (line ++ 10 ∷ lines) =
      omega (arith, size, length-append line (10 ∷ lines)) in
    let rest =
      from_headers-printed fuel (suc finish) (advance p' i (suc finish)) hs behind next more
        (omega arith) in
    rw
      (
        ne→== i (length text) inside,
        find_line key value r f good_line,
        long,
        cut_line key value r f,
        read_line p key value r f good_line new,
        rest,
        count,
        append_assoc old ((key, value) ∷ []) hs,
      )
      refl
