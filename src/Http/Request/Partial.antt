-- ===== src/Http/Request/Partial.antt =====
-- src/http/HttpDef.cpp: `RequestParser::parse` of a text that ends too early, and headers that
-- `ParseHeader` cannot take apart.
use mathlib.Core.List.{append-nil}
use liby_cpp.Base.{
  ℕ, suc, ◌+◌, ◌-◌, ◌<◌, ◌≤◌, ◌≡◌, refl, sym, ap, ◌∙◌, Bool, true, ◌&&◌, ◌||◌, [], ◌∷◌, ◌++◌, none,
  some, arith, ◌==◌, leb, length, le→leb, lt→leb, ne→==, Run, ok, fault, out_of_bounds, thrown,
  Fault, Option-cases, drop, ◌>>=◌, Bool-cases, inl, inr,
}
use liby_cpp.Http.{Text, same, lookup, find_char, find_index, substring, is_space, methods}
use liby_cpp.Http.Scan.{
  find_char-From, From, lacks, From-start, From-length, From-add, From-suc, substring-From,
}
use liby_cpp.Http.Request.{
  RequestParser, bad_method, good, clear, set_method, parse_method, skip_left, skip_right,
  parse_header,
}
use liby_cpp.Http.Request.Fields.{and-left, and-right}
use liby_cpp.Http.Request.Stages.{
  advance, from_headers, from_uri, from_method, from_progress, parse,
}

find_index-lacks : (c : ℕ) (w : Text) → lacks c w ≡ true → find_index c w ≡ length w
find_index-lacks c [] h = refl
find_index-lacks c (d ∷ ds) h = ground (arith, find_index-lacks c ds)

-- `std::find` of a byte that does not occur gives the end, never a null pointer.
find_char-lacks :
    {text : Text} {i : ℕ} (c : ℕ) (w : Text)
    → From text i w
    → lacks c w ≡ true
    → find_char text i c ≡ ok (i + length w)
unfolding find_char
find_char-lacks {text} {i} c w f h =
    rw (le→leb i (length text) f.inside, f.same, find_index-lacks c w h) refl

-- Behind the end, `std::find` leaves the text.
find_char-behind :
    (text : Text) (i c : ℕ) → length text < i → find_char text i c ≡ fault out_of_bounds
unfolding find_char
find_char-behind text i c h = rw (lt→leb i (length text) h) refl

-- `parse` of a text without a blank, by a parser that was cleared: `InvalidMethod` unless the text
-- is a whole name of a method, and then a search that starts behind the end of the text.
pub parse-no_blank :
    (p : RequestParser) (text : Text)
    → lacks 32 text ≡ true
    → parse (clear p) text ≡ elim (lookup same text methods) [
      | none ↦ ok (record (clear p) { progress_ = bad_method })
      | some m ↦ fault out_of_bounds
    ]
unfolding parse from_progress from_method from_uri clear parse_method set_method
parse-no_blank p text h =
    let whole : From text 0 (text ++ []) = rw (append-nil text) (From-start text) in
    let behind = find_char-behind text (suc (0 + length text)) 32 (omega arith) in
    rw
      (
        find_char-lacks 32 text (From-start text) h,
        le→leb 0 (0 + length text) (omega arith),
        substring-From text [] whole,
      )
      (elim (Option-cases (lookup same text methods)) [
        | inl e ↦ rw e refl
        | inr (m, e) ↦ rw (e, behind) refl
      ])

-- A last line of one byte without a line feed ends the headers: `Good`, and `bytes_` counts one
-- byte more than the text has.
pub from_headers-one_byte :
    (fuel : ℕ) (p : RequestParser) (text : Text) (i c : ℕ)
    → From text i (c ∷ [])
    → ¬ (c ≡ 10)
    → from_headers (suc fuel) p text i
      ≡ ok (record p { progress_ = good; bytes_ = p.bytes_ + suc (length text - i) })
unfolding from_headers advance
from_headers-one_byte fuel p text i c f ne =
    let size = From-length f in
    let inside : ¬ (i ≡ length text) = λ e. omega (arith, size, e) in
    let absent : lacks 10 (c ∷ []) ≡ true = rw (ne→== c 10 ne) refl in
    let short : (i + 1 == i || i + 1 == suc i) ≡ true = ground arith in
    let count : suc (i + 1) - i ≡ suc (length text - i) = omega (arith, size) in
    rw (ne→== i (length text) inside, find_char-lacks 10 (c ∷ []) f absent, short, count) refl

-- The call does not end normally.
pub Fails {ℓ} : {A : Type ℓ} → Run A → Type ℓ
Fails r = (e : Fault) × (r ≡ fault e)

Fails-bind {ℓ κ} :
    {A : Type ℓ} {B : Type κ} (m : Run A) (f : A → Run B)
    → ((a : A) → m ≡ ok a → Fails (f a))
    → Fails (m >>= f)
unfolding Fails
Fails-bind (ok a) f h = h a refl
Fails-bind (fault e) f h = (e, refl)

skip_right-ge : (i : ℕ) (memory : Text) (j : ℕ) → skip_right i memory ≡ ok j → i ≤ j
unfolding skip_right
skip_right-ge i [] j h = cc
skip_right-ge i (c ∷ cs) j h = elim (Bool-cases (is_space c)) [
  | inl e ↦ omega (arith, skip_right-ge (suc i) cs j (rw e at h))
  | inr e ↦ let k : ok i ≡ ok j = rw e at h in ground arith
]

-- A value that begins behind its end makes `std::string` throw.
late_value {ℓ} :
    {B : Type ℓ} (text : Text) (i mid from end : ℕ) (k : Text → Text → Run B)
    → ((right : ℕ) → skip_right from (drop from text) ≡ ok right → end < right)
    → Fails (
        skip_left text mid >>= λ left. skip_right from (drop from text) >>= λ right.
        substring text i left >>= λ key. substring text right end >>= λ value. k key value)
unfolding Fails substring
late_value text i mid from end k h = Fails-bind (skip_left text mid) _ λ left _.
    Fails-bind (skip_right from (drop from text)) _ λ right e.
      Fails-bind (substring text i left) _ λ key _. rw (lt→leb right end (h right e)) (thrown, refl)

find_index-ge : (c : ℕ) (w r : Text) → lacks c w ≡ true → length w ≤ find_index c (w ++ r)
find_index-ge c [] r h = omega arith
find_index-ge c (d ∷ ds) r h = ground (arith, find_index-ge c ds r)

-- `ParseHeader` of a line without a colon does not end normally: the value would begin behind the
-- end of the line.
pub parse_header-no_colon :
    (p : RequestParser) (text : Text) (i : ℕ) (line r : Text)
    → From text i (line ++ r)
    → lacks 58 line ≡ true
    → Fails (parse_header p text i (i + length line))
unfolding parse_header find_char
parse_header-no_colon p text i line r f h =
    let end = i + length line in
    let found = i + find_index 58 (line ++ r) in
    let late : leb end found ≡ true = le→leb end found (omega (arith, find_index-ge 58 line r h)) in
    rw (le→leb i end (omega arith), le→leb i (length text) f.inside, f.same, late)
      (late_value text i end (suc end) end _
        λ right e. omega (arith, skip_right-ge (suc end) (drop (suc end) text) right e))

-- Every byte of the text is white space.
abbrev pub all_space : Text → Bool
all_space [] = true
all_space (c ∷ cs) = is_space c && all_space cs

skip_right-space :
    (i c : ℕ) (r : Text) → is_space c ≡ true → skip_right i (c ∷ r) ≡ skip_right (suc i) r
unfolding skip_right
skip_right-space i c r h = rw h refl

skip_right-all_space :
    (i : ℕ) (w r : Text) → all_space w ≡ true → skip_right i (w ++ r) ≡ skip_right (i + length w) r
skip_right-all_space i [] r h = let stay : i + 0 ≡ i = omega arith in rw stay refl
skip_right-all_space i (c ∷ cs) r h =
    let next : i + suc (length cs) ≡ suc i + length cs = omega arith in
    let first = skip_right-space i c (cs ++ r) (and-left (is_space c) (all_space cs) h) in
    rw next (first ∙ skip_right-all_space (suc i) cs r (and-right (is_space c) (all_space cs) h))

-- `ParseHeader` of a key and a colon with nothing but white space behind them does not end
-- normally: the search for the value runs into the next line.
pub parse_header-blank_value :
    (p : RequestParser) (text : Text) (i : ℕ) (key blanks : Text) (c : ℕ) (r : Text)
    → From text i (key ++ 58 ∷ (blanks ++ c ∷ r))
    → lacks 58 key ≡ true
    → all_space blanks ≡ true
    → is_space c ≡ true
    → Fails (parse_header p text i (suc (i + length key) + length blanks))
unfolding parse_header
parse_header-blank_value p text i key blanks c r f h blank_all blank_last =
    let mid = i + length key in
    let end = suc mid + length blanks in
    let behind = From-suc (From-add key (58 ∷ (blanks ++ c ∷ r)) f) in
    rw
      (
        le→leb i end (omega arith),
        find_char-From key (blanks ++ c ∷ r) 58 f h,
        lt→leb end mid (omega arith),
      )
      (late_value text i mid (suc mid) end _ λ right e.
        let passed =
          ap (skip_right (suc mid)) behind.same
          ∙ skip_right-all_space (suc mid) blanks (c ∷ r) blank_all
          ∙ skip_right-space end c r blank_last in
        skip_right-ge (suc end) r right (sym passed ∙ e))
