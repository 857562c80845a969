-- ===== src/Http/Request/Fields.antt =====
-- src/http/HttpDef.cpp: what the parsing functions find in a field that is well formed.
use mathlib.Core.List.{append_assoc}
use liby_cpp.Base.{
  ℕ, suc, ◌+◌, ◌-◌, ◌≡◌, refl, sym, ap, Bool, true, false, not, ◌&&◌, [], ◌∷◌, ◌++◌, Option, some,
  arith, ◌==◌, length, length-append, le→leb, lt→leb, ok,
}
use liby_cpp.Http.{Text, same, is_space, up_to_nul, lookup, assign, methods, http_1_1}
use liby_cpp.Http.Scan.{
  From, lacks, solid_start, solid_end, solid_end-last, From-add, From-suc, find_char-From,
  substring-From, char_at-From,
}
use liby_cpp.Http.Request.{
  RequestParser, parsing_uri, parsing_headers, set_method, parse_method, decode_uri,
  parse_http_version, skip_left, skip_right, parse_header, line_end,
}

-- `ParseMethod` of a name in the table.
pub parse_method-known :
    {text : Text} {i : ℕ} (p : RequestParser) (w r : Text) (m : ℕ)
    → From text i (w ++ r)
    → lookup same w methods ≡ some m
    → parse_method p text i (i + length w)
      ≡ ok (true, record p { progress_ = parsing_uri; request = record p.request { method_ = m } })
unfolding parse_method set_method
parse_method-known {text} {i} p w r m f known =
    rw (le→leb i (i + length w) (omega arith), substring-From w r f, known) refl

-- `ParseHttpVersion` of "HTTP/1.1".
pub parse_http_version-1_1 :
    {text : Text} {i : ℕ} (p : RequestParser) (r : Text)
    → From text i (http_1_1 ++ r)
    → parse_http_version p text i (i + 8)
      ≡ ok (
        true,
        record p { progress_ = parsing_headers; http_version_major_ = 1; http_version_minor_ = 1 },
      )
unfolding parse_http_version
parse_http_version-1_1 {text} {i} p r f =
    let size : (i + 8) - i ≡ 8 = omega arith in
    rw (le→leb i (i + 8) (omega arith), size, substring-From http_1_1 r f) refl

-- The end of a line that a carriage return ends.
pub line_end-crlf :
    {text : Text} {i : ℕ} (w r : Text)
    → From text i (w ++ 13 ∷ r)
    → line_end text (suc (i + length w)) ≡ ok (i + length w)
unfolding line_end
line_end-crlf w r f = rw (char_at-From (From-add w (13 ∷ r) f)) refl

-- The key of a header ends where the colon is, if its last byte is no white space.
pub skip_left-solid :
    {text : Text} {i : ℕ} (w r : Text)
    → From text i (w ++ r)
    → solid_end w ≡ true
    → skip_left text (i + length w) ≡ ok (i + length w)
unfolding skip_left
skip_left-solid {text} {i} w r f h =
    let (v, c, e, dark) = solid_end-last w h in
    let size : i + length w ≡ suc (i + length v) =
      omega (arith, ap length e, length-append v (c ∷ [])) in
    let from : From text i (v ++ c ∷ r) = rw (sym (append_assoc v (c ∷ []) r), sym e) f in
    rw (size, char_at-From (From-add v (c ∷ r) from), dark) refl

not-true : (b : Bool) → not b ≡ true → b ≡ false
not-true b h = ground arith

-- The value of a header starts behind the blank, if its first byte is no white space.
pub skip_right-solid :
    (i : ℕ) (w r : Text) → solid_start w ≡ true → skip_right i (32 ∷ w ++ r) ≡ ok (suc i)
unfolding skip_right
skip_right-solid i [] r h = cc
skip_right-solid i (c ∷ cs) r h = rw (not-true (is_space c) h) refl

-- `ParseHeader` of `key: value`.
pub parse_header-solid :
    {text : Text} {i : ℕ} (p : RequestParser) (key value r : Text)
    → From text i (key ++ 58 ∷ 32 ∷ (value ++ 13 ∷ r))
    → lacks 58 key ≡ true
    → solid_end key ≡ true
    → solid_start value ≡ true
    → parse_header p text i (suc (suc (i + length key)) + length value)
      ≡ ok (
        true,
        record p {
          request = record p.request { headers_ = assign same key value p.request.headers_ };
        },
      )
unfolding parse_header
parse_header-solid {text} {i} p key value r f no_colon at_end at_start =
    let mid = i + length key in
    let stop = suc (suc mid) + length value in
    let behind = From-suc (From-add key (58 ∷ 32 ∷ (value ++ 13 ∷ r)) f) in
    rw
      (
        le→leb i stop (omega arith),
        find_char-From key (32 ∷ (value ++ 13 ∷ r)) 58 f no_colon,
        lt→leb stop mid (omega arith),
        skip_left-solid key (58 ∷ 32 ∷ (value ++ 13 ∷ r)) f at_end,
        behind.same,
        skip_right-solid (suc mid) value (13 ∷ r) at_start,
        substring-From key (58 ∷ 32 ∷ (value ++ 13 ∷ r)) f,
        substring-From value (13 ∷ r) (From-suc behind),
      )
      refl

-- What the decoding of a URI leaves as it is and does not stop at.
pub record IsPlain (w : Text) : Type 0 where
  pub no_blank : lacks 32 w ≡ true
  pub no_percent : lacks 37 w ≡ true
  pub no_mark : lacks 63 w ≡ true
  pub no_nul : lacks 0 w ≡ true

pub up_to_nul-lacks : (w r : Text) → lacks 0 w ≡ true → up_to_nul (w ++ 0 ∷ r) ≡ w
up_to_nul-lacks [] r h = refl
up_to_nul-lacks (c ∷ cs) r h = ground (arith, up_to_nul-lacks cs r)

pub and-left : (a b : Bool) → (a && b) ≡ true → a ≡ true
and-left a b h = ground arith

pub and-right : (a b : Bool) → (a && b) ≡ true → b ≡ true
and-right a b h = ground arith

-- The decoding copies bytes that are no `%` and no `?`.
pub decode_uri-plain :
    (w r t : Text) (fuel n j : ℕ) (q q' : Option ℕ)
    → lacks 37 w ≡ true
    → lacks 63 w ≡ true
    → decode_uri fuel n (j + length w) q r ≡ ok (q', t)
    → decode_uri (length w + fuel) (length w + n) j q (w ++ r) ≡ ok (q', w ++ t)
unfolding decode_uri
decode_uri-plain [] r t fuel n j q q' a b h =
    let shift : (x : ℕ) → 0 + x ≡ x = λ x. omega arith in
    let stay : j + 0 ≡ j = omega arith in rw (shift fuel, shift n) (rw stay at h)
decode_uri-plain (c ∷ cs) r t fuel n j q q' a b h =
    let shift : (x : ℕ) → suc (length cs) + x ≡ suc (length cs + x) = λ x. omega arith in
    let stay : length cs + n - 0 ≡ length cs + n = omega arith in
    let next : j + suc (length cs) ≡ suc j + length cs = omega arith in
    let no_37 = not-true (c == 37) (and-left (not (c == 37)) (lacks 37 cs) a) in
    let no_63 = not-true (c == 63) (and-left (not (c == 63)) (lacks 63 cs) b) in
    let rest =
      decode_uri-plain cs r t fuel n (suc j) q q' (and-right (not (c == 37)) (lacks 37 cs) a)
        (and-right (not (c == 63)) (lacks 63 cs) b) (rw next at h) in
    rw (shift fuel, shift n, no_37, no_63, stay, rest) refl
