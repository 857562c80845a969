-- ===== src/Http/Reply/Head.antt =====
-- src/http/HttpDef.cpp: `ReplyParser::parse` over the head that `Reply::toString` prints.
use mathlib.Core.List.{append_assoc}
use liby_cpp.Base.{
  ℕ, suc, ◌+◌, ◌-◌, ◌<◌, ◌≡◌, refl, ap, ◌∙◌, true, [], ◌∷◌, ◌++◌, Option, some, arith, ◌==◌, length,
  length-append, pos, ok,
}
use liby_cpp.Http.{Text, lookup, Headers, http_1_1, find_char, substring, blank}
use liby_cpp.Http.Scan.{
  From, lacks, lacks-append, From-length, From-add, From-suc, find_char-From, substring-From,
}
use liby_cpp.Http.Request.{print_header, print_headers}
use liby_cpp.Http.Request.Fields.{line_end-crlf}
use liby_cpp.Http.Request.HeaderLines.{AreHeaders}
use liby_cpp.Http.Request.Roundtrip.{length-print_headers}
use liby_cpp.Http.Reply.{
  ReplyParser, parsing_status, parsing_status_string, parsing_headers, parsing_body, status_number,
  parse_http_version, parse_status, set_status, find_status, parse_status_string, advance,
}
use liby_cpp.Http.Reply.Stages.{from_body, from_status_string, from_status, from_version}
use liby_cpp.Http.Reply.Print.{print_head}
use liby_cpp.Http.Reply.Lines.{from_headers-lines}
use liby_cpp.Http.Reply.Status.{known_number, string_of}

-- The parser before the body, `n` bytes and the headers further on.
abbrev pub ready : ReplyParser → ℕ → Headers → ReplyParser
ready p n hs = record p {
  progress_ = parsing_body;
  bytes_ = p.bytes_ + n + length (print_headers hs []);
  reply = record p.reply { headers_ = hs };
}

from_status_string-printed :
    {text : Text} {i : ℕ} (p : ReplyParser) (v : Text) (hs : Headers) (bs : Text)
    → From text i (v ++ 13 ∷ 10 ∷ print_headers hs bs)
    → lacks 10 v ≡ true
    → AreHeaders [] hs
    → p.reply.headers_ ≡ []
    → from_status_string p text i
      ≡ from_body
          (ready p (suc (suc (length v))) hs)
          text
          (i + suc (suc (length v)) + length (print_headers hs []))
unfolding from_status_string parse_status_string advance
from_status_string-printed {text} {i} p v hs bs f plain a fresh =
    let lines = print_headers hs bs in
    let from : From text i ((v ++ 13 ∷ []) ++ 10 ∷ lines) =
      rw (append_assoc v (13 ∷ []) (10 ∷ lines)) f in
    let last : i + length (v ++ 13 ∷ []) ≡ suc (i + length v) =
      omega (arith, length-append v (13 ∷ [])) in
    let found =
      rw last at
        (find_char-From (v ++ 13 ∷ []) lines 10 from (lacks-append 10 v (13 ∷ []) plain refl)) in
    let next : From text (suc (suc (i + length v))) lines =
      rw last at (From-suc (From-add (v ++ 13 ∷ []) (10 ∷ lines) from)) in
    let size : suc (suc (i + length v)) - i ≡ suc (suc (length v)) = omega arith in
    let place : suc (suc (i + length v)) ≡ i + suc (suc (length v)) = omega arith in
    let fuel : length hs < suc (length text) =
      omega (arith, length-print_headers hs bs, From-length next) in
    let p' : ReplyParser = record p {
      progress_ = parsing_headers;
      bytes_ = p.bytes_ + (suc (suc (i + length v)) - i);
    } in
    let a' : AreHeaders p.reply.headers_ hs = rw fresh a in
    rw
      (
        found,
        line_end-crlf v (10 ∷ lines) f,
        from_headers-lines (suc (length text)) (suc (suc (i + length v))) p' hs bs next a' fuel,
        size,
        fresh,
        place,
      )
      refl

find_status-known :
    (s : ℕ) (w : Text) → lookup ◌==◌ s status_number ≡ some w → find_status (pos s) ≡ some s
find_status-known s w e = rw (find_status, e) refl

parse_status-known :
    {text : Text} {i : ℕ} (p : ReplyParser) (s : ℕ) (w r : Text)
    → From text i (w ++ r)
    → lookup ◌==◌ s status_number ≡ some w
    → parse_status p text i (i + length w)
      ≡ ok (
        true,
        record p { progress_ = parsing_status_string; reply = record p.reply { status_ = s } },
      )
unfolding parse_status set_status
parse_status-known {text} {i} p s w r f known =
    rw (substring-From w r f, (known_number s w known).1)
      (ap (λ (n : Option ℕ). ok (set_status p n)) (find_status-known s w known))

from_status-printed :
    {text : Text} {i : ℕ} (p : ReplyParser) (s : ℕ) (w v : Text) (hs : Headers) (bs : Text)
    → From text i (w ++ 32 ∷ (v ++ 13 ∷ 10 ∷ print_headers hs bs))
    → lookup ◌==◌ s status_number ≡ some w
    → lacks 10 v ≡ true
    → AreHeaders [] hs
    → p.reply.headers_ ≡ []
    → from_status p text i
      ≡ from_body
          (ready
            (record p { reply = record p.reply { status_ = s } })
            (suc (length w) + suc (suc (length v)))
            hs)
          text
          (i + (suc (length w) + suc (suc (length v))) + length (print_headers hs []))
unfolding from_status advance
from_status-printed {text} {i} p s w v hs bs f known plain a fresh =
    let no_blank = (known_number s w known).0 in
    let rest = v ++ 13 ∷ 10 ∷ print_headers hs bs in
    let next : From text (suc (i + length w)) rest = From-suc (From-add w (32 ∷ rest) f) in
    let size : suc (i + length w) - i ≡ suc (length w) = omega arith in
    let p' : ReplyParser = record p {
      progress_ = parsing_status_string;
      bytes_ = p.bytes_ + (suc (i + length w) - i);
      reply = record p.reply { status_ = s };
    } in
    let count : p.bytes_ + suc (length w) + suc (suc (length v))
        ≡ p.bytes_ + (suc (length w) + suc (suc (length v))) =
      omega arith in
    let place : suc (i + length w) + suc (suc (length v))
        ≡ i + (suc (length w) + suc (suc (length v))) =
      omega arith in
    rw
      (
        find_char-From w rest 32 f no_blank,
        parse_status-known p s w (32 ∷ rest) f known,
        from_status_string-printed p' v hs bs next plain a fresh,
        size,
        count,
        place,
      )
      refl

-- How many bytes stand before the headers.
abbrev pub line_size : Text → Text → ℕ
line_size w v = 9 + (suc (length w) + suc (suc (length v)))

pub from_version-printed :
    {text : Text} (p : ReplyParser) (s : ℕ) (w v : Text) (hs : Headers) (bs : Text)
    → From text 0 (http_1_1 ++ 32 ∷ (w ++ 32 ∷ (v ++ 13 ∷ 10 ∷ print_headers hs bs)))
    → lookup ◌==◌ s status_number ≡ some w
    → lacks 10 v ≡ true
    → AreHeaders [] hs
    → p.reply.headers_ ≡ []
    → from_version p text 0
      ≡ from_body
          (ready (record p { reply = record p.reply { status_ = s } }) (line_size w v) hs)
          text
          (line_size w v + length (print_headers hs []))
unfolding from_version parse_http_version advance
from_version-printed {text} p s w v hs bs f known plain a fresh =
    let rest = w ++ 32 ∷ (v ++ 13 ∷ 10 ∷ print_headers hs bs) in
    let found : find_char text 0 blank ≡ ok 8 = find_char-From http_1_1 rest 32 f refl in
    let version : substring text 0 8 ≡ ok http_1_1 = substring-From http_1_1 (32 ∷ rest) f in
    let next : From text 9 rest = From-suc (From-add http_1_1 (32 ∷ rest) f) in
    let p' : ReplyParser = record p { progress_ = parsing_status; bytes_ = p.bytes_ + 9 } in
    let count : p.bytes_ + 9 + (suc (length w) + suc (suc (length v))) ≡ p.bytes_ + line_size w v =
      omega arith in
    rw (found, version, from_status-printed p' s w v hs bs next known plain a fresh, count) refl

print_headers-append : (hs : Headers) (b : Text) → print_headers hs [] ++ b ≡ print_headers hs b
unfolding print_headers
print_headers-append [] b = refl
print_headers-append ((key, value) ∷ hs) b =
    append_assoc (print_header key value) (10 ∷ print_headers hs []) b
    ∙ ap (λ (t : Text). print_header key value ++ 10 ∷ t) (print_headers-append hs b)

pub print_head-append :
    (s : ℕ) (w : Text) (hs : Headers) (b : Text)
    → lookup ◌==◌ s status_number ≡ some w
    → print_head s hs ++ b
      ≡ http_1_1 ++ 32 ∷ (w ++ 32 ∷ (string_of s ++ 13 ∷ 10 ∷ print_headers hs b))
unfolding print_head
print_head-append s w hs b known =
    let v = string_of s in
    rw known (
      ap (λ (t : Text). http_1_1 ++ 32 ∷ t)
        (append_assoc w (32 ∷ (v ++ 13 ∷ 10 ∷ print_headers hs [])) b
          ∙ ap (λ (t : Text). w ++ 32 ∷ t)
              (append_assoc v (13 ∷ 10 ∷ print_headers hs []) b
                ∙ ap (λ (t : Text). v ++ 13 ∷ 10 ∷ t) (print_headers-append hs b))))

pub length-print_head :
    (s : ℕ) (w : Text) (hs : Headers)
    → lookup ◌==◌ s status_number ≡ some w
    → length (print_head s hs) ≡ line_size w (string_of s) + length (print_headers hs [])
unfolding print_head
length-print_head s w hs known =
    let v = string_of s in
    rw known (
      omega (
        arith,
        length-append w (32 ∷ (v ++ 13 ∷ 10 ∷ print_headers hs [])),
        length-append v (13 ∷ 10 ∷ print_headers hs []),
      ))
