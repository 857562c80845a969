-- ===== src/Http/Reply/Lines.antt =====
-- src/http/HttpDef.cpp: `case ParsingHeaders` of `ReplyParser::parse` over the lines that `toString`
-- prints.
use mathlib.Core.List.{append_assoc, append-nil}
use liby_cpp.Base.{
  ℕ, zero, suc, ◌+◌, ◌-◌, ◌<◌, ◌≡◌, refl, sym, true, false, ◌||◌, [], ◌∷◌, ◌++◌, none, arith, ◌==◌,
  length, length-append, ne→==, le→leb, lt→leb, ok,
}
use liby_cpp.Http.{Text, same, lookup, Headers}
use liby_cpp.Http.Scan.{From, From-length, From-add, From-suc, find_char-From, substring-From}
use liby_cpp.Http.Request.{print_header, print_headers}
use liby_cpp.Http.Request.Fields.{skip_left-solid, skip_right-solid}
use liby_cpp.Http.Request.HeaderLines.{
  IsHeader, AreHeaders, assign-new, line_stop, header-body, length-print_header, find_line,
  cut_line,
}
use liby_cpp.Http.Reply.{ReplyParser, parsing_body, parse_header, advance}
use liby_cpp.Http.Reply.Stages.{from_headers, from_body}

-- `ParseHeader` of a line that is not the last one, with a new key.
read_line :
    {text : Text} {i : ℕ} (p : ReplyParser) (key value r : Text)
    → From text i (print_header key value ++ 10 ∷ r)
    → IsHeader key value
    → lookup same key p.reply.headers_ ≡ none
    → parse_header p text i (line_stop i key value)
      ≡ ok (
        true,
        record p { reply = record p.reply { headers_ = p.reply.headers_ ++ (key, value) ∷ [] } },
      )
unfolding parse_header
read_line {text} {i} p key value r f h new =
    let from : From text i (key ++ 58 ∷ 32 ∷ (value ++ 13 ∷ 10 ∷ r)) =
      rw
        (
          sym (append_assoc key (58 ∷ 32 ∷ value) (13 ∷ 10 ∷ r)),
          sym (header-body key value (10 ∷ r)),
        )
        f in
    let mid = i + length key in
    let stop = line_stop i key value in
    let behind = From-suc (From-add key (58 ∷ 32 ∷ (value ++ 13 ∷ 10 ∷ r)) from) in
    rw
      (
        le→leb i stop (omega arith),
        find_char-From key (32 ∷ (value ++ 13 ∷ 10 ∷ r)) 58 from h.no_colon,
        lt→leb stop mid (omega arith),
        skip_left-solid key (58 ∷ 32 ∷ (value ++ 13 ∷ 10 ∷ r)) from h.key_ends,
        behind.same,
        skip_right-solid (suc mid) value (13 ∷ 10 ∷ r) h.value_starts,
        substring-From key (58 ∷ 32 ∷ (value ++ 13 ∷ 10 ∷ r)) from,
        substring-From value (13 ∷ 10 ∷ r) (From-suc behind),
        assign-new key value p.reply.headers_ new,
      )
      refl

-- The lines of `toString` are read into the map, and the body is next.
pub from_headers-lines :
    {text : Text} (fuel : ℕ) (i : ℕ) (p : ReplyParser) (hs : Headers) (behind : Text)
    → From text i (print_headers hs behind)
    → AreHeaders p.reply.headers_ hs
    → length hs < fuel
    → from_headers fuel p text i
      ≡ from_body
          (record p {
            progress_ = parsing_body;
            bytes_ = p.bytes_ + length (print_headers hs []);
            reply = record p.reply { headers_ = p.reply.headers_ ++ hs };
          })
          text
          (i + length (print_headers hs []))
unfolding from_headers print_headers advance AreHeaders
from_headers-lines zero i p hs behind f a h = absurd (omega arith)
from_headers-lines {text} (suc fuel) i p [] behind f a h =
    let inside : ¬ (i ≡ length text) = λ e. omega (arith, From-length f, e) in
    let first : i + 1 ≡ suc i = omega arith in
    let found = rw first at (find_char-From (13 ∷ []) behind 10 f refl) in
    let short : (suc i == i || suc i == suc i) ≡ true = ground arith in
    let size : suc (suc i) - i ≡ 2 = omega arith in
    let two : i + 2 ≡ suc (suc i) = omega arith in
    rw (ne→== i (length text) inside, found, short, size, two, append-nil p.reply.headers_) refl
from_headers-lines {text} (suc fuel) i p ((key, value) ∷ hs) behind f (good_line, new, more) h =
    let r = print_headers hs behind in
    let finish = suc (line_stop i key value) in
    let size = length-print_header i key value in
    let line = print_header key value in
    let inside : ¬ (i ≡ length text) =
      λ e. omega (arith, From-length f, length-append line (10 ∷ r), e) in
    let long : (finish == i || finish == suc i) ≡ false = ground arith in
    let next : From text (suc finish) r = rw size at (From-suc (From-add line (10 ∷ r) f)) in
    let old = p.reply.headers_ in
    let p' : ReplyParser = record p {
      reply = record p.reply { headers_ = old ++ (key, value) ∷ [] };
    } in
    let lines = print_headers hs [] in
    let count : p.bytes_ + (suc finish - i) + length lines
        ≡ p.bytes_ + length (line ++ 10 ∷ lines) =
      omega (arith, size, length-append line (10 ∷ lines)) in
    let place : suc finish + length lines ≡ i + length (line ++ 10 ∷ lines) =
      omega (arith, size, length-append line (10 ∷ lines)) in
    let rest =
      from_headers-lines fuel (suc finish) (advance p' i (suc finish)) hs behind next more
        (omega arith) in
    rw
      (
        ne→== i (length text) inside,
        find_line key value r f good_line,
        long,
        cut_line key value r f,
        read_line p key value r f good_line new,
        rest,
        count,
        place,
        append_assoc old ((key, value) ∷ []) hs,
      )
      refl
