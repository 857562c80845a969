-- ===== src/Http/Request/Roundtrip.antt =====
-- src/http/HttpDef.cpp: `RequestParser::parse` of what `Request::toString` prints.
use liby_cpp.Base.{
  ℕ, zero, suc, ◌+◌, ◌-◌, ◌<◌, ◌≤◌, ◌≡◌, refl, true, [], ◌∷◌, ◌++◌, some, arith, ◌==◌, length,
  length-append, ok,
}
use liby_cpp.Http.{Text, same, lookup, get_or_empty, Headers, methods, methods_string, http_1_1}
use liby_cpp.Http.Scan.{
  From, lacks, lacks-append, From-start, From-length, From-add, From-suc, find_char-From,
}
use liby_cpp.Http.Request.{
  Request, RequestParser, parsing_uri, parsing_version, parsing_headers, good, clear, print_query,
  print_header, print_headers, to_string,
}
use liby_cpp.Http.Request.Fields.{
  IsPlain, parse_method-known, parse_http_version-1_1, line_end-crlf,
}
use liby_cpp.Http.Request.Uri.{parse_uri-printed}
use liby_cpp.Http.Request.HeaderLines.{AreHeaders, from_headers-printed}
use liby_cpp.Http.Request.Stages.{
  advance, from_version, from_uri, from_method, from_progress, parse,
}

-- A request that the parser reads as it was printed: a method of the table, no byte in URI and
-- query that the parser splits at or decodes, headers with distinct keys that it takes apart.
pub record IsPrintable (r : Request) : Type 0 where
  pub method_from : 1 ≤ r.method_
  pub method_to : r.method_ ≤ 4
  pub plain_uri : IsPlain r.uri_
  pub plain_query : IsPlain r.query_
  pub headers : AreHeaders [] r.headers_

-- The name that `toString` prints for a method.
abbrev method_text : ℕ → Text
method_text m = get_or_empty (lookup ◌==◌ m methods_string)

method_text-known :
    (m : ℕ)
    → 1 ≤ m
    → m ≤ 4
    → (lookup same (method_text m) methods ≡ some m) × (lacks 32 (method_text m) ≡ true)
unfolding methods methods_string
method_text-known zero h k = absurd (omega arith)
method_text-known (suc zero) h k = (refl, refl)
method_text-known (suc (suc zero)) h k = (refl, refl)
method_text-known (suc (suc (suc zero))) h k = (refl, refl)
method_text-known (suc (suc (suc (suc zero)))) h k = (refl, refl)
method_text-known (suc (suc (suc (suc (suc m))))) h k = absurd (omega arith)

pub length-print_headers :
    (hs : Headers) (behind : Text) → length hs ≤ length (print_headers hs behind)
unfolding print_headers
length-print_headers [] behind = omega arith
length-print_headers ((key, value) ∷ hs) behind = omega (
  arith,
  length-append (print_header key value) (10 ∷ print_headers hs behind),
  length-print_headers hs behind,
)

print_query-lacks : (q : Text) → lacks 32 q ≡ true → lacks 32 (print_query q) ≡ true
unfolding print_query
print_query-lacks [] h = refl
print_query-lacks (c ∷ cs) h = h

-- The printed lines, counted to the end of the head.
abbrev done : RequestParser → ℕ → Headers → RequestParser
done p n hs = record p {
  progress_ = good;
  bytes_ = p.bytes_ + n + length (print_headers hs []);
  http_version_major_ = 1;
  http_version_minor_ = 1;
  request = record p.request { headers_ = hs };
}

from_version-printed :
    {text : Text} {i : ℕ} (p : RequestParser) (hs : Headers) (behind : Text)
    → From text i (http_1_1 ++ 13 ∷ 10 ∷ print_headers hs behind)
    → AreHeaders [] hs
    → p.request.headers_ ≡ []
    → from_version p text i ≡ ok (done p 10 hs)
unfolding from_version advance
from_version-printed {text} {i} p hs behind f a fresh =
    let lines = print_headers hs behind in
    let last : i + 9 ≡ suc (i + 8) = omega arith in
    let size : suc (suc (i + 8)) - i ≡ 10 = omega arith in
    let found = rw last at (find_char-From (http_1_1 ++ 13 ∷ []) lines 10 f refl) in
    let next : From text (suc (suc (i + 8))) lines =
      rw last at (From-suc (From-add (http_1_1 ++ 13 ∷ []) (10 ∷ lines) f)) in
    let fuel : length hs < suc (length text) =
      omega (arith, length-print_headers hs behind, From-length next) in
    let p' : RequestParser = record p {
      progress_ = parsing_headers;
      http_version_major_ = 1;
      http_version_minor_ = 1;
      bytes_ = p.bytes_ + (suc (suc (i + 8)) - i);
    } in
    let a' : AreHeaders p.request.headers_ hs = rw fresh a in
    rw
      (
        found,
        line_end-crlf http_1_1 (10 ∷ lines) f,
        parse_http_version-1_1 p (13 ∷ 10 ∷ lines) f,
        from_headers-printed (suc (length text)) (suc (suc (i + 8))) p' hs behind next a' fuel,
        size,
        fresh,
      )
      refl

from_uri-printed :
    {text : Text} {i : ℕ} (p : RequestParser) (u q : Text) (hs : Headers) (behind : Text)
    → From text i ((u ++ print_query q) ++ 32 ∷ (http_1_1 ++ 13 ∷ 10 ∷ print_headers hs behind))
    → IsPlain u
    → IsPlain q
    → AreHeaders [] hs
    → p.request.headers_ ≡ []
    → p.request.query_ ≡ []
    → from_uri p text i
      ≡ ok (
          done
            (record p { request = record p.request { uri_ = u; query_ = q } })
            (suc (length (u ++ print_query q)) + 10)
            hs)
unfolding from_uri advance
from_uri-printed {text} {i} p u q hs behind f hu hq a fresh no_query =
    let target = u ++ print_query q in
    let behind_target = http_1_1 ++ 13 ∷ 10 ∷ print_headers hs behind in
    let finish = i + length target in
    let no_blank =
      lacks-append 32 u (print_query q) hu.no_blank (print_query-lacks q hq.no_blank) in
    let count : suc finish - i ≡ suc (length target) = omega arith in
    let next = From-suc (From-add target (32 ∷ behind_target) f) in
    let p' : RequestParser = record p {
      progress_ = parsing_version;
      bytes_ = p.bytes_ + (suc finish - i);
      request = record p.request { uri_ = u; query_ = q };
    } in
    let sum : p.bytes_ + suc (length target) + 10 ≡ p.bytes_ + (suc (length target) + 10) =
      omega arith in
    rw
      (
        find_char-From target behind_target 32 f no_blank,
        parse_uri-printed p u q (32 ∷ behind_target) hu hq no_query f,
        from_version-printed p' hs behind next a fresh,
        count,
        sum,
      )
      refl

-- `parse` of a printed request, by a parser that was cleared, ends with `Good`: method, URI, query
-- and headers are those printed, the version is 1.1, `bytes_` is the length up to the body, and
-- the bytes behind are not looked at.
pub parse-to_string :
    (p : RequestParser) (r : Request)
    → IsPrintable r
    → parse (clear p) (to_string r)
      ≡ ok (record {
        request = record r { body_ = p.request.body_ };
        progress_ = good;
        bytes_ = length (to_string (record r { body_ = [] }));
        http_version_major_ = 1;
        http_version_minor_ = 1;
      })
unfolding parse from_progress from_method clear to_string advance
parse-to_string p r h =
    let w = method_text r.method_ in
    let (known, no_blank) = method_text-known r.method_ h.method_from h.method_to in
    let text = to_string r in
    let target = r.uri_ ++ print_query r.query_ in
    let lines = print_headers r.headers_ r.body_ in
    let behind = target ++ 32 ∷ (http_1_1 ++ 13 ∷ 10 ∷ lines) in
    let f : From text 0 (w ++ 32 ∷ behind) = From-start text in
    let finish = 0 + length w in
    let start = clear p in
    let p' : RequestParser = record start {
      progress_ = parsing_uri;
      bytes_ = 0 + (suc finish - 0);
      request = record start.request { method_ = r.method_ };
    } in
    let uri =
      from_uri-printed p' r.uri_ r.query_ r.headers_ r.body_ (From-suc (From-add w (32 ∷ behind) f))
        h.plain_uri h.plain_query h.headers refl refl in
    let tail = http_1_1 ++ 13 ∷ 10 ∷ print_headers r.headers_ [] in
    let count : p'.bytes_ + (suc (length target) + 10) + length (print_headers r.headers_ [])
        ≡ length (w ++ 32 ∷ (target ++ 32 ∷ tail)) =
      omega
        (arith, length-append w (32 ∷ (target ++ 32 ∷ tail)), length-append target (32 ∷ tail)) in
    rw
      (
        find_char-From w behind 32 f no_blank,
        parse_method-known start w (32 ∷ behind) r.method_ f known,
        uri,
        count,
      )
      refl
