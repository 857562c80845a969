-- ===== src/Http/Tests.antt =====
-- src/http/HttpDef.cpp: the theorems at concrete texts, and runs of the parser.
use liby_cpp.Base.{◌≡◌, refl, [], ◌∷◌, true, arith, length, ok}
use liby_cpp.Http.{char_at, parse_hex, get_text, get}
use liby_cpp.Http.Request.{
  Request, good, start, clear, to_string, parsing_version, decode_uri, parse_uri,
}
use liby_cpp.Http.Request.HeaderLines.{AreHeaders}
use liby_cpp.Http.Request.Stages.{parse}
use liby_cpp.Http.Request.Ends.{Ends, parse-Ends}
use liby_cpp.Http.Request.Roundtrip.{IsPrintable, parse-to_string}

-- "GET /a?b=c HTTP/1.1", the header "H: v", and the body "x".
abbrev query : Request
query = record {
  method_ = get;
  uri_ = 47 ∷ 97 ∷ [];
  query_ = 98 ∷ 61 ∷ 99 ∷ [];
  headers_ = (72 ∷ [], 118 ∷ []) ∷ [];
  body_ = 120 ∷ [];
}

query-IsPrintable : IsPrintable query
unfolding AreHeaders
query-IsPrintable = record {
  method_from = omega arith;
  method_to = omega arith;
  plain_uri = record { no_blank = refl; no_percent = refl; no_mark = refl; no_nul = refl };
  plain_query = record { no_blank = refl; no_percent = refl; no_mark = refl; no_nul = refl };
  headers = (
    record {
      no_colon = refl;
      key_in_line = refl;
      value_in_line = refl;
      key_ends = refl;
      value_starts = refl;
    },
    refl,
    tt,
  );
}

parse-to_string_example :
    parse (clear start) (to_string query)
    ≡ ok (record {
      request = record query { body_ = [] };
      progress_ = good;
      bytes_ = length (to_string (record query { body_ = [] }));
      http_version_major_ = 1;
      http_version_minor_ = 1;
    })
parse-to_string_example = parse-to_string start query query-IsPrintable

parse-Ends_example : Ends (parse start get_text)
parse-Ends_example = parse-Ends start get_text

-- "%41b?c" as a URI.
parse_uri_run :
    parse_uri start (37 ∷ 52 ∷ 49 ∷ 98 ∷ 63 ∷ 99 ∷ []) 0 6
    ≡ ok (
      true,
      record start {
        progress_ = parsing_version;
        request = record start.request { uri_ = 65 ∷ 98 ∷ []; query_ = 99 ∷ [] };
      },
    )
unfolding parse_uri decode_uri parse_hex char_at
parse_uri_run = refl
