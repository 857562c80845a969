-- ===== src/Http/Request.antt =====
-- src/http/HttpDef.cpp, src/http/HttpDef.h: classes Request and RequestParser.
pub mod Fields
pub mod Uri
pub mod Stages
pub mod HeaderLines
pub mod Roundtrip
pub mod Partial
pub mod Ends
pub mod Counts
use liby_cpp.Base.{
  ℕ, zero, suc, ◌+◌, ◌-◌, Bool, true, false, ◌||◌, List, [], ◌∷◌, ◌++◌, Option, none, some, leb,
  ◌==◌, if◌then◌else◌, length, take, drop, Run, ok, fault, out_of_bounds, out_of_fuel, ◌>>=◌, ◌>>◌,
  assert,
}
use liby_cpp.Http.{
  Text, same, char_at, find_char, substring, is_space, up_to_nul, parse_hex, lookup, assign,
  get_or_empty, Headers, blank, colon, line_feed, carriage_return, invalid_method, methods,
  methods_string, http_1_1, http_1_0,
}

-- The values of `progress_`.
pub data Progress : Type 0 where
  parsing_method parsing_uri parsing_version parsing_headers good : Progress
  bad_method bad_uri bad_version bad_header : Progress

unfoldable pub code : Progress → ℕ
code parsing_method = 1
code parsing_uri = 2
code parsing_version = 3
code parsing_headers = 4
code good = 5
code bad_method = 6
code bad_uri = 7
code bad_version = 8
code bad_header = 9

-- Class `Request`; of `body_` the bytes.
pub record Request : Type 0 where
  pub method_ : ℕ
  pub uri_ : Text
  pub query_ : Text
  pub headers_ : Headers
  pub body_ : Text

-- Class `RequestParser`, the base class a member.
pub record RequestParser : Type 0 where
  pub request : Request
  pub progress_ : Progress
  pub bytes_ : ℕ
  pub http_version_major_ : ℕ
  pub http_version_minor_ : ℕ

unfoldable pub is_error : RequestParser → Bool
is_error p = leb (code bad_method) (code p.progress_)

unfoldable pub is_good : RequestParser → Bool
is_good p = code p.progress_ == code good

-- `clear()`, which leaves the body.
unfoldable pub clear : RequestParser → RequestParser
clear p = record {
  request = record {
    method_ = invalid_method;
    uri_ = [];
    query_ = [];
    headers_ = [];
    body_ = p.request.body_;
  };
  progress_ = parsing_method;
  bytes_ = 0;
  http_version_major_ = 0;
  http_version_minor_ = 0;
}

-- `RequestParser()`
abbrev pub start : RequestParser
start = record {
  request = record { method_ = invalid_method; uri_ = []; query_ = []; headers_ = []; body_ = [] };
  progress_ = parsing_method;
  bytes_ = 0;
  http_version_major_ = 0;
  http_version_minor_ = 0;
}

-- One header without the line feed, as `toString` prints it.
unfoldable pub print_header : Text → Text → Text
print_header key value = key ++ (58 ∷ 32 ∷ (value ++ 13 ∷ []))

-- `for (auto &header : headers_)` of `toString`, the empty line, and what stands behind.
unfoldable pub print_headers : Headers → Text → Text
print_headers [] behind = 13 ∷ 10 ∷ behind
print_headers ((key, value) ∷ rest) behind =
    print_header key value ++ 10 ∷ print_headers rest behind

-- `?` and the query, unless the query is empty.
unfoldable pub print_query : Text → Text
print_query [] = []
print_query (c ∷ cs) = 63 ∷ c ∷ cs

-- `toString()`
unfoldable pub to_string : Request → Text
to_string r =
    get_or_empty (lookup ◌==◌ r.method_ methods_string)
    ++ (32
        ∷ ((r.uri_ ++ print_query r.query_)
            ++ (32 ∷ (http_1_1 ++ 13 ∷ 10 ∷ print_headers r.headers_ r.body_))))

-- What `ParseMethod` does with the search in `methods`; the flag is the value returned.
unfoldable pub set_method : RequestParser → Option ℕ → Bool × RequestParser
set_method p none = (false, record p { progress_ = bad_method })
set_method p (some m) =
    (true, record p { progress_ = parsing_uri; request = record p.request { method_ = m } })

-- `ParseMethod(begin, end)`
unfoldable pub parse_method : RequestParser → Text → ℕ → ℕ → Run (Bool × RequestParser)
parse_method p text begin end = do
  assert (leb begin end)
  method ← substring text begin end
  ok (set_method p (lookup same method methods))

-- The loop of `ParseURI`: what it writes from `temp[j]` on, and `query_index`. Of the URI `n` bytes
-- are left, which the memory begins with; a `%` may take bytes from behind the URI.
unfoldable pub decode_uri : ℕ → ℕ → ℕ → Option ℕ → Text → Run (Option ℕ × Text)
decode_uri fuel zero j query_index memory = ok (query_index, [])
decode_uri zero (suc n) j query_index memory = fault out_of_fuel
decode_uri (suc fuel) (suc n) j query_index [] = fault out_of_bounds
decode_uri (suc fuel) (suc n) j query_index (c ∷ memory) = do
  let skip = if c == 37 then 2 else 0
  d ← if c == 37 then parse_hex memory else ok c
  r ←
      decode_uri fuel (n - skip) (suc j) (if d == 63 then some j else query_index)
        (drop skip memory)
  ok (r.0, (if d == 63 then 0 else d) ∷ r.1)

abbrev pub query_of : Option ℕ → Text → Text → Text
query_of none temp query = query
query_of (some i) temp query = up_to_nul (drop (suc i) temp)

-- `ParseURI(begin, end)`, where `new` succeeds.
unfoldable pub parse_uri : RequestParser → Text → ℕ → ℕ → Run (Bool × RequestParser)
parse_uri p text begin end = do
  assert (leb begin end)
  r ← decode_uri (end - begin) (end - begin) 0 none (drop begin text)
  let temp = r.1 ++ 0 ∷ []
  let old = p.request
  ok (
    true,
    record p {
      progress_ = parsing_version;
      request = record old { query_ = query_of r.0 temp old.query_; uri_ = up_to_nul temp };
    },
  )

-- `ParseHttpVersion(begin, end)`
unfoldable pub parse_http_version : RequestParser → Text → ℕ → ℕ → Run (Bool × RequestParser)
parse_http_version p text begin end = do
  assert (leb begin end)
  if (end - begin) == 8
      then (do
        version ← substring text begin end
        if same http_1_1 version
            then ok (
              true,
              record p {
                progress_ = parsing_headers;
                http_version_major_ = 1;
                http_version_minor_ = 1;
              },
            )
            else if same http_1_0 version
            then ok (
              true,
              record p {
                progress_ = parsing_headers;
                http_version_major_ = 1;
                http_version_minor_ = 0;
              },
            )
            else ok (false, record p { progress_ = bad_version }))
      else ok (false, record p { progress_ = bad_version })

-- `while (isspace(*left)) left--`, from `left + 1` to the new `left + 1`.
unfoldable pub skip_left : Text → ℕ → Run ℕ
skip_left text zero = fault out_of_bounds
skip_left text (suc left) = do
  c ← char_at text left
  let further = skip_left text left
  if is_space c then further else ok (suc left)

-- `while (isspace(*right)) right++`, in the memory from `right` on.
unfoldable pub skip_right : ℕ → Text → Run ℕ
skip_right right [] = fault out_of_bounds
skip_right right (c ∷ memory) =
    let further = skip_right (suc right) memory in if is_space c then further else ok right

-- `ParseHeader(begin, end)`: `std::find` never gives a null pointer, so there is no failure.
unfoldable pub parse_header : RequestParser → Text → ℕ → ℕ → Run (Bool × RequestParser)
parse_header p text begin end = do
  assert (leb begin end)
  found ← find_char text begin colon
  let mid = if leb end found then end else found
  left ← skip_left text mid
  right ← skip_right (suc mid) (drop (suc mid) text)
  key ← substring text begin left
  value ← substring text right end
  let old = p.request
  ok (true, record p { request = record old { headers_ = assign same key value old.headers_ } })

-- The end of a line at `finish`, without the carriage return.
unfoldable pub line_end : Text → ℕ → Run ℕ
line_end text zero = fault out_of_bounds
line_end text (suc before) = do
  c ← char_at text before
  ok (if c == carriage_return then before else suc before)
