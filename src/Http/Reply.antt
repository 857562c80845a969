-- ===== src/Http/Reply.antt =====
-- src/http/HttpDef.cpp, src/http/HttpDef.h: struct Reply and struct ReplyParser.
pub mod Stages
pub mod Body
pub mod Print
mod Digits
mod Lines
mod Status
mod Head
pub mod ReadBack
use liby_cpp.Base.{
  ℕ, zero, suc, ◌+◌, ◌-◌, Bool, true, false, ◌||◌, List, [], ◌∷◌, ◌++◌, Option, none, some, map,
  leb, ltb, ◌==◌, if◌then◌else◌, length, take, drop, ℤ, pos, negsuc, Run, ok, fault, thrown,
  out_of_fuel, assertion_failed, ◌>>=◌, ◌>>◌, assert,
}
use liby_cpp.Buffer.{Buffer, Cell, default_buffer, retrieve_all, empty, size, bytes}
use liby_cpp.Buffer.Moves.{append_bytes}
use liby_cpp.Http.{
  Text, same, find_char, substring, lookup, assign, get_or_empty, Headers, blank, colon, line_feed,
  http_1_1,
}
use liby_cpp.Http.Numbers.{stoi}
use liby_cpp.Http.Request.{skip_left, skip_right, line_end}

pub record Reply : Type 0 where
  pub status_ : ℕ
  pub content_ : Buffer
  pub headers_ : Headers

-- The values of `progress_`.
pub data Progress : Type 0 where
  parse_starting parsing_version parsing_status parsing_status_string : Progress
  parsing_headers parsing_body good : Progress
  bad_version bad_status bad_status_string bad_header : Progress

unfoldable pub code : Progress → ℕ
code parse_starting = 0
code parsing_version = 1
code parsing_status = 2
code parsing_status_string = 3
code parsing_headers = 4
code parsing_body = 5
code good = 6
code bad_version = 7
code bad_status = 8
code bad_status_string = 9
code bad_header = 10

pub record ReplyParser : Type 0 where
  pub reply : Reply
  pub bytes_ : ℕ
  pub progress_ : Progress

unfoldable pub is_error : ReplyParser → Bool
is_error p = leb (code bad_version) (code p.progress_)

unfoldable pub is_good : ReplyParser → Bool
is_good p = code p.progress_ == code good

-- `ReplyParser()`; `status_` is not initialised.
abbrev pub start : ℕ → ReplyParser
start garbage = record {
  reply = record { status_ = garbage; content_ = default_buffer; headers_ = [] };
  bytes_ = 0;
  progress_ = parse_starting;
}

-- `clear()`
unfoldable pub clear : ReplyParser → ReplyParser
clear p = record {
  reply = record { status_ = 0; content_ = retrieve_all p.reply.content_; headers_ = [] };
  bytes_ = 0;
  progress_ = parse_starting;
}

-- The keys of `status_number` with the digits.
unfoldable pub status_number : List (ℕ × Text)
status_number =
    (200, 50 ∷ 48 ∷ 48 ∷ [])
    ∷ (201, 50 ∷ 48 ∷ 49 ∷ [])
    ∷ (202, 50 ∷ 48 ∷ 50 ∷ [])
    ∷ (204, 50 ∷ 48 ∷ 52 ∷ [])
    ∷ (300, 51 ∷ 48 ∷ 48 ∷ [])
    ∷ (301, 51 ∷ 48 ∷ 49 ∷ [])
    ∷ (302, 51 ∷ 48 ∷ 50 ∷ [])
    ∷ (304, 51 ∷ 48 ∷ 52 ∷ [])
    ∷ (400, 52 ∷ 48 ∷ 48 ∷ [])
    ∷ (401, 52 ∷ 48 ∷ 49 ∷ [])
    ∷ (403, 52 ∷ 48 ∷ 51 ∷ [])
    ∷ (404, 52 ∷ 48 ∷ 52 ∷ [])
    ∷ (500, 53 ∷ 48 ∷ 48 ∷ [])
    ∷ (501, 53 ∷ 48 ∷ 49 ∷ [])
    ∷ (502, 53 ∷ 48 ∷ 50 ∷ [])
    ∷ (503, 53 ∷ 48 ∷ 51 ∷ [])
    ∷ []

-- "Content-Length"
abbrev pub content_length : Text
content_length = 67 ∷ 111 ∷ 110 ∷ 116 ∷ 101 ∷ 110 ∷ 116 ∷ 45 ∷ 76 ∷ 101 ∷ 110 ∷ 103 ∷ 116 ∷ 104 ∷ []

-- `ParseHttpVersion(begin, end)`; the flag is the value returned.
unfoldable pub parse_http_version : ReplyParser → Text → ℕ → ℕ → Run (Bool × ReplyParser)
parse_http_version p text begin end = do
  assert (leb begin end)
  if (end - begin) == 8
      then (do
        version ← substring text begin end
        ok (
            if same http_1_1 version
            then (true, record p { progress_ = parsing_status })
            else (false, record p { progress_ = bad_version })))
      else ok (false, record p { progress_ = bad_version })

-- The search of a status in `status_number`.
abbrev pub find_status : ℤ → Option ℕ
find_status (pos n) = elim (lookup ◌==◌ n status_number) [ none ↦ none | some t ↦ some n ]
find_status (negsuc n) = none

unfoldable pub set_status : ReplyParser → Option ℕ → Bool × ReplyParser
set_status p none = (false, p)
set_status p (some n) =
    (true, record p { progress_ = parsing_status_string; reply = record p.reply { status_ = n } })

-- `ParseStatus(begin, end)`, which leaves `progress_` when it finds nothing.
unfoldable pub parse_status : ReplyParser → Text → ℕ → ℕ → Run (Bool × ReplyParser)
parse_status p text begin end = do
  t ← substring text begin end
  status ← stoi t
  ok (set_status p (find_status status))

-- `ParseStatusString(begin, end)`
unfoldable pub parse_status_string : ReplyParser → Bool × ReplyParser
parse_status_string p = (true, record p { progress_ = parsing_headers })

-- `ParseHeader(begin, end)`
unfoldable pub parse_header : ReplyParser → Text → ℕ → ℕ → Run (Bool × ReplyParser)
parse_header p text begin end = do
  assert (leb begin end)
  found ← find_char text begin colon
  let mid = if leb end found then end else found
  left ← skip_left text mid
  right ← skip_right (suc mid) (drop (suc mid) text)
  key ← substring text begin left
  value ← substring text right end
  let old = p.reply
  ok (true, record p { reply = record old { headers_ = assign same key value old.headers_ } })

-- `bytes_ += finish - begin`
unfoldable pub advance : ReplyParser → ℕ → ℕ → ReplyParser
advance p begin finish = record p { bytes_ = p.bytes_ + (finish - begin) }

-- `headers_[key]`, which puts an empty text where there is no value.
unfoldable pub with_key : Text → ReplyParser → ReplyParser
with_key key p =
    let old = p.reply in
    let value = get_or_empty (lookup same key old.headers_) in
    record p { reply = record old { headers_ = assign same key value old.headers_ } }
