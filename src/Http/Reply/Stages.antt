-- ===== src/Http/Reply/Stages.antt =====
-- src/http/HttpDef.cpp: `ReplyParser::parse`, one function for each case of the switch that falls
-- through to the next. The text is [begin, end).
use liby_cpp.Base.{
  ℕ, zero, suc, ◌+◌, ◌-◌, ◌||◌, some, map, ltb, ◌==◌, if◌then◌else◌, length, take, drop, ℤ, pos,
  negsuc, Run, ok, fault, out_of_fuel, assertion_failed, ◌>>=◌,
}
use liby_cpp.Buffer.Moves.{append_bytes}
use liby_cpp.Http.{Text, same, find_char, lookup, get_or_empty, blank, line_feed}
use liby_cpp.Http.Numbers.{stoi}
use liby_cpp.Http.Request.{line_end}
use liby_cpp.Http.Reply.{
  Progress, parse_starting, parsing_version, parsing_status, parsing_status_string, parsing_headers,
  parsing_body, good, ReplyParser, content_length, parse_http_version, parse_status,
  parse_status_string, parse_header, advance, with_key,
}

-- The body for a given length; `append` asserts that the length is positive.
unfoldable pub take_body : ReplyParser → Text → ℕ → ℤ → Run ReplyParser
take_body p text begin (pos zero) = ok (record p { progress_ = good })
take_body p text begin (pos (suc n)) = if ltb (length text - begin) (suc n) then ok p else do
  content ← append_bytes p.reply.content_ (map some (take (suc n) (drop begin text)))
  ok (record p {
    progress_ = good;
    bytes_ = p.bytes_ + suc n;
    reply = record p.reply { content_ = content };
  })
take_body p text begin (negsuc n) = fault assertion_failed

-- `case ParsingBody`
unfoldable pub from_body : ReplyParser → Text → ℕ → Run ReplyParser
from_body p text begin = do
  len ← stoi (get_or_empty (lookup same content_length p.reply.headers_))
  take_body (with_key content_length p) text begin len

-- `case ParsingHeaders`: both ends of the loop fall through to the body.
unfoldable pub from_headers : ℕ → ReplyParser → Text → ℕ → Run ReplyParser
from_headers zero p text begin = fault out_of_fuel
from_headers (suc fuel) p text begin = if begin == length text then from_body p text begin else do
  finish ← find_char text begin line_feed
  if finish == begin || finish == suc begin
      then from_body (advance (record p { progress_ = parsing_body }) begin (suc finish)) text
          (suc finish)
      else (do
        end ← line_end text finish
        r ← parse_header p text begin end
        let rest = from_headers fuel (advance r.1 begin (suc finish)) text (suc finish)
        if r.0 then rest else ok r.1)

-- `case ParsingStatusString`
unfoldable pub from_status_string : ReplyParser → Text → ℕ → Run ReplyParser
from_status_string p text begin = do
  finish ← find_char text begin line_feed
  end ← line_end text finish
  let r = parse_status_string p
  from_headers (suc (length text)) (advance r.1 begin (suc finish)) text (suc finish)

-- `case ParsingStatus`
unfoldable pub from_status : ReplyParser → Text → ℕ → Run ReplyParser
from_status p text begin = do
  finish ← find_char text begin blank
  r ← parse_status p text begin finish
  let rest = from_status_string (advance r.1 begin (suc finish)) text (suc finish)
  if r.0 then rest else ok r.1

-- `case ParsingVersion`
unfoldable pub from_version : ReplyParser → Text → ℕ → Run ReplyParser
from_version p text begin = do
  finish ← find_char text begin blank
  r ← parse_http_version p text begin finish
  let rest = from_status (advance r.1 begin (suc finish)) text (suc finish)
  if r.0 then rest else ok r.1

-- `switch (progress_)`
unfoldable pub from_progress : Progress → ReplyParser → Text → Run ReplyParser
from_progress parse_starting p text = from_version (record p { progress_ = parsing_version }) text 0
from_progress parsing_version p text = from_version p text 0
from_progress parsing_status p text = from_status p text 0
from_progress parsing_status_string p text = from_status_string p text 0
from_progress parsing_headers p text = from_headers (suc (length text)) p text 0
from_progress parsing_body p text = from_body p text 0
from_progress _ p text = ok p

-- `parse(begin, end)`
unfoldable pub parse : ReplyParser → Text → Run ReplyParser
parse p text = from_progress p.progress_ p text
