-- ===== src/Http/Request/Stages.antt =====
-- src/http/HttpDef.cpp: `RequestParser::parse`, one function for each case of the switch that falls
-- through to the next. The text is [begin, end).
use liby_cpp.Base.{
  ℕ, zero, suc, ◌+◌, ◌-◌, ◌||◌, ◌==◌, if◌then◌else◌, length, Run, ok, fault, out_of_fuel, ◌>>=◌,
}
use liby_cpp.Http.{Text, find_char, blank, line_feed}
use liby_cpp.Http.Request.{
  Progress, parsing_method, parsing_uri, parsing_version, parsing_headers, good, RequestParser,
  parse_method, parse_uri, parse_http_version, parse_header, line_end,
}

-- `bytes_ += finish - begin`
unfoldable pub advance : RequestParser → ℕ → ℕ → RequestParser
advance p begin finish = record p { bytes_ = p.bytes_ + (finish - begin) }

-- `case ParsingHeaders`
unfoldable pub from_headers : ℕ → RequestParser → Text → ℕ → Run RequestParser
from_headers zero p text begin = fault out_of_fuel
from_headers (suc fuel) p text begin = if begin == length text then ok p else do
  finish ← find_char text begin line_feed
  if finish == begin || finish == suc begin
      then ok (advance (record p { progress_ = good }) begin (suc finish))
      else (do
        end ← line_end text finish
        r ← parse_header p text begin end
        let rest = from_headers fuel (advance r.1 begin (suc finish)) text (suc finish)
        if r.0 then rest else ok r.1)

-- `case ParsingVersion`
unfoldable pub from_version : RequestParser → Text → ℕ → Run RequestParser
from_version p text begin = do
  finish ← find_char text begin line_feed
  end ← line_end text finish
  r ← parse_http_version p text begin end
  let rest = from_headers (suc (length text)) (advance r.1 begin (suc finish)) text (suc finish)
  if r.0 then rest else ok r.1

-- `case ParsingURI`
unfoldable pub from_uri : RequestParser → Text → ℕ → Run RequestParser
from_uri p text begin = do
  finish ← find_char text begin blank
  r ← parse_uri p text begin finish
  let rest = from_version (advance r.1 begin (suc finish)) text (suc finish)
  if r.0 then rest else ok r.1

-- `case ParsingMethod`
unfoldable pub from_method : RequestParser → Text → ℕ → Run RequestParser
from_method p text begin = do
  finish ← find_char text begin blank
  r ← parse_method p text begin finish
  let rest = from_uri (advance r.1 begin (suc finish)) text (suc finish)
  if r.0 then rest else ok r.1

-- `switch (progress_)`
unfoldable pub from_progress : Progress → RequestParser → Text → Run RequestParser
from_progress parsing_method p text = from_method p text 0
from_progress parsing_uri p text = from_uri p text 0
from_progress parsing_version p text = from_version p text 0
from_progress parsing_headers p text = from_headers (suc (length text)) p text 0
from_progress _ p text = ok p

-- `parse(begin, end)`
unfoldable pub parse : RequestParser → Text → Run RequestParser
parse p text = from_progress p.progress_ p text
