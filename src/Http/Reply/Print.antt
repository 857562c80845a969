-- ===== src/Http/Reply/Print.antt =====
-- src/http/HttpDef.cpp: `Reply::toString`, with the table of the status strings.
use liby_cpp.Base.{
  ℕ, zero, suc, ◌+◌, ◌/◌, ◌%◌, List, [], ◌∷◌, ◌++◌, some, map, ltb, ◌==◌, if◌then◌else◌, Run, ok,
  ◌>>=◌,
}
use liby_cpp.Buffer.{Cell, empty, size, bytes}
use liby_cpp.Http.{Text, same, lookup, assign, get_or_empty, Headers, http_1_1}
use liby_cpp.Http.Request.{print_headers}
use liby_cpp.Http.Reply.{Reply, status_number, content_length}

-- `status_string`
unfoldable pub status_string : List (ℕ × Text)
status_string =
    (200, 79 ∷ 107 ∷ [])
    ∷ (201, 67 ∷ 114 ∷ 101 ∷ 97 ∷ 116 ∷ 101 ∷ 100 ∷ [])
    ∷ (202, 65 ∷ 99 ∷ 99 ∷ 101 ∷ 112 ∷ 116 ∷ 101 ∷ 100 ∷ [])
    ∷ (204, 78 ∷ 111 ∷ 32 ∷ 67 ∷ 111 ∷ 110 ∷ 116 ∷ 101 ∷ 110 ∷ 116 ∷ [])
    ∷ (
      300,
      77 ∷ 117 ∷ 108 ∷ 116 ∷ 105 ∷ 112 ∷ 108 ∷ 101 ∷ 32 ∷ 67 ∷ 104 ∷ 111 ∷ 105 ∷ 99 ∷ 101 ∷ 115
          ∷ [],
    )
    ∷ (
      301,
      77 ∷ 111 ∷ 118 ∷ 101 ∷ 100 ∷ 32 ∷ 80 ∷ 101 ∷ 114 ∷ 109 ∷ 97 ∷ 110 ∷ 101 ∷ 110 ∷ 116 ∷ 108
          ∷ 121 ∷ [],
    )
    ∷ (
      302,
      77 ∷ 111 ∷ 118 ∷ 101 ∷ 100 ∷ 32 ∷ 84 ∷ 101 ∷ 109 ∷ 112 ∷ 111 ∷ 114 ∷ 97 ∷ 114 ∷ 105 ∷ 108
          ∷ 121 ∷ [],
    )
    ∷ (304, 78 ∷ 111 ∷ 116 ∷ 32 ∷ 77 ∷ 111 ∷ 100 ∷ 105 ∷ 102 ∷ 105 ∷ 101 ∷ 100 ∷ [])
    ∷ (
      400,
      66 ∷ 97 ∷ 100 ∷ 32 ∷ 82 ∷ 101 ∷ 113 ∷ 117 ∷ 101 ∷ 115 ∷ 116 ∷ 80 ∷ 97 ∷ 114 ∷ 115 ∷ 101 ∷ 114
          ∷ [],
    )
    ∷ (401, 85 ∷ 110 ∷ 97 ∷ 117 ∷ 116 ∷ 104 ∷ 111 ∷ 114 ∷ 105 ∷ 122 ∷ 101 ∷ 100 ∷ [])
    ∷ (403, 70 ∷ 111 ∷ 114 ∷ 98 ∷ 105 ∷ 100 ∷ 100 ∷ 101 ∷ 110 ∷ [])
    ∷ (404, 78 ∷ 111 ∷ 116 ∷ 32 ∷ 70 ∷ 111 ∷ 117 ∷ 110 ∷ 100 ∷ [])
    ∷ (
      500,
      73 ∷ 110 ∷ 116 ∷ 101 ∷ 114 ∷ 110 ∷ 97 ∷ 108 ∷ 32 ∷ 83 ∷ 101 ∷ 114 ∷ 118 ∷ 101 ∷ 114 ∷ 32 ∷ 69
          ∷ 114 ∷ 114 ∷ 111 ∷ 114 ∷ [],
    )
    ∷ (
      501,
      78 ∷ 111 ∷ 116 ∷ 32 ∷ 73 ∷ 109 ∷ 112 ∷ 108 ∷ 101 ∷ 109 ∷ 101 ∷ 110 ∷ 116 ∷ 101 ∷ 100 ∷ [],
    )
    ∷ (502, 66 ∷ 97 ∷ 100 ∷ 32 ∷ 71 ∷ 97 ∷ 116 ∷ 101 ∷ 119 ∷ 97 ∷ 121 ∷ [])
    ∷ (
      503,
      83 ∷ 101 ∷ 114 ∷ 118 ∷ 105 ∷ 99 ∷ 101 ∷ 32 ∷ 85 ∷ 110 ∷ 97 ∷ 118 ∷ 97 ∷ 105 ∷ 108 ∷ 97 ∷ 98
          ∷ 108 ∷ 101 ∷ [],
    )
    ∷ []

-- `std::to_string` of a size, with a digit for each round of the fuel.
abbrev pub print_digits : ℕ → ℕ → Text
print_digits zero n = []
print_digits (suc fuel) n =
    let rest = print_digits fuel (n / 10) in (if ltb n 10 then [] else rest) ++ (48 + n % 10) ∷ []

unfoldable pub print_number : ℕ → Text
print_number n = print_digits (suc n) n

-- The status line, the headers and the empty line.
unfoldable pub print_head : ℕ → Headers → Text
print_head status headers =
    http_1_1
    ++ (32
        ∷ (get_or_empty (lookup ◌==◌ status status_number)
            ++ (32
                ∷ (get_or_empty (lookup ◌==◌ status status_string)
                    ++ 13 ∷ 10 ∷ print_headers headers []))))

-- `toString()`, which also sets "Content-Length" in `headers_` when there is content.
unfoldable pub to_string : Reply → Run (Reply × List Cell)
to_string r = if empty r.content_ then ok (r, map some (print_head r.status_ r.headers_)) else do
  n ← size r.content_
  bs ← bytes r.content_
  let headers = assign same content_length (print_number n) r.headers_
  ok (record r { headers_ = headers }, map some (print_head r.status_ headers) ++ bs)
