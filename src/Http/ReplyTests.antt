-- ===== src/Http/ReplyTests.antt =====
-- src/http/HttpDef.cpp: the theorems on replies at concrete texts.
use liby_cpp.Base.{◌++◌, length, map, ◌≡◌, refl, [], ◌∷◌, some, none, arith, ok, Returns}
use liby_cpp.Buffer.{default_buffer, empty}
use liby_cpp.Buffer.Content.{IsValid, Holds}
use liby_cpp.Http.Reply.{Reply, ReplyParser, parsing_body, clear, content_length, status_number}
use liby_cpp.Http.Reply.Print.{to_string, print_head, print_number, status_string}
use liby_cpp.Http.Request.{print_headers}
use liby_cpp.Http.Reply.Stages.{parse}
use liby_cpp.Http.{Text}
use liby_cpp.Http.Request.HeaderLines.{AreHeaders}
use liby_cpp.Http.Reply.ReadBack.{HasRead, parse-to_string_reply}

-- A parser with one byte of content.
abbrev before_body : ReplyParser
before_body = record {
  reply = record {
    status_ = 200;
    content_ = record {
      buffer = some (none ∷ some 7 ∷ none ∷ []);
      left_index = 1;
      right_index = 2;
      capacity_ = 3;
    };
    headers_ = (content_length, 50 ∷ []) ∷ [];
  };
  bytes_ = 40;
  progress_ = parsing_body;
}

before_body-IsValid : IsValid before_body.reply.content_
before_body-IsValid = record { ordered = omega arith; within = omega arith; sized = refl }

-- A reply without content and headers: "HTTP/1.1 404 Not Found" and the empty line.
to_string_run :
    to_string (record { status_ = 404; content_ = default_buffer; headers_ = [] })
    ≡ ok (
      record { status_ = 404; content_ = default_buffer; headers_ = [] },
      map some (
          72 ∷ 84 ∷ 84 ∷ 80 ∷ 47 ∷ 49 ∷ 46 ∷ 49 ∷ 32 ∷ 52 ∷ 48 ∷ 52 ∷ 32 ∷ 78 ∷ 111 ∷ 116 ∷ 32 ∷ 70
          ∷ 111 ∷ 117 ∷ 110 ∷ 100 ∷ 13 ∷ 10 ∷ 13 ∷ 10 ∷ []),
    )
unfolding to_string print_head status_number status_string print_headers empty
to_string_run = refl

-- "200" with the header "A: b" and two bytes of content.
abbrev answer : Reply
answer = record {
  status_ = 200;
  content_ = record {
    buffer = some (some 72 ∷ some 105 ∷ []);
    left_index = 0;
    right_index = 2;
    capacity_ = 2;
  };
  headers_ = (65 ∷ [], 98 ∷ []) ∷ [];
}

answer-Holds : Holds (map some (72 ∷ 105 ∷ [])) answer.content_
answer-Holds = record {
  valid = record { ordered = omega arith; within = omega arith; sized = refl };
  same = refl;
}

answer-AreHeaders : AreHeaders [] answer.headers_
unfolding AreHeaders
answer-AreHeaders = (
  record {
    no_colon = refl;
    key_in_line = refl;
    value_in_line = refl;
    key_ends = refl;
    value_starts = refl;
  },
  refl,
  tt,
)

-- The first byte of the next reply stands behind.
parse-to_string_reply_example :
    Returns
      (λ printed.
        (text : Text) × (printed.1 ≡ map some text)
        × Returns
            (HasRead 200
              ((65 ∷ [], 98 ∷ []) ∷ (content_length, print_number 2) ∷ [])
              (72 ∷ 105 ∷ [])
              (length text))
            (parse (clear before_body) (text ++ 72 ∷ [])))
      (to_string answer)
unfolding status_number
parse-to_string_reply_example =
    parse-to_string_reply before_body answer (50 ∷ 48 ∷ 48 ∷ []) (72 ∷ 105 ∷ []) (72 ∷ [])
      before_body-IsValid refl answer-AreHeaders refl answer-Holds (omega arith) (omega arith)
