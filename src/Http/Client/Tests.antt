-- ===== src/Http/Client/Tests.antt =====
-- src/http/HttpClient.cpp: the theorems at a client with two requests.
use mathlib.Core.Path.{subst}
use mathlib.Core.List.{append-nil}
use liby_cpp.Base.{
  sym, ap, false, drop, ◌-◌, Returns-inv, ℕ, ◌≡◌, refl, true, List, [], ◌∷◌, ◌++◌, none, some,
  arith, Run, ok, fault, out_of_fuel, pos, leb, ◌==◌, Returns, returns,
}
use liby_cpp.Buffer.{default_buffer}
use liby_cpp.Buffer.Content.{IsValid}
use liby_cpp.Http.{Text, get}
use liby_cpp.Http.Numbers.{stoi}
use liby_cpp.Http.Example.{
  quiet_net, idle_class, idle_class-Keeps, connected, connected-IsLive, buffer_of, buffer_of-Holds,
  buffer_of-room,
}
use liby_cpp.Http.Request.{Request}
use liby_cpp.Http.Reply.{
  Reply, ReplyParser, parsing_body, content_length, is_error, is_good, code, clear, Progress,
  bad_version, good,
}
use liby_cpp.Http.Reply.Stages.{parse, from_progress, from_body}
use liby_cpp.Http.Reply.Body.{length_text, HasTaken, from_body_correct}
use liby_cpp.Http.Scan.{From-start}
use liby_cpp.Http.Client.{Client, ClientHandlers, send_request, handle_read_event}
use liby_cpp.Http.Client.Requests.{Requested, send_request-Requested}
use liby_cpp.Http.Client.Replies.{
  Replied, no_more, one_more, Called, Delivered, handle_read_event-Delivered,
}
use liby_cpp.Http.Client.Spin.{IsWaiting, handle_read_event-spins}

abbrev handlers : ClientHandlers
handlers = record { read_handler = 1; erro_handler = 2; request_sent = 3 }

-- "GET /a" with the body "xy".
abbrev request : Request
request = record {
  method_ = get;
  uri_ = 47 ∷ 97 ∷ [];
  query_ = [];
  headers_ = [];
  body_ = 120 ∷ 121 ∷ [];
}

-- The head of a reply with a body of three bytes has come.
abbrev before_body : ReplyParser
before_body = record {
  reply = record {
    status_ = 200;
    content_ = default_buffer;
    headers_ = (content_length, 51 ∷ []) ∷ [];
  };
  bytes_ = 40;
  progress_ = parsing_body;
}

-- A client that waits for a reply and has one more request; the handlers keep a list of calls.
abbrev client : Text → Client quiet_net ℕ (List (ℕ × Reply))
client text = record {
  state = record {
    parser_ = before_body;
    request_lists_ = (request, none) ∷ [];
    send_request_lists_ = (request, some 7) ∷ [];
    http_client_ = true;
    http_conn_ = true;
  };
  world = connected (buffer_of text);
  user = [];
}

abbrev note :
    ℕ → Client quiet_net ℕ (List (ℕ × Reply)) → Run (Client quiet_net ℕ (List (ℕ × Reply)))
note h c = ok (record c { user = c.user ++ (h, c.state.parser_.reply) ∷ [] })

abbrev some_text : Text
some_text = 120 ∷ []

send_request-Requested_example :
    Returns
      (Requested 3 (request, none) [] (client some_text))
      (send_request quiet_net idle_class handlers (client some_text))
send_request-Requested_example =
    send_request-Requested quiet_net idle_class handlers idle_class-Keeps (client some_text)
      (request, none) [] refl refl (connected-IsLive (buffer_of some_text))

before_body-IsWaiting : IsWaiting 3 before_body
unfolding stoi
before_body-IsWaiting = record { in_body = refl; promised = refl }

handle_read_event-spins_example :
    handle_read_event quiet_net idle_class handlers note 100 (client some_text) ≡ fault out_of_fuel
handle_read_event-spins_example =
    handle_read_event-spins quiet_net idle_class handlers note 100 3 (client some_text) some_text
      before_body-IsWaiting (omega arith) (omega arith) (buffer_of-Holds some_text)
      (buffer_of-room some_text (omega arith))

abbrev body : Text
body = 120 ∷ 121 ∷ 122 ∷ []

no_content : IsValid before_body.reply.content_
no_content = record { ordered = omega arith; within = omega arith; sized = refl }

three : stoi (length_text before_body) ≡ ok (pos 3)
unfolding stoi
three = refl

-- What the parser makes of the body.
abbrev arrived :
    (q : ReplyParser) × (from_body before_body body 0 ≡ ok q) × HasTaken before_body body q
arrived =
    Returns-inv (
      from_body_correct before_body body 0 body [] no_content (From-start body) (omega arith) three)

abbrev reply : ReplyParser
reply = arrived.0

reply-done : (is_error reply ≡ false) × (is_good reply ≡ true)
unfolding is_error is_good code
reply-done = (
  ap (λ (s : Progress). leb (code bad_version) (code s)) arrived.2.finished,
  ap (λ (s : Progress). code s == code good) arrived.2.finished,
)

reply-Replied : Replied before_body body (reply ∷ [])
unfolding parse from_progress
reply-Replied =
    let behind : drop (reply.bytes_ - 40) body ≡ [] =
      ap (λ (n : ℕ). drop (n - 40) body) arrived.2.counted in
    one_more before_body body reply [] (omega arith) arrived.1 reply-done.0 reply-done.1
      (subst (λ (t : Text). Replied (clear reply) t []) (sym behind) (no_more (clear reply)))

note-Called :
    (h : ℕ) (c : Client quiet_net ℕ (List (ℕ × Reply))) → Returns (Called (λ l. l) h c) (note h c)
note-Called h c = returns (record {
  logged = refl;
  same_parser = refl;
  same_buffer = refl;
  later = [];
  sent = sym (append-nil c.state.send_request_lists_);
})

handle_read_event-Delivered_example :
    Returns
      (Delivered quiet_net idle_class handlers note (λ l. l) note-Called (reply ∷ []) (client body))
      (handle_read_event quiet_net idle_class handlers note 2 (client body))
handle_read_event-Delivered_example =
    handle_read_event-Delivered quiet_net idle_class handlers note (λ l. l) note-Called 2
      (client body) before_body body (reply ∷ []) reply-Replied refl (omega arith) (omega arith)
      (buffer_of-Holds body) (buffer_of-room body (omega arith))
