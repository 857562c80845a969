-- ===== src/Http/Server/Tests.antt =====
-- src/http/HttpServer.cpp: the theorems at concrete requests.
use mathlib.Core.Path.{subst}
use liby_cpp.Base.{
  sym, ℕ, ◌+◌, ◌≡◌, refl, true, List, [], ◌∷◌, ◌++◌, some, map, arith, Returns, Halts, halts,
}
use liby_cpp.Buffer.{Buffer, Cell}
use liby_cpp.Buffer.Content.{Holds}
use liby_cpp.Http.{Text, get}
use liby_cpp.Http.Example.{
  quiet_net, idle_class, idle_class-Keeps, connected, connected-IsLive, buffer_of, buffer_of-Holds,
  buffer_of-room,
}
use liby_cpp.Http.Request.{
  Request, RequestParser, bad_method, clear, start, to_string, is_error, code,
}
use liby_cpp.Http.Request.HeaderLines.{AreHeaders}
use liby_cpp.Http.Request.Roundtrip.{IsPrintable}
use liby_cpp.Http.Server.{
  Files, Handlers, HttpContext, Session, connection_key, keep_alive_text, set_read_buf,
  handle_read_event,
}
use liby_cpp.Http.Server.Answers.{ready}
use liby_cpp.Http.Server.Pipeline.{
  Hit, Pipelined, last, more, heads, to_string-long, handle_read_event-Heads,
}
use liby_cpp.Buffer.Halts.{unread}
use liby_cpp.Http.Server.Ends.{handle_read_event-Halts}
use liby_cpp.Http.Server.Errors.{handle_read_event-no_reply}
use liby_cpp.Http.Client.Wire.{parse-nul, wire-text, AnsweredOnce, handle_read_event-wire}
use liby_cpp.Http.Client.Requests.{wire}

-- Every name is a file of 12 bytes.
abbrev files : Files
files = record { open_file = λ name. some 9; get_file_size = λ fp. some 12 }

abbrev handlers : Handlers
handlers = record {
  bad_request_sent = 1;
  head_sent = λ fp filesize. 2;
  file_sent = 3;
  destroyer = 4;
}

abbrev root : Text
root = 46 ∷ []

-- "GET /b"
abbrev second : Request
second = record { method_ = get; uri_ = 47 ∷ 98 ∷ []; query_ = []; headers_ = []; body_ = [] }

second-IsPrintable : IsPrintable second
unfolding AreHeaders
second-IsPrintable = record {
  method_from = omega arith;
  method_to = omega arith;
  plain_uri = record { no_blank = refl; no_percent = refl; no_mark = refl; no_nul = refl };
  plain_query = record { no_blank = refl; no_percent = refl; no_mark = refl; no_nul = refl };
  headers = tt;
}

-- "GET /a" with "Connection: keep-alive", and the text given behind it.
abbrev first : Text → Request
first behind = record {
  method_ = get;
  uri_ = 47 ∷ 97 ∷ [];
  query_ = [];
  headers_ = (connection_key, keep_alive_text) ∷ [];
  body_ = behind;
}

first-IsPrintable : (behind : Text) → IsPrintable (first behind)
unfolding AreHeaders
first-IsPrintable behind = record {
  method_from = omega arith;
  method_to = omega arith;
  plain_uri = record { no_blank = refl; no_percent = refl; no_mark = refl; no_nul = refl };
  plain_query = record { no_blank = refl; no_percent = refl; no_mark = refl; no_nul = refl };
  headers = (
    record {
      no_colon = refl;
      key_in_line = refl;
      value_in_line = refl;
      key_ends = refl;
      value_starts = refl;
    },
    refl,
    tt,
  );
}

abbrev hit : Request → Hit
hit r = record { request = r; fp = 9; filesize = 12 }

abbrev both : Request
both = first (to_string second)

both-Pipelined : Pipelined files root (to_string both) (hit both ∷ hit second ∷ [])
both-Pipelined =
    more (hit both) (hit second ∷ [])
      (record { printable = first-IsPrintable (to_string second); opened = refl; measured = refl })
      refl
      (last (hit second) (record { printable = second-IsPrintable; opened = refl; measured = refl })
        refl)

handle_read_event-Heads_example :
    Returns
      (λ s. s.world.conn.writ_tasks ≡ heads handlers (hit both ∷ hit second ∷ []))
      (handle_read_event quiet_net idle_class handlers files root 3
        (ready (connected (buffer_of (to_string both))) true start))
handle_read_event-Heads_example =
    handle_read_event-Heads quiet_net idle_class handlers files root idle_class-Keeps 3
      (connected (buffer_of (to_string both))) true start (to_string both)
      (hit both ∷ hit second ∷ []) both-Pipelined (omega arith) (buffer_of-Holds (to_string both))
      (buffer_of-room (to_string both) (to_string-long both))
      (connected-IsLive (buffer_of (to_string both)))

abbrev held : Session quiet_net ℕ
held = ready (connected (buffer_of (to_string both))) true start

handle_read_event-Halts_example :
    Halts
      (λ _. Unit {0})
      (handle_read_event quiet_net idle_class handlers files root
        (2 + unread held.world.conn.read_buf)
        held)
handle_read_event-Halts_example =
    handle_read_event-Halts quiet_net idle_class handlers files root (λ p r t w. halts tt)
      (2 + unread held.world.conn.read_buf) held (omega arith)

-- A zero byte and "x".
abbrev nul_text : Text
nul_text = 0 ∷ 120 ∷ []

abbrev fresh : HttpContext
fresh = record { keep_alive_ = true; request_parser = clear start }

abbrev broken : RequestParser
broken = record (clear start) { progress_ = bad_method }

handle_read_event-no_reply_example :
    Returns
      (λ s.
        (b : Buffer) × (s ≡ record {
          world = set_read_buf b (connected (buffer_of nul_text));
          context_ = some (record fresh { request_parser = broken });
        }))
      (handle_read_event quiet_net idle_class handlers files root 1
        (record { world = connected (buffer_of nul_text); context_ = some fresh }))
unfolding is_error code
handle_read_event-no_reply_example =
    handle_read_event-no_reply quiet_net idle_class handlers files root 0
      (connected (buffer_of nul_text)) fresh nul_text broken (buffer_of-Holds nul_text)
      (buffer_of-room nul_text (omega arith)) (omega arith) (parse-nul start (120 ∷ [])) refl

-- The client's request, with a zero byte and "x" behind it.
abbrev from_client : Text
from_client = to_string (first nul_text)

from_client-Holds : Holds (wire (first []) ++ map some (120 ∷ [])) (buffer_of from_client)
from_client-Holds =
    subst (λ (l : List Cell). Holds l (buffer_of from_client))
      (sym (wire-text (first []) (120 ∷ []) refl)) (buffer_of-Holds from_client)

handle_read_event-wire_example :
    Returns (AnsweredOnce handlers (hit (first [])) (connected (buffer_of from_client))) (
      handle_read_event quiet_net idle_class handlers files root 2
        (ready (connected (buffer_of from_client)) true start))
handle_read_event-wire_example =
    handle_read_event-wire quiet_net idle_class handlers files root idle_class-Keeps 0
      (connected (buffer_of from_client)) true start (hit (first [])) (120 ∷ [])
      (record { printable = first-IsPrintable []; opened = refl; measured = refl }) refl refl
      from_client-Holds (buffer_of-room from_client (to_string-long (first nul_text)))
      (connected-IsLive (buffer_of from_client))
