-- ===== src/Http/Server/Answers.antt =====
-- src/http/HttpServer.cpp: how `handleReadEvent` answers a request that was printed.
use mathlib.Core.List.{append_assoc, map-append}
use mathlib.Core.Path.{subst}
use liby_cpp.Base.{
  ℕ, ◌-◌, ◌<◌, ◌≡◌, refl, sym, ap, ◌∙◌, Bool, false, List, [], ◌∷◌, ◌++◌, some, map, Bool-cases,
  inl, inr, if◌then◌else◌, arith, length, drop, length-map, ◌==◌, ok, Returns, returns,
  Returns-bind, Returns-map,
}
use liby_cpp.Buffer.{Buffer, Cell, empty, of_bytes}
use liby_cpp.Buffer.Content.{content, IsValid, Holds, bytes-ok}
use liby_cpp.Buffer.Retrieve.{retrieve_correct}
use liby_cpp.Poller.{Poller}
use liby_cpp.Poller.Class.{Class}
use liby_cpp.Connection.{Net, Connection, IoTask, World}
use liby_cpp.Connection.Stream.{buffer_entry}
use liby_cpp.Connection.Sends.{Keeps, IsLive, Queued, send_string-ok, text_tasks-cons}
use liby_cpp.Http.{Text, Headers, same, methods_string, http_1_1, lookup, get_or_empty}
use liby_cpp.Http.Scan.{drop-append}
use liby_cpp.Http.Request.{
  Request, RequestParser, is_error, is_good, clear, to_string, print_headers, print_header,
  print_query, code, good,
}
use liby_cpp.Http.Request.Roundtrip.{IsPrintable, parse-to_string}
use liby_cpp.Http.Reply.Print
use liby_cpp.Http.Reply.Print.{print_head}
use liby_cpp.Http.Server.{
  text_of, read_text, HttpContext, Session, Files, Handlers, set_read_buf, keeps_alive,
  with_connection_key, answer, round, file_reply, connection_key, keep_alive_text,
}

text_of-map : (text : Text) → text_of (map some text) ≡ ok text
text_of-map [] = refl
text_of-map (c ∷ cs) = rw (text_of-map cs) refl

pub read_text-ok :
    (b : Buffer) (text : Text)
    → IsValid b
    → 0 < b.capacity_
    → content b ≡ map some text
    → read_text b ≡ ok text
unfolding read_text
read_text-ok b text v set h = rw (bytes-ok b v (omega (arith, v.sized)), h) (text_of-map text)

print_headers-append :
    (hs : Headers) (behind : Text) → print_headers hs behind ≡ print_headers hs [] ++ behind
unfolding print_headers
print_headers-append [] behind = refl
print_headers-append ((key, value) ∷ hs) behind =
    let line = print_header key value in
    ap (λ (l : Text). line ++ 10 ∷ l) (print_headers-append hs behind)
    ∙ sym (append_assoc line (10 ∷ print_headers hs []) behind)

-- A request is printed without its body, and then the body.
pub to_string-body : (r : Request) → to_string r ≡ to_string (record r { body_ = [] }) ++ r.body_
unfolding to_string
to_string-body r =
    let target = r.uri_ ++ print_query r.query_ in
    let method = get_or_empty (lookup ◌==◌ r.method_ methods_string) in
    let headers = print_headers r.headers_ [] in
    ap (λ (l : Text). method ++ 32 ∷ (target ++ 32 ∷ (http_1_1 ++ 13 ∷ 10 ∷ l)))
      (print_headers-append r.headers_ r.body_)
    ∙ ap (λ (l : Text). method ++ 32 ∷ l)
        (sym (append_assoc target (32 ∷ (http_1_1 ++ 13 ∷ 10 ∷ headers)) r.body_))
    ∙ sym (append_assoc method (32 ∷ (target ++ 32 ∷ (http_1_1 ++ 13 ∷ 10 ∷ headers))) r.body_)

-- What is left behind the head of a request is its body.
drop_head :
    (r : Request) (cells : List Cell)
    → cells ≡ map some (to_string r)
    → drop (length (to_string (record r { body_ = [] })) - 0) cells ≡ map some r.body_
drop_head r cells h =
    let front = to_string (record r { body_ = [] }) in
    let count : length front - 0 ≡ length (map (λ (c : ℕ). some c) front) =
      omega (arith, length-map (λ (c : ℕ). some c) front) in
    ap (drop (length front - 0))
      (h ∙ ap (map some) (to_string-body r) ∙ map-append (λ (c : ℕ). some c) front r.body_)
    ∙ ap (λ (n : ℕ). drop n (map some front ++ map some r.body_)) count
    ∙ drop-append (map some front) (map some r.body_)

-- The task for the head of the reply to a request for `uri`.
abbrev pub head_task : Handlers → Text → ℕ → ℕ → IoTask
head_task handlers uri fp filesize =
    buffer_entry 0 0 (of_bytes (map some (print_head 200 (file_reply uri filesize).headers_)))
      (some (handlers.head_sent fp filesize))

abbrev pub wants_keep_alive : Request → Bool
wants_keep_alive r = same (get_or_empty (lookup same connection_key r.headers_)) keep_alive_text

-- A session whose parser has been cleared.
abbrev pub ready : {net : Net} {P : Type 0} → World net P → Bool → RequestParser → Session net P
ready w alive p = record {
  world = w;
  context_ = some (record { keep_alive_ = alive; request_parser = clear p });
}

-- What `round` leaves of `ready w alive p` after the request `r` and the bytes `r.body_` behind it,
-- for a file `fp` of `filesize` bytes.
pub record Answered {net : Net} {P : Type 0} (handlers : Handlers) (fp filesize : ℕ) (r : Request)
    (w : World net P) (alive : Bool) (q : Bool × Session net P) : Type 0 where
  pub behind : Holds (map some r.body_) q.1.world.conn.read_buf
  pub sized : q.1.world.conn.read_buf.capacity_ ≡ w.conn.read_buf.capacity_
  pub queued :
      q.1.world.conn.writ_tasks ≡ w.conn.writ_tasks ++ head_task handlers r.uri_ fp filesize ∷ []
  pub goes : q.0 ≡ wants_keep_alive r
  pub live : IsLive q.1.world
  pub context :
      (p : RequestParser) × (q.1.context_
        ≡ some (
            if wants_keep_alive r
            then record { keep_alive_ = alive; request_parser = clear p }
            else record { keep_alive_ = false; request_parser = p }))

-- What `answer` makes of the request in `c`.
record Sent {net : Net} {P : Type 0} (handlers : Handlers) (fp filesize : ℕ) (c : HttpContext)
    (w : World net P) (q : Bool × Session net P) : Type 0 where
  queue : Queued (head_task handlers c.request_parser.request.uri_ fp filesize ∷ []) w q.1.world
  live : IsLive q.1.world
  goes : q.0 ≡ keeps_alive c.request_parser
  context :
      q.1.context_
      ≡ some (
          let asked = with_connection_key c.request_parser in
          if keeps_alive c.request_parser
          then record c { request_parser = clear asked }
          else record { keep_alive_ = false; request_parser = asked })

module _ (net : Net) {P : Type 0} (class : Class P) (handlers : Handlers) (files : Files)
    (root : Text)
    (updates : (p : ℕ) (r t : Bool) (w : Poller P)
      → Returns (Keeps w) (class.update_chanel p r t w)) where
  answer-Answered :
      (c : HttpContext) (w : World net P) (fp filesize : ℕ)
      → files.open_file (root ++ c.request_parser.request.uri_) ≡ some fp
      → files.get_file_size fp ≡ some filesize
      → IsLive w
      → Returns (Sent handlers fp filesize c w) (answer net class handlers files root c w)
  unfolding answer file_reply print_head Print.to_string empty
  answer-Answered c w fp filesize opened sized live =
      let keeps = keeps_alive c.request_parser in
      let uri = c.request_parser.request.uri_ in
      let head = map some (print_head 200 (file_reply uri filesize).headers_) in
      let one = text_tasks-cons head (some (handlers.head_sent fp filesize)) (omega arith) in
      rw (answer, opened, sized)
        (Returns-bind (send_string-ok net class updates _ _ w live) λ w' (tasks, live').
          let queue = subst (λ (ts : List IoTask). Queued ts w w') one tasks in
          elim (Bool-cases keeps) [
            | inl e ↦ rw e (
                returns (record { queue = queue; live = live'; goes = sym e; context = rw e refl }))
            | inr e ↦ rw e (
                returns (record { queue = queue; live = live'; goes = sym e; context = rw e refl }))
          ])

  pub round-Answered :
      (w : World net P) (alive : Bool) (p : RequestParser) (r : Request) (fp filesize : ℕ)
      → IsPrintable r
      → IsValid w.conn.read_buf
      → 0 < w.conn.read_buf.capacity_
      → content w.conn.read_buf ≡ map some (to_string r)
      → files.open_file (root ++ r.uri_) ≡ some fp
      → files.get_file_size fp ≡ some filesize
      → IsLive w
      → Returns
          (Answered handlers fp filesize r w alive)
          (round net class handlers files root (ready w alive p))
  unfolding round is_error is_good code clear
  round-Answered w alive p r fp filesize printable v set holds opened size live =
      let buf = w.conn.read_buf in
      let parsed : RequestParser = record {
        request = record r { body_ = p.request.body_ };
        progress_ = good;
        bytes_ = length (to_string (record r { body_ = [] }));
        http_version_major_ = 1;
        http_version_minor_ = 1;
      } in
      let front = to_string (record r { body_ = [] }) in
      let body_left : drop (length front - 0) (content buf) ≡ map some r.body_ =
        drop_head r (content buf) holds in
      rw (read_text-ok buf (to_string r) v set holds, parse-to_string p r printable)
        (Returns-bind (retrieve_correct buf (parsed.bytes_ - 0) v) λ b (left, same).
          Returns-map
            (answer-Answered (record { keep_alive_ = alive; request_parser = parsed })
              (set_read_buf b w) fp filesize opened size
              (record {
                ptr = live.ptr;
                channel = live.channel;
                held = live.held;
                alive = live.alive;
                polled = live.polled;
              }))
            λ q sent. record {
              behind = record {
                valid =
                    subst IsValid (sym (ap (λ (c : Connection). c.read_buf) sent.queue.same_conn))
                      left.valid;
                same =
                    ap (λ (c : Connection). content c.read_buf) sent.queue.same_conn
                    ∙ left.same
                    ∙ body_left;
              };
              sized = ap (λ (c : Connection). c.read_buf.capacity_) sent.queue.same_conn ∙ same;
              queued = ap Connection.writ_tasks sent.queue.same_conn;
              goes = sent.goes;
              live = sent.live;
              context = (with_connection_key parsed, sent.context);
            })
