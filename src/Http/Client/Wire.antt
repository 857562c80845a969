-- ===== src/Http/Client/Wire.antt =====
-- src/http/HttpClient.cpp, src/http/HttpServer.cpp: a request of the client at the server.
use mathlib.Core.Path.{subst}
use mathlib.Core.List.{append_assoc, append-nil, map-append}
use liby_cpp.Base.{
  ℕ, suc, ◌+◌, ◌-◌, ◌<◌, ◌≡◌, refl, sym, ap, ◌∙◌, Bool, true, List, [], ◌∷◌, ◌++◌, some, none, map,
  arith, length, take, le→leb, ok, Returns, Returns-if, Returns-map,
}
use liby_cpp.Buffer.{Cell}
use liby_cpp.Buffer.Content.{Holds}
use liby_cpp.Poller.{Poller}
use liby_cpp.Poller.Class.{Class}
use liby_cpp.Connection.{Net, World}
use liby_cpp.Connection.Sends.{Keeps, IsLive}
use liby_cpp.Http.{Text, same, lookup, find_char, find_index, substring, methods}
use liby_cpp.Http.Request.{
  Request, RequestParser, to_string, is_error, code, bad_method, clear, set_method, parse_method,
}
use liby_cpp.Http.Request.Stages.{from_method, from_progress, parse}
use liby_cpp.Http.Server.{HttpContext, Session, Files, Handlers, read_loop, handle_read_event}
use liby_cpp.Http.Server.Answers.{ready, head_task, wants_keep_alive, to_string-body}
use liby_cpp.Http.Server.Pipeline.{Hit, IsHit, Answered-ready, loop-step}
use liby_cpp.Http.Server.Errors.{handle_read_event-no_reply}
use liby_cpp.Http.Client.Requests.{wire}

-- No method begins with a zero byte.
no_method : (t : Text) → lookup same (0 ∷ t) methods ≡ none
unfolding methods
no_method t = refl

-- A text that begins with a zero byte is in error, whatever follows.
pub parse-nul :
    (p : RequestParser) (rest : Text)
    → parse (clear p) (0 ∷ rest) ≡ ok (record (clear p) { progress_ = bad_method })
unfolding parse from_progress from_method clear parse_method set_method find_char substring
parse-nul p rest =
    let k = find_index 32 rest in
    let found : 0 + suc k ≡ suc k = omega arith in
    let length_of : suc k - 0 ≡ suc k = omega arith in
    rw
      (
        from_method,
        le→leb 0 (suc (length rest)) (omega arith),
        found,
        le→leb 0 (suc k) (omega arith),
        length_of,
        no_method (take k rest),
      )
      refl

pub wire-text :
    (r : Request) (rest : Text)
    → r.body_ ≡ []
    → wire r ++ map some rest ≡ map some (to_string (record r { body_ = 0 ∷ rest }))
wire-text r rest h =
    let some_of : ℕ → Cell = λ c. some c in
    let text = to_string r ++ 0 ∷ [] in
    ap (λ (b : Text). (map some_of text ++ map some_of b) ++ map some_of rest) h
    ∙ ap (λ (l : List Cell). l ++ map some_of rest) (append-nil (map some_of text))
    ∙ sym (map-append some_of text rest)
    ∙ ap (map some_of) (
        append_assoc (to_string r) (0 ∷ []) rest
        ∙ ap (λ (b : Text). to_string (record r { body_ = b }) ++ 0 ∷ rest) h
        ∙ sym (to_string-body (record r { body_ = 0 ∷ rest })))

-- The server has answered the request with one head, and its parser is in error.
pub record AnsweredOnce {net : Net} {P : Type 0} (handlers : Handlers) (h : Hit) (w : World net P)
    (s : Session net P) : Type 0 where
  pub one_head :
      s.world.conn.writ_tasks
      ≡ w.conn.writ_tasks ++ head_task handlers h.request.uri_ h.fp h.filesize ∷ []
  pub context : HttpContext
  pub held : s.context_ ≡ some context
  pub in_error : is_error context.request_parser ≡ true

module _ (net : Net) {P : Type 0} (class : Class P) (handlers : Handlers) (files : Files)
    (root : Text)
    (updates : (p : ℕ) (r t : Bool) (w : Poller P)
      → Returns (Keeps w) (class.update_chanel p r t w)) where
  -- A server that finds in its buffer a request of this library's client for a file that can be
  -- opened and measured, without a body and with a header that asks to keep the connection alive, and
  -- then whatever the client sends next, answers that request once and ends this read event with its
  -- parser in error: the zero byte that the client sends behind every request is taken for the first
  -- byte of the next one.
  pub handle_read_event-wire :
      (fuel : ℕ) (w : World net P) (alive : Bool) (p : RequestParser) (h : Hit) (rest : Text)
      → IsHit files root h
      → h.request.body_ ≡ []
      → wants_keep_alive h.request ≡ true
      → Holds (wire h.request ++ map some rest) w.conn.read_buf
      → 0 < w.conn.read_buf.capacity_
      → IsLive w
      → Returns
          (AnsweredOnce handlers h w)
          (handle_read_event net class handlers files root (suc (suc fuel)) (ready w alive p))
  unfolding handle_read_event is_error code
  handle_read_event-wire fuel w alive p h rest hit bare keeps holds set live =
      let r' : Request = record h.request { body_ = 0 ∷ rest } in
      let h' : Hit = record h { request = r' } in
      let hit' : IsHit files root h' = record {
        printable = record {
          method_from = hit.printable.method_from;
          method_to = hit.printable.method_to;
          plain_uri = hit.printable.plain_uri;
          plain_query = hit.printable.plain_query;
          headers = hit.printable.headers;
        };
        opened = hit.opened;
        measured = hit.measured;
      } in
      let holds' : Holds (map some (to_string r')) w.conn.read_buf =
        subst (λ (l : List Cell). Holds l w.conn.read_buf) (wire-text h.request rest bare) holds in
      loop-step net class handlers files root updates (suc fuel) w alive p h' hit' holds' set live
        λ q ans.
          Returns-if q.0
            (λ _.
              let (p', again) = Answered-ready handlers h.fp h.filesize r' w alive q ans keeps in
              let w' = q.1.world in
              let c : HttpContext = record { keep_alive_ = alive; request_parser = clear p' } in
              let bad = record (clear p') { progress_ = bad_method } in
              subst
                (λ (s : Session net P).
                  Returns (AnsweredOnce handlers h w)
                    (read_loop net class handlers files root (suc fuel) s))
                (sym again)
                (Returns-map
                  (handle_read_event-no_reply net class handlers files root fuel w' c (0 ∷ rest) bad
                    ans.behind (omega (arith, set, ans.sized)) (omega arith) (parse-nul p' rest)
                    refl)
                  λ s (b, same). record {
                    one_head =
                        ap (λ (s' : Session net P). s'.world.conn.writ_tasks) same ∙ ans.queued;
                    context = record c { request_parser = bad };
                    held = ap (λ (s' : Session net P). s'.context_) same;
                    in_error = refl;
                  }))
            λ stop. absurd (cc (stop, ans.goes, keeps))
