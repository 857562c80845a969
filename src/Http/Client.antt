-- ===== src/Http/Client.antt =====
-- src/http/HttpClient.cpp: the client, which keeps its requests in two lists: those that wait, and
-- those that were sent, each with the number of the handler for its reply. The constructor, which
-- asks an event loop group for a client of port 80, is left out.
pub mod Requests
pub mod Replies
pub mod Spin
pub mod Wire
mod Tests
use liby_cpp.Base.{
  ℕ, zero, suc, ◌-◌, Bool, true, false, List, [], ◌∷◌, ◌++◌, Option, none, some, map, if◌then◌else◌,
  Run, ok, fault, out_of_bounds, out_of_fuel, null_pointer, ◌>>=◌, ◌>>◌,
}
use liby_cpp.Buffer.{Buffer, of_bytes, of_capacity, empty, retrieve}
use liby_cpp.Buffer.Moves.{append_string, append_buffer}
use liby_cpp.Poller.Class.{Class}
use liby_cpp.Connection.{Net, World, enable_conn_read, send_buffer}
use liby_cpp.Http.Request.{Request, to_string}
use liby_cpp.Http.Reply.{ReplyParser, is_error, is_good, clear}
use liby_cpp.Http.Reply.Stages.{parse}
use liby_cpp.Http.Server.{read_text, set_read_buf}

-- A request with its `ReplyHandler`, which may be empty.
abbrev pub Entry : Type 0
Entry = Request × Option ℕ

-- Class `HttpClient`; `http_client_` and `http_conn_` say whether the pointers are set.
pub record HttpClient : Type 0 where
  pub parser_ : ReplyParser
  pub request_lists_ : List Entry
  pub send_request_lists_ : List Entry
  pub http_client_ : Bool
  pub http_conn_ : Bool

-- The client with its connection, and what the handlers of the replies keep.
pub record Client (net : Net) (P : Type 0) (U : Type 0) : Type 0 where
  pub state : HttpClient
  pub world : World net P
  pub user : U

-- The numbers of the functions that the client passes on: for the events of its connection, and for
-- a request that was sent.
pub record ClientHandlers : Type 0 where
  pub read_handler : ℕ
  pub erro_handler : ℕ
  pub request_sent : ℕ

-- `front()` of a list and the rest.
abbrev pub front : {A : Type 0} → List A → Run (A × List A)
front [] = fault out_of_bounds
front (x ∷ xs) = ok (x, xs)

-- The buffer that `sendRequest` fills.
unfoldable pub request_buffer : Request → Run Buffer
request_buffer r = do
  b ← append_string (of_capacity 1024) (to_string r)
  append_buffer b (of_bytes (map some r.body_))

module _ (net : Net) {P : Type 0} {U : Type 0} (class : Class P) (handlers : ClientHandlers) where
  -- `destroy()`
  unfoldable pub destroy_client : Client net P U → Client net P U
  destroy_client c =
      let state = record c.state {
        request_lists_ = [];
        http_client_ = false;
        http_conn_ = false;
      } in
      record c { state = state }

  -- `http_conn_->`
  abbrev pub conn_set : Client net P U → Run (Unit {0})
  conn_set c = if c.state.http_conn_ then ok tt else fault null_pointer

  -- `sendRequest()`
  unfoldable pub send_request : Client net P U → Run (Client net P U)
  send_request c = do
    r ← front c.state.request_lists_
    b ← request_buffer r.0.0
    conn_set c
    w ← send_buffer net class b (some handlers.request_sent) c.world
    let state = record c.state {
      request_lists_ = r.1;
      send_request_lists_ = c.state.send_request_lists_ ++ r.0 ∷ [];
    }
    ok (record c { state = state; world = w.1 })

  -- `get(request, handler)`
  unfoldable pub get : Request → Option ℕ → Client net P U → Run (Client net P U)
  get request handler c =
      let state = record c.state {
        request_lists_ = c.state.request_lists_ ++ (request, handler) ∷ [];
      } in
      let c' = record c { state = state } in if c.state.http_conn_ then send_request c' else ok c'

  -- Unless no request waits, the next one is sent.
  abbrev pub send_next : List Entry → Client net P U → Run (Client net P U)
  send_next [] c = ok c
  send_next (r ∷ rs) c = send_request c

  -- `handleConnection(conn)`
  unfoldable pub handle_connection : World net P → Client net P U → Run (Client net P U)
  handle_connection w c =
      let conn = record w.conn {
        read_event_callback = some handlers.read_handler;
        erro_event_callback = some handlers.erro_handler;
      } in
      let state = record c.state { http_conn_ = true } in
      let c' = record c { state = state; world = record w { conn = conn } } in
      send_next c'.state.request_lists_ c'

  -- The function that is called when a request was sent.
  unfoldable pub run_request_sent : Client net P U → Run (Client net P U)
  run_request_sent c = do
    conn_set c
    w ← enable_conn_read net class true c.world
    send_next c.state.request_lists_ (record c { world = w })

  -- `handleErroEvent(conn)`
  unfoldable pub handle_erro_event : Client net P U → Client net P U
  handle_erro_event c = destroy_client c

  module _ (act : ℕ → Client net P U → Run (Client net P U)) where
    -- `if (handler) handler(parser_)`
    abbrev pub call_handler : Option ℕ → Client net P U → Run (Client net P U)
    call_handler none c = ok c
    call_handler (some h) c = act h c

    -- What the loop does with a reply that is complete.
    unfoldable pub take_reply : Client net P U → Run (Client net P U)
    take_reply c = do
      r ← front c.state.send_request_lists_
      c' ← call_handler r.0.1 c
      sent ← front c'.state.send_request_lists_
      let state = record c'.state { parser_ = clear c'.state.parser_; send_request_lists_ = sent.1 }
      ok (record c' { state = state })

    -- The body of the loop, when the buffer is not empty; the flag is whether the loop goes on.
    unfoldable pub round : Client net P U → Run (Bool × Client net P U)
    round c = do
      text ← read_text c.world.conn.read_buf
      p ← parse c.state.parser_ text
      b ← retrieve c.world.conn.read_buf (p.bytes_ - c.state.parser_.bytes_)
      let state = record c.state { parser_ = p }
      let c' = record c { state = state; world = set_read_buf b c.world }
      if is_error p
          then ok (false, handle_erro_event c')
          else if is_good p
          then (do c'' ← take_reply c'; ok (true, c''))
          else ok (true, c')

    -- `handleReadEvent(conn)`, with fuel for its loop.
    unfoldable pub handle_read_event : ℕ → Client net P U → Run (Client net P U)
    handle_read_event zero c = fault out_of_fuel
    handle_read_event (suc fuel) c =
        if empty c.world.conn.read_buf
        then ok c
        else do r ← round c; let rest = handle_read_event fuel r.1; if r.0 then rest else ok r.1
