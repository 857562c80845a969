-- ===== src/Http/Server.antt =====
-- src/http/HttpServer.cpp: the server's handlers of a connection's events. The files that `open`
-- and `fstat` find are a parameter; a handler is known by a number, which for one that keeps values
-- is a function of those.
pub mod Ends
pub mod Answers
pub mod Errors
pub mod Pipeline
mod Tests
use liby_cpp.Base.{
  ℕ, zero, suc, ◌-◌, Bool, true, false, List, [], ◌∷◌, ◌++◌, Option, none, some, map, if◌then◌else◌,
  Run, ok, fault, out_of_bounds, out_of_fuel, assertion_failed, or_fault, ◌>>=◌,
}
use liby_cpp.Buffer.{Buffer, Cell, default_buffer, empty, bytes, retrieve}
use liby_cpp.Poller.Class.{Class}
use liby_cpp.Connection.{Net, World, send_string, send_file, destroy, destroy_later}
use liby_cpp.Http.{Text, Headers, same, lookup, assign, get_or_empty}
use liby_cpp.Http.Mime.{get_mime_type}
use liby_cpp.Http.Request.{RequestParser, is_error, is_good, clear, start}
use liby_cpp.Http.Request.Stages.{parse}
use liby_cpp.Http.Reply.{Reply, content_length}
use liby_cpp.Http.Reply.Print.{to_string, print_number}

-- The bytes as characters; one that was never written is no character.
abbrev pub text_of : List Cell → Run Text
text_of [] = ok []
text_of (none ∷ cells) = fault out_of_bounds
text_of (some c ∷ cells) = do text ← text_of cells; ok (c ∷ text)

-- The text from `data()` to `data() + size()`.
unfoldable pub read_text : Buffer → Run Text
read_text b = bytes b >>= text_of

-- "Content-Type"
abbrev content_type : Text
content_type = 67 ∷ 111 ∷ 110 ∷ 116 ∷ 101 ∷ 110 ∷ 116 ∷ 45 ∷ 84 ∷ 121 ∷ 112 ∷ 101 ∷ []

-- "Connection"
abbrev pub connection_key : Text
connection_key = 67 ∷ 111 ∷ 110 ∷ 110 ∷ 101 ∷ 99 ∷ 116 ∷ 105 ∷ 111 ∷ 110 ∷ []

-- "keep-alive"
abbrev pub keep_alive_text : Text
keep_alive_text = 107 ∷ 101 ∷ 101 ∷ 112 ∷ 45 ∷ 97 ∷ 108 ∷ 105 ∷ 118 ∷ 101 ∷ []

pub record HttpContext : Type 0 where
  pub keep_alive_ : Bool
  pub request_parser : RequestParser

-- A connection of the server with its `context_`.
pub record Session (net : Net) (P : Type 0) : Type 0 where
  pub world : World net P
  pub context_ : Option HttpContext

-- What `openFile` and `getFileSize` give; no size is an exception.
pub record Files : Type 0 where
  pub open_file : Text → Option ℕ
  pub get_file_size : ℕ → Option ℕ

-- The numbers of the functions that the server passes on: of `handleReadEvent` for a bad request,
-- for a head that was sent, with `fp` and `filesize`, and for a file that was sent, and the one that
-- `destroyLater` passes on.
pub record Handlers : Type 0 where
  pub bad_request_sent : ℕ
  pub head_sent : ℕ → ℕ → ℕ
  pub file_sent : ℕ
  pub destroyer : ℕ

-- The reply to a request for `uri` whose file has `filesize` bytes. The order in which the unordered
-- map of headers is printed is taken to be that of insertion.
unfoldable pub file_reply : Text → ℕ → Reply
file_reply uri filesize =
    let sized = assign same content_length (print_number filesize) [] in
    record {
      status_ = 200;
      content_ = default_buffer;
      headers_ = assign same content_type (get_mime_type uri) sized;
    }

-- `headers_["Connection"]`, which puts an empty text where there is none.
unfoldable pub with_connection_key : RequestParser → RequestParser
with_connection_key p =
    let value = get_or_empty (lookup same connection_key p.request.headers_) in
    let headers = assign same connection_key value p.request.headers_ in
    let request = record p.request { headers_ = headers } in record p { request = request }

abbrev pub keeps_alive : RequestParser → Bool
keeps_alive p = same (get_or_empty (lookup same connection_key p.request.headers_)) keep_alive_text

-- `Reply::Error(errcode)`
abbrev pub error_reply : ℕ → List Cell
error_reply errcode = []

module _ {net : Net} {P : Type 0} where
  abbrev pub set_read_buf : Buffer → World net P → World net P
  set_read_buf b w = let conn = record w.conn { read_buf = b } in record w { conn = conn }

  abbrev pub get_context : Session net P → Run HttpContext
  get_context s = or_fault s.context_ assertion_failed

  -- `handleAcceptEvent(conn)`
  unfoldable pub handle_accept_event : World net P → Session net P
  handle_accept_event w = record {
    world = w;
    context_ = some (record { keep_alive_ = true; request_parser = start });
  }

module _ (net : Net) {P : Type 0} (class : Class P) where
  -- `handleErroEvent(conn)`
  unfoldable pub handle_erro_event : Session net P → Run (Session net P)
  handle_erro_event s = do w ← destroy net class s.world; ok (record s { world = w })

  -- The function that a bad request passes on, called while the connection is there.
  unfoldable pub run_bad_request_sent : Session net P → Run (Session net P)
  run_bad_request_sent s = do w ← destroy net class s.world; ok (record s { world = w })

  module _ (handlers : Handlers) where
    -- The function that is called when a head was sent, while the connection is there.
    unfoldable pub run_head_sent : ℕ → ℕ → Session net P → Run (Session net P)
    run_head_sent fp filesize s = do
      w ← send_file net class fp 0 filesize (some handlers.file_sent) s.world
      ok (record s { world = w })

    -- The function that is called when a file was sent.
    unfoldable pub run_file_sent : Session net P → Run (Session net P)
    run_file_sent s = do
      c ← get_context s
      ok (
          if c.keep_alive_
          then s
          else record s { world = destroy_later net class handlers.destroyer s.world })

    module _ (files : Files) (root : Text) where
      -- The request in `c` is answered; the flag is whether the loop goes on.
      unfoldable pub answer : HttpContext → World net P → Run (Bool × Session net P)
      answer c w =
          let p = c.request_parser in
          let stay : Run (Bool × Session net P) =
            ok (false, record { world = w; context_ = some c }) in
          elim (files.open_file (root ++ p.request.uri_)) [
            | none ↦ stay
            | some fp ↦ elim (files.get_file_size fp) [
              | none ↦ stay
              | some filesize ↦ do
                printed ← to_string (file_reply p.request.uri_ filesize)
                let handler = some (handlers.head_sent fp filesize)
                w' ← send_string net class printed.1 handler w
                let asked = with_connection_key p
                ok (
                    if keeps_alive p
                    then (
                      true,
                      record {
                        world = w';
                        context_ = some (record c { request_parser = clear asked });
                      },
                    )
                    else (
                      false,
                      record {
                        world = w';
                        context_ = some (record { keep_alive_ = false; request_parser = asked });
                      },
                    ))
            ]
          ]

      -- The body of the loop, when the buffer is not empty.
      unfoldable pub round : Session net P → Run (Bool × Session net P)
      round s = do
        c ← get_context s
        text ← read_text s.world.conn.read_buf
        p ← parse c.request_parser text
        b ← retrieve s.world.conn.read_buf (p.bytes_ - c.request_parser.bytes_)
        let w = set_read_buf b s.world
        let parsed = record c { request_parser = p }
        if is_error p
            then (do
              let handler = some handlers.bad_request_sent
              w' ← send_string net class (error_reply 404) handler w
              ok (false, record { world = w'; context_ = some parsed }))
            else if is_good p
            then answer parsed w
            else ok (false, record { world = w; context_ = some parsed })

      -- `while (1)`
      unfoldable pub read_loop : ℕ → Session net P → Run (Session net P)
      read_loop zero s = fault out_of_fuel
      read_loop (suc fuel) s =
          if empty s.world.conn.read_buf
          then ok s
          else do r ← round s; let rest = read_loop fuel r.1; if r.0 then rest else ok r.1

      -- `handleReadEvent(conn)`
      unfoldable pub handle_read_event : ℕ → Session net P → Run (Session net P)
      handle_read_event fuel s = do c ← get_context s; read_loop fuel s
