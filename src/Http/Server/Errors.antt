-- ===== src/Http/Server/Errors.antt =====
-- src/http/HttpServer.cpp: `handleReadEvent` of a request that is in error.
use liby_cpp.Base.{
  ℕ, suc, ◌<◌, ◌≡◌, refl, ap, ◌∙◌, Bool, true, false, some, map, arith, length, length-map, ne→==,
  ok, Returns, returns, Returns-bind,
}
use liby_cpp.Buffer.{Buffer}
use liby_cpp.Buffer.Content.{Holds}
use liby_cpp.Buffer.Retrieve.{retrieve_correct}
use liby_cpp.Poller.Class.{Class}
use liby_cpp.Connection.{Net, World, send_string}
use liby_cpp.Http.{Text}
use liby_cpp.Http.Request.{RequestParser, is_error}
use liby_cpp.Http.Request.Stages.{parse}
use liby_cpp.Http.Server.{
  HttpContext, Session, Files, Handlers, set_read_buf, round, read_loop, handle_read_event,
}
use liby_cpp.Http.Server.Answers.{read_text-ok}
use liby_cpp.Http.Server.Pipeline.{empty-content}

module _ (net : Net) {P : Type 0} (class : Class P) (handlers : Handlers) (files : Files)
    (root : Text) where
  -- A read event whose bytes make the parser report an error changes nothing but the read buffer and
  -- the parser: no reply is queued, and the connection is not destroyed, now or by a handler that
  -- waits.
  pub handle_read_event-no_reply :
      (fuel : ℕ) (w : World net P) (c : HttpContext) (text : Text) (p : RequestParser)
      → Holds (map some text) w.conn.read_buf
      → 0 < w.conn.read_buf.capacity_
      → 0 < length text
      → parse c.request_parser text ≡ ok p
      → is_error p ≡ true
      → Returns
          (λ s.
            (b : Buffer) × (s ≡ record {
              world = set_read_buf b w;
              context_ = some (record c { request_parser = p });
            }))
          (handle_read_event net class handlers files root
            (suc fuel)
            (record { world = w; context_ = some c }))
  unfolding handle_read_event read_loop round send_string
  handle_read_event-no_reply fuel w c text p holds set long parsed bad =
      let full =
        empty-content w.conn.read_buf (length text) holds.valid
          (ap length holds.same ∙ length-map (λ (c : ℕ). some c) text) in
      let none_left = ne→== (length text) 0 (λ e. omega (arith, long, e)) in
      rw (full, none_left, read_text-ok w.conn.read_buf text holds.valid set holds.same, parsed)
        (Returns-bind
          {Q = λ (r : Bool × Session net P).
            (r.0 ≡ false)
            × (b : Buffer) × (r.1 ≡ record {
              world = set_read_buf b w;
              context_ = some (record c { request_parser = p });
            })}
          (Returns-bind (retrieve_correct w.conn.read_buf _ holds.valid)
            λ b _. rw bad (returns (refl, b, refl)))
          λ r (stops, b, same). rw stops (returns (b, same)))
