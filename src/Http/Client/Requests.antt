-- ===== src/Http/Client/Requests.antt =====
-- src/http/HttpClient.cpp: what `sendRequest` puts on the wire.
use mathlib.Core.Path.{subst}
use liby_cpp.Base.{
  ℕ, ◌<◌, ◌≡◌, ap, ◌∙◌, Bool, true, List, [], ◌∷◌, ◌++◌, some, map, arith, length, length-map,
  length-append, Returns, returns, Returns-bind, Returns-map, Returns-if,
}
use liby_cpp.Buffer.{Buffer, Cell, of_bytes, of_capacity, c_string}
use liby_cpp.Buffer.Content.{content, Holds, length-content}
use liby_cpp.Buffer.Moves.Append.{of_bytes-Holds}
use liby_cpp.Buffer.Moves.Strings.{of_capacity-Holds, append_string_correct, append_buffer_correct}
use liby_cpp.Poller.{Poller}
use liby_cpp.Poller.Class.{Class}
use liby_cpp.Connection.{Net, Connection}
use liby_cpp.Connection.Stream.{buffer_entry}
use liby_cpp.Connection.Sends.{Keeps, IsLive, send_buffer-ok}
use liby_cpp.Http.Request.{Request, to_string}
use liby_cpp.Http.Client.{Entry, Client, ClientHandlers, front, request_buffer, send_request}

-- The bytes on the wire: the text, which ends with the body, a zero, and the body once more.
abbrev pub wire : Request → List Cell
wire r = c_string (to_string r) ++ map some r.body_

pub request_buffer-Holds : (r : Request) → Returns (Holds (wire r)) (request_buffer r)
unfolding request_buffer
request_buffer-Holds r =
    let new = of_capacity-Holds 1024 in
    let body = of_bytes-Holds (map some r.body_) in
    Returns-bind (append_string_correct (of_capacity 1024) (to_string r) new.valid) λ b h.
      Returns-map (append_buffer_correct b (of_bytes (map some r.body_)) h.valid body.valid)
        λ b' h'.
          subst (λ (l : List Cell). Holds l b')
            (ap (λ (l : List Cell). l ++ content (of_bytes (map some r.body_)))
                (h.same ∙ ap (λ (l : List Cell). l ++ c_string (to_string r)) new.same)
              ∙ ap (λ (l : List Cell). c_string (to_string r) ++ l) body.same)
            h'

-- A buffer that holds a request has room.
room : (r : Request) (b : Buffer) → Holds (wire r) b → 0 < b.capacity_
room r b h =
    let text = map (λ (c : ℕ). some c) (to_string r ++ 0 ∷ []) in
    let text_long = length-map (λ (c : ℕ). some c) (to_string r ++ 0 ∷ []) in
    omega (
      arith,
      length-content b h.valid,
      ap length h.same,
      length-append text (map some r.body_),
      text_long,
      length-append (to_string r) (0 ∷ []),
      h.valid.within,
      h.valid.ordered,
    )

-- The first request that waits has been sent.
pub record Requested {net : Net} {P : Type 0} {U : Type 0} (handler : ℕ) (r : Entry)
    (rs : List Entry) (c c' : Client net P U) : Type 0 where
  pub buffer : Buffer
  pub holds : Holds (wire r.0) buffer
  pub queued :
      c'.world.conn.writ_tasks
      ≡ c.world.conn.writ_tasks ++ buffer_entry 0 0 buffer (some handler) ∷ []
  pub state : c'.state ≡ record c.state {
    request_lists_ = rs;
    send_request_lists_ = c.state.send_request_lists_ ++ r ∷ [];
  }

pub front-ok :
    {A : Type 0} (l : List A) {x : A} {xs : List A}
    → l ≡ x ∷ xs
    → Returns (λ r. r ≡ (x, xs)) (front l)
front-ok [] e = absurd cc
front-ok (y ∷ ys) e = returns cc

module _ (net : Net) {P : Type 0} {U : Type 0} (class : Class P) (handlers : ClientHandlers)
    (updates : (p : ℕ) (r t : Bool) (w : Poller P)
      → Returns (Keeps w) (class.update_chanel p r t w)) where
  -- `sendRequest`, when a request waits and the client has a live connection, queues one buffer for
  -- the request in front and moves it to the end of the requests that were sent. What the buffer
  -- holds is no valid HTTP: behind the request, its body included, stand a zero byte and the body a
  -- second time.
  pub send_request-Requested :
      (c : Client net P U) (r : Entry) (rs : List Entry)
      → c.state.request_lists_ ≡ r ∷ rs
      → c.state.http_conn_ ≡ true
      → IsLive c.world
      → Returns (Requested handlers.request_sent r rs c) (send_request net class handlers c)
  unfolding send_request
  send_request-Requested c r rs waits set live =
      Returns-bind (front-ok c.state.request_lists_ waits) λ f at.
        Returns-bind (request_buffer-Holds f.0.0) λ b holds.
          Returns-bind {Q = λ _. Unit {0}}
            (Returns-if c.state.http_conn_ (λ _. returns tt) (λ e. absurd (cc (e, set))))
            λ _ _.
              Returns-bind
                (send_buffer-ok net class updates b (some handlers.request_sent) c.world holds.valid
                  (room f.0.0 b holds) live)
                λ w (q, _). returns (record {
                  buffer = b;
                  holds = subst (λ (f : Entry × List Entry). Holds (wire f.0.0) b) at holds;
                  queued = ap Connection.writ_tasks q.same_conn;
                  state =
                      ap
                        (λ (f : Entry × List Entry). record c.state {
                          request_lists_ = f.1;
                          send_request_lists_ = c.state.send_request_lists_ ++ f.0 ∷ [];
                        })
                        at;
                })
