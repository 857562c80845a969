-- ===== src/Http/Client/Replies.antt =====
-- src/http/HttpClient.cpp: `handleReadEvent` of complete replies, and of a reply whose body has not
-- come yet.
use mathlib.Core.Path.{subst}
use mathlib.Core.List.{append_assoc, append-nil}
use liby_cpp.Base.{
  ℕ, zero, suc, ◌-◌, ◌≤◌, ◌<◌, ◌≡◌, refl, sym, ap, ◌∙◌, true, false, List, [], ◌∷◌, ◌++◌, some,
  none, map, arith, length, length-map, length-append, drop, ne→==, drop-append_le, Run, ok,
  Returns, returns, Returns-bind, Returns-map, Returns-if,
}
use liby_cpp.Buffer.{Buffer, Cell, empty}
use liby_cpp.Buffer.Content.{content, IsValid, Holds}
use liby_cpp.Buffer.Retrieve.{retrieve_correct}
use liby_cpp.Poller.Class.{Class}
use liby_cpp.Connection.{Net}
use liby_cpp.Http.{Text}
use liby_cpp.Http.Reply.{Reply, ReplyParser, is_error, is_good, clear}
use liby_cpp.Http.Reply.Stages.{parse}
use liby_cpp.Http.Server.{set_read_buf}
use liby_cpp.Http.Server.Answers.{read_text-ok}
use liby_cpp.Http.Server.Pipeline.{empty-content}
use liby_cpp.Http.Client.Requests.{front-ok}
use liby_cpp.Http.Client.{
  Entry, Client, ClientHandlers, call_handler, take_reply, round, handle_read_event,
}

-- The text is complete replies, one behind the other: what the parser makes of each, from `p` on,
-- is good, and the next one begins behind the bytes that it took.
pub data Replied : ReplyParser → Text → List ReplyParser → Type 0 where
  no_more : (p : ReplyParser) → Replied p [] []
  one_more :
      (p : ReplyParser) (text : Text) (q : ReplyParser) (qs : List ReplyParser)
      → 0 < length text
      → parse p text ≡ ok q
      → is_error q ≡ false
      → is_good q ≡ true
      → Replied (clear q) (drop (q.bytes_ - p.bytes_) text) qs
      → Replied p text (q ∷ qs)

-- What the handlers of the first requests are called with, in order; an empty handler is not called.
abbrev pub calls : List Entry → List ReplyParser → List (ℕ × Reply)
calls _ [] = []
calls [] (q ∷ qs) = []
calls ((r, none) ∷ es) (q ∷ qs) = calls es qs
calls ((r, some h) ∷ es) (q ∷ qs) = (h, q.reply) ∷ calls es qs

-- The handler `h` was called: that is in the log, it left parser and read buffer alone, and it put at
-- most further requests behind those of the client.
pub record Called {net : Net} {P : Type 0} {U : Type 0} (log : U → List (ℕ × Reply)) (h : ℕ)
    (c c' : Client net P U) : Type 0 where
  pub logged : log c'.user ≡ log c.user ++ (h, c.state.parser_.reply) ∷ []
  pub same_parser : c'.state.parser_ ≡ c.state.parser_
  pub same_buffer : c'.world.conn.read_buf ≡ c.world.conn.read_buf
  pub later : List Entry
  pub sent : c'.state.send_request_lists_ ≡ c.state.send_request_lists_ ++ later

calls-cons :
    (e : Entry) (es : List Entry) (q : ReplyParser) (qs : List ReplyParser)
    → calls (e ∷ es) (q ∷ qs) ≡ calls (e ∷ []) (q ∷ []) ++ calls es qs
calls-cons (r, none) es q qs = refl
calls-cons (r, some h) es q qs = refl

calls-append :
    (es later : List Entry) (qs : List ReplyParser)
    → length qs ≤ length es
    → calls (es ++ later) qs ≡ calls es qs
calls-append es later [] h = refl
calls-append [] later (q ∷ qs) h = absurd (omega arith)
calls-append ((r, none) ∷ es) later (q ∷ qs) h = calls-append es later qs (omega arith)
calls-append ((r, some k) ∷ es) later (q ∷ qs) h =
    ap (◌∷◌ (k, q.reply)) (calls-append es later qs (omega arith))

split_front : {A : Type 0} (l : List A) → 0 < length l → (x : A) × (xs : List A) × (l ≡ x ∷ xs)
split_front [] h = absurd (omega arith)
split_front (x ∷ xs) h = (x, xs, refl)

drop-map : (n : ℕ) (text : Text) → drop n (map (λ (x : ℕ). some x) text) ≡ map some (drop n text)
drop-map zero text = refl
drop-map (suc n) [] = refl
drop-map (suc n) (x ∷ xs) = drop-map n xs

module _ (net : Net) {P : Type 0} {U : Type 0} (class : Class P) (handlers : ClientHandlers)
    (act : ℕ → Client net P U → Run (Client net P U)) (log : U → List (ℕ × Reply))
    (acts : (h : ℕ) (c : Client net P U) → Returns (Called log h c) (act h c)) where
  -- What is left of `c`, and what the handler of the entry `e` was called with.
  record Handled (e : Entry) (c c' : Client net P U) : Type 0 where
    logged : log c'.user ≡ log c.user ++ calls (e ∷ []) (c.state.parser_ ∷ [])
    same_parser : c'.state.parser_ ≡ c.state.parser_
    same_buffer : c'.world.conn.read_buf ≡ c.world.conn.read_buf
    later : List Entry
    sent : c'.state.send_request_lists_ ≡ c.state.send_request_lists_ ++ later

  call_handler-Handled :
      (e : Entry) (c : Client net P U)
      → Returns (Handled e c) (call_handler net class handlers act e.1 c)
  call_handler-Handled (r, none) c = returns (record {
    logged = sym (append-nil (log c.user));
    same_parser = refl;
    same_buffer = refl;
    later = [];
    sent = sym (append-nil c.state.send_request_lists_);
  })
  call_handler-Handled (r, some h) c = Returns-map (acts h c) λ c' k. record {
    logged = k.logged;
    same_parser = k.same_parser;
    same_buffer = k.same_buffer;
    later = k.later;
    sent = k.sent;
  }

  -- The reply in the parser went to the handler of the entry `e` in front.
  record Taken (e : Entry) (es : List Entry) (c c' : Client net P U) : Type 0 where
    logged : log c'.user ≡ log c.user ++ calls (e ∷ []) (c.state.parser_ ∷ [])
    cleared : c'.state.parser_ ≡ clear c.state.parser_
    same_buffer : c'.world.conn.read_buf ≡ c.world.conn.read_buf
    later : List Entry
    sent : c'.state.send_request_lists_ ≡ es ++ later

  take_reply-Taken :
      (e : Entry) (es : List Entry) (c : Client net P U)
      → c.state.send_request_lists_ ≡ e ∷ es
      → Returns (Taken e es c) (take_reply net class handlers act c)
  unfolding take_reply
  take_reply-Taken e es c waiting =
      Returns-bind (front-ok c.state.send_request_lists_ waiting) λ f at.
        Returns-bind (call_handler-Handled f.0 c) λ c' k.
          Returns-bind
            (front-ok c'.state.send_request_lists_
              (k.sent ∙ ap (λ (l : List Entry). l ++ k.later) waiting))
            λ f' at'. returns (record {
              logged =
                  k.logged
                  ∙ ap
                      (λ (x : Entry × List Entry).
                        log c.user ++ calls (x.0 ∷ []) (c.state.parser_ ∷ []))
                      at;
              cleared = ap clear k.same_parser;
              same_buffer = k.same_buffer;
              later = k.later;
              sent = ap (λ (x : Entry × List Entry). x.1) at';
            })

  round-Taken :
      (c : Client net P U) (text : Text) (q : ReplyParser) (e : Entry) (es : List Entry)
      → Holds (map some text) c.world.conn.read_buf
      → 0 < c.world.conn.read_buf.capacity_
      → parse c.state.parser_ text ≡ ok q
      → is_error q ≡ false
      → is_good q ≡ true
      → c.state.send_request_lists_ ≡ e ∷ es
      → Returns
          (λ r.
            (r.0 ≡ true)
            × (b : Buffer) × Holds (drop (q.bytes_ - c.state.parser_.bytes_) (map some text)) b
            × (b.capacity_ ≡ c.world.conn.read_buf.capacity_)
            × Taken e es
                (record c {
                  state = record c.state { parser_ = q };
                  world = set_read_buf b c.world;
                })
                r.1)
          (round net class handlers act c)
  unfolding round
  round-Taken c text q e es holds set parsed fine good waiting =
      let buf = c.world.conn.read_buf in
      rw (read_text-ok buf text holds.valid set holds.same, parsed)
        (Returns-bind (retrieve_correct buf _ holds.valid) λ b (left, sized).
          rw (fine, good)
            (Returns-bind (take_reply-Taken e es _ waiting) λ c' t. returns (
              refl,
              b,
              subst (λ (l : List Cell). Holds (drop (q.bytes_ - c.state.parser_.bytes_) l) b)
                  holds.same left,
              sized,
              t,
            )))

  -- What a read event of the complete replies `qs` leaves of `c`.
  pub record Delivered (qs : List ReplyParser) (c c' : Client net P U) : Type 0 where
    pub logged : log c'.user ≡ log c.user ++ calls c.state.send_request_lists_ qs
    pub later : List Entry
    pub sent : c'.state.send_request_lists_ ≡ drop (length qs) c.state.send_request_lists_ ++ later

  Delivered-next :
      (c c1 c2 c' : Client net P U) (e : Entry) (es : List Entry) (q : ReplyParser)
      (qs : List ReplyParser)
      → c.state.send_request_lists_ ≡ e ∷ es
      → c1.user ≡ c.user
      → c1.state.parser_ ≡ q
      → length qs ≤ length es
      → Taken e es c1 c2
      → Delivered qs c2 c'
      → Delivered (q ∷ qs) c c'
  Delivered-next c c1 c2 c' e es q qs waiting user at enough t d =
      let first = calls (e ∷ []) (q ∷ []) in
      let logged1 : log c2.user ≡ log c.user ++ first =
        t.logged
        ∙ ap (λ (u : U). log u ++ calls (e ∷ []) (c1.state.parser_ ∷ [])) user
        ∙ ap (λ (p : ReplyParser). log c.user ++ calls (e ∷ []) (p ∷ [])) at in
      let rest : calls c2.state.send_request_lists_ qs ≡ calls es qs =
        ap (λ (l : List Entry). calls l qs) t.sent ∙ calls-append es t.later qs enough in
      record {
        logged =
            d.logged
            ∙ ap (λ (l : List (ℕ × Reply)). l ++ calls c2.state.send_request_lists_ qs) logged1
            ∙ ap (λ (l : List (ℕ × Reply)). (log c.user ++ first) ++ l) rest
            ∙ append_assoc (log c.user) first (calls es qs)
            ∙ ap (λ (l : List (ℕ × Reply)). log c.user ++ l) (sym (calls-cons e es q qs))
            ∙ ap (λ (l : List Entry). log c.user ++ calls l (q ∷ qs)) (sym waiting);
        later = t.later ++ d.later;
        sent =
            d.sent
            ∙ ap (λ (l : List Entry). drop (length qs) l ++ d.later) t.sent
            ∙ ap (λ (l : List Entry). l ++ d.later) (drop-append_le (length qs) es t.later enough)
            ∙ append_assoc (drop (length qs) es) t.later d.later
            ∙ ap (λ (l : List Entry). drop (suc (length qs)) l ++ (t.later ++ d.later))
                (sym waiting);
      }

  -- A read event whose buffer is complete replies, no more than requests were sent, hands them to the
  -- handlers of the requests that were sent first, each reply to its own handler and in the order in
  -- which the requests were sent, and takes those requests from the list, if every handler ends,
  -- leaves parser and read buffer alone, and puts at most further requests at the end. It ends with
  -- fuel for one round more than there are replies.
  pub handle_read_event-Delivered :
      (fuel : ℕ) (c : Client net P U) (p : ReplyParser) (text : Text) (qs : List ReplyParser)
      → Replied p text qs
      → c.state.parser_ ≡ p
      → length qs ≤ length c.state.send_request_lists_
      → length qs < fuel
      → Holds (map some text) c.world.conn.read_buf
      → 0 < c.world.conn.read_buf.capacity_
      → Returns (Delivered qs c) (handle_read_event net class handlers act fuel c)
  unfolding handle_read_event
  handle_read_event-Delivered zero c p text qs replied at enough fuelled holds set =
      absurd (omega arith)
  handle_read_event-Delivered (suc fuel) c p _ _ (no_more _) at enough fuelled holds set =
      rw (empty-content c.world.conn.read_buf 0 holds.valid (ap length holds.same)) (
        returns (record {
          logged = sym (append-nil (log c.user));
          later = [];
          sent = sym (append-nil c.state.send_request_lists_);
        }))
  handle_read_event-Delivered (suc fuel) c p _ _ (one_more _ text q qs long parsed fine good rest)
        at enough fuelled holds set =
      let buf = c.world.conn.read_buf in
      let full =
        empty-content buf (length text) holds.valid
          (ap length holds.same ∙ length-map (λ (x : ℕ). some x) text) in
      let none_left = ne→== (length text) 0 (λ e. omega (arith, long, e)) in
      let parsed' : parse c.state.parser_ text ≡ ok q =
        subst (λ (p' : ReplyParser). parse p' text ≡ ok q) (sym at) parsed in
      let (e, es, waiting) = split_front c.state.send_request_lists_ (omega (arith, enough)) in
      Returns-if (empty buf) (λ is_it. absurd (cc (is_it, full, none_left)))
        λ _.
          Returns-bind (round-Taken c text q e es holds set parsed' fine good waiting)
            λ r (goes, b, left, sized, t).
              Returns-if r.0
                (λ _.
                  let c1 : Client net P U = record c {
                    state = record c.state { parser_ = q };
                    world = set_read_buf b c.world;
                  } in
                  let count = ap (λ (p' : ReplyParser). q.bytes_ - p'.bytes_) at in
                  let behind : content r.1.world.conn.read_buf
                      ≡ map some (drop (q.bytes_ - p.bytes_) text) =
                    ap content t.same_buffer
                    ∙ left.same
                    ∙ ap (λ (n : ℕ). drop n (map (λ (x : ℕ). some x) text)) count
                    ∙ drop-map (q.bytes_ - p.bytes_) text in
                  let fewer : length qs ≤ length es = omega (arith, enough, ap length waiting) in
                  Returns-map
                    (handle_read_event-Delivered fuel r.1 (clear q)
                      (drop (q.bytes_ - p.bytes_) text) qs rest t.cleared
                      (omega (arith, fewer, ap length t.sent, length-append es t.later))
                      (omega (arith, fuelled))
                      (record {
                        valid = subst IsValid (sym t.same_buffer) left.valid;
                        same = behind;
                      })
                      (omega (arith, set, sized, ap Buffer.capacity_ t.same_buffer)))
                    λ c' d. Delivered-next c c1 r.1 c' e es q qs waiting refl refl fewer t d)
                λ stop. absurd (cc (goes, stop))
