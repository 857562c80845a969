-- ===== src/Http/Server/Ends.antt =====
-- src/http/HttpServer.cpp: the loop of `handleReadEvent` ends.
use liby_cpp.Base
use liby_cpp.Base.{
  ℕ, zero, suc, ◌+◌, ◌-◌, ◌≤◌, ◌<◌, ◌≡◌, refl, sym, ap, ◌∙◌, Bool, true, false, List, [], ◌∷◌, ◌++◌,
  Option, none, some, Option-cases, Bool-cases, inl, inr, if◌then◌else◌, arith, ltb, leb, ltb→lt,
  ltb-ge, leb→le, ◌==◌, Run, ok, fault, Fault, out_of_fuel, assertion_failed, or_fault, ◌>>=◌,
  assert, Then, Then-inv, done, Then-bind, Then-if, Then-any, Halts, halts, broke, Halts-bind,
  Halts-if, Halts-map, Halts-assert,
}
use liby_cpp.Buffer.{Buffer, Cell, empty}
use liby_cpp.Buffer.Halts.{unread, bytes-Halts, retrieve-Halts}
use liby_cpp.Poller.{Poller}
use liby_cpp.Poller.Class.{Class}
use liby_cpp.Connection.{Net, Connection, World}
use liby_cpp.Connection.Sends.{or_fault-Halts, send_string-Queued}
use liby_cpp.Http.{Text}
use liby_cpp.Http.Request.{RequestParser, parsing_method, is_error, is_good, clear}
use liby_cpp.Http.Request.Stages.{parse}
use liby_cpp.Http.Request.Ends.{Ends, ended, failed, parse-Ends}
use liby_cpp.Http.Request.Counts.{parse-Counted, parse-Strict}
use liby_cpp.Http.Reply.Print.{to_string}
use liby_cpp.Http.Server.{
  text_of, read_text, HttpContext, Session, Files, Handlers, file_reply, set_read_buf, keeps_alive,
  with_connection_key, answer, round, read_loop, handle_read_event,
}

Ends-Halts {ℓ κ} :
    {X : Type ℓ} {Q : X → Type κ} {call : Run X} → Ends call → Then Q call → Halts Q call
Ends-Halts ended h = halts (Then-inv h refl)
Ends-Halts (failed ne) h = broke ne

text_of-Halts : (cells : List Cell) → Halts (λ _. Unit {0}) (text_of cells)
text_of-Halts [] = halts tt
text_of-Halts (none ∷ cells) = broke λ e. cc
text_of-Halts (some c ∷ cells) = Halts-bind (text_of-Halts cells) λ _ _. halts tt

read_text-Halts : (b : Buffer) → empty b ≡ false → Halts (λ _. 0 < unread b) (read_text b)
unfolding read_text
read_text-Halts b some_left =
    Halts-bind (bytes-Halts b some_left)
      λ cells some_unread. Halts-map (text_of-Halts cells) λ _ _. some_unread

some-inj {ℓ} : {X : Type ℓ} {x y : X} → some x ≡ some y → x ≡ y
some-inj e = cc

-- The parser of the context has been cleared.
abbrev Fresh : HttpContext → Type 0
Fresh c = c.request_parser.progress_ ≡ parsing_method

-- What the loop has left: at most `n` bytes to read, for a parser that has been cleared.
record Left {net : Net} {P : Type 0} (n : ℕ) (s : Session net P) : Type 0 where
  context : HttpContext
  held : s.context_ ≡ some context
  fresh : Fresh context
  few : unread s.world.conn.read_buf ≤ n

module _ (net : Net) {P : Type 0} (class : Class P) (handlers : Handlers) (files : Files)
    (root : Text)
    (updates : (p : ℕ) (r t : Bool) (w : Poller P)
      → Halts (λ _. Unit {0}) (class.update_chanel p r t w)) where
  -- The loop goes on only with a parser that has been cleared, and with no more bytes.
  answer-Halts :
      (c : HttpContext) (w : World net P)
      → Halts
          (λ r. r.0 ≡ true → Left (unread w.conn.read_buf) r.1)
          (answer net class handlers files root c w)
  unfolding answer file_reply to_string empty clear
  answer-Halts c w =
      let p = c.request_parser in
      elim (Option-cases (files.open_file (root ++ p.request.uri_))) [
        | inl e ↦ rw (answer, e) (halts λ goes. absurd cc)
        | inr (fp, e) ↦
            rw (answer, e)
              (elim (Option-cases (files.get_file_size fp)) [
                | inl e' ↦ rw e' (halts λ goes. absurd cc)
                | inr (filesize, e') ↦ rw e' (
                    Halts-bind (send_string-Queued net class updates _ _ w) λ w' q.
                      elim (Bool-cases (keeps_alive p)) [
                        | inl keeps ↦ rw keeps (
                            halts λ _. record {
                              context = record c { request_parser = clear (with_connection_key p) };
                              held = refl;
                              fresh = refl;
                              few = omega (
                                arith,
                                ap (λ (conn : Connection). unread conn.read_buf) q.same_conn,
                              );
                            })
                        | inr stops ↦ rw stops (halts λ goes. absurd cc)
                      ])
              ])
      ]

  -- The loop goes on with at most `n` bytes to read, if a request that is good leaves that many.
  round-Halts :
      (n : ℕ) (s : Session net P)
      → empty s.world.conn.read_buf ≡ false
      → ((c : HttpContext) (text : Text)
          → s.context_ ≡ some c
          → 0 < unread s.world.conn.read_buf
          → Then
              (λ p.
                is_good p ≡ true
                → unread s.world.conn.read_buf - (p.bytes_ - c.request_parser.bytes_) ≤ n)
              (parse c.request_parser text))
      → Halts
          (λ r. (0 < unread s.world.conn.read_buf) × (r.0 ≡ true → Left n r.1))
          (round net class handlers files root s)
  unfolding round
  round-Halts n s some_left few =
      let buf = s.world.conn.read_buf in
      Halts-bind (or_fault-Halts s.context_ assertion_failed λ e. cc) λ c held.
        Halts-bind (read_text-Halts buf some_left) λ text some_unread.
          Halts-bind (Ends-Halts (parse-Ends c.request_parser text) (few c text held some_unread))
            λ p small.
              Halts-bind (retrieve-Halts buf (p.bytes_ - c.request_parser.bytes_)) λ b left.
                Halts-if (is_error p)
                  (λ _.
                    Halts-bind (send_string-Queued net class updates _ _ _)
                      λ w' _. halts (some_unread, λ goes. absurd cc))
                  λ _.
                    Halts-if (is_good p)
                      (λ is_it.
                        Halts-map
                          (answer-Halts (record c { request_parser = p }) (set_read_buf b s.world))
                          λ r more. (
                            some_unread,
                            λ goes.
                                let l = more goes in
                                record {
                                  context = l.context;
                                  held = l.held;
                                  fresh = l.fresh;
                                  few = omega (arith, l.few, left, small is_it);
                                },
                          ))
                      λ _. halts (some_unread, λ goes. absurd cc)

  small-map :
      (u n k : ℕ) (call : Run RequestParser)
      → 0 < u
      → u ≤ suc n
      → Then (λ p. is_good p ≡ true → k < p.bytes_) call
      → Then (λ p. is_good p ≡ true → u - (p.bytes_ - k) ≤ n) call
  small-map u n k _ h few (done q) = done λ is_it. omega (arith, h, few, q is_it)
  small-map u n k _ h few Base.failed = Base.failed

  less-map :
      (u k : ℕ) (call : Run RequestParser)
      → Then (λ p. k ≤ p.bytes_) call
      → Then (λ p. is_good p ≡ true → u - (p.bytes_ - k) ≤ u) call
  less-map u k _ (done q) = done λ is_it. omega arith
  less-map u k _ Base.failed = Base.failed

  read_loop-Halts :
      (fuel n : ℕ) (s : Session net P)
      → Left n s
      → n < fuel
      → Halts (λ _. Unit {0}) (read_loop net class handlers files root fuel s)
  unfolding read_loop
  read_loop-Halts zero n s left enough = absurd (omega arith)
  read_loop-Halts (suc fuel) n s left enough =
      let u = unread s.world.conn.read_buf in
      Halts-if (empty s.world.conn.read_buf) (λ _. halts tt)
        λ some_left.
          Halts-bind
            (round-Halts (n - 1) s some_left λ c text held some_unread.
              let same : c ≡ left.context = some-inj (sym held ∙ left.held) in
              small-map u (n - 1) c.request_parser.bytes_ _ some_unread
                (omega (arith, some_unread, left.few))
                (parse-Strict c.request_parser text
                  (ap (λ (c' : HttpContext). c'.request_parser.progress_) same ∙ left.fresh)))
            λ r (some_unread, next).
              Halts-if r.0
                (λ goes.
                  read_loop-Halts fuel (n - 1) r.1 (next goes)
                    (omega (arith, some_unread, left.few)))
                λ _. halts tt

  first_round :
      (fuel : ℕ) (s : Session net P)
      → suc (unread s.world.conn.read_buf) < fuel
      → Halts (λ _. Unit {0}) (read_loop net class handlers files root fuel s)
  unfolding read_loop
  first_round zero s enough = absurd (omega arith)
  first_round (suc fuel) s enough =
      let u = unread s.world.conn.read_buf in
      Halts-if (empty s.world.conn.read_buf) (λ _. halts tt)
        λ some_left.
          Halts-bind
            (round-Halts u s some_left λ c text held _.
              less-map u c.request_parser.bytes_ _ (parse-Counted c.request_parser text))
            λ r (_, next).
              Halts-if r.0 (λ goes. read_loop-Halts fuel u r.1 (next goes) (omega (arith, enough)))
                λ _. halts tt

  -- The loop of `handleReadEvent` ends when the fuel is more by two than the bytes to read, whatever
  -- bytes they are and wherever the parser stands, if the poller ends: every further round is for a
  -- request of at least one byte.
  pub handle_read_event-Halts :
      (fuel : ℕ) (s : Session net P)
      → suc (unread s.world.conn.read_buf) < fuel
      → Halts (λ _. Unit {0}) (handle_read_event net class handlers files root fuel s)
  unfolding handle_read_event
  handle_read_event-Halts fuel s enough =
      Halts-bind (or_fault-Halts s.context_ assertion_failed λ e. cc)
        λ _ _. first_round fuel s enough
