-- ===== src/Http/Client/Spin.antt =====
-- src/http/HttpClient.cpp: `handleReadEvent` of a reply whose body has not come yet.
use liby_cpp.Base.{
  ℕ, zero, suc, ◌-◌, ◌<◌, ◌≡◌, refl, ap, ◌∙◌, true, false, Bool-cases, inl, inr, [], ◌∷◌, Option,
  some, map, arith, length, length-map, leb, ◌==◌, ne→==, Run, ok, fault, out_of_fuel, pos,
}
use liby_cpp.Buffer.Content.{Holds}
use liby_cpp.Buffer.Halts.{retrieve-none}
use liby_cpp.Poller.Class.{Class}
use liby_cpp.Connection.{Net}
use liby_cpp.Http.{Text, same, lookup, assign, get_or_empty, Headers}
use liby_cpp.Http.Numbers.{stoi}
use liby_cpp.Http.Reply.{
  ReplyParser, Progress, parsing_body, bad_version, good, code, is_error, is_good, content_length,
  with_key,
}
use liby_cpp.Http.Reply.Stages.{from_progress, parse}
use liby_cpp.Http.Reply.Body.{length_text, from_body-waits}
use liby_cpp.Http.Server.Answers.{read_text-ok}
use liby_cpp.Http.Server.Pipeline.{empty-content}
use liby_cpp.Http.Client.{Client, ClientHandlers, round, handle_read_event}

same_self : (t : Text) → same t t ≡ true
same_self [] = refl
same_self (c ∷ cs) = ground (arith, same_self cs)

lookup-assign : (k v : Text) (hs : Headers) → lookup same k (assign same k v hs) ≡ some v
lookup-assign k v [] = rw (same_self k) refl
lookup-assign k v ((key, value) ∷ hs) = elim (Bool-cases (same k key)) [
  | inl e ↦ rw (e, e) refl
  | inr e ↦ rw (e, e) (lookup-assign k v hs)
]

-- The parser waits for a body of `n` bytes.
pub record IsWaiting (n : ℕ) (p : ReplyParser) : Type 0 where
  pub in_body : p.progress_ ≡ parsing_body
  pub promised : stoi (length_text p) ≡ ok (pos n)

with_key-IsWaiting :
    (n : ℕ) (p : ReplyParser) → IsWaiting n p → IsWaiting n (with_key content_length p)
unfolding with_key
with_key-IsWaiting n p h = record {
  in_body = h.in_body;
  promised =
      ap (λ (o : Option Text). stoi (get_or_empty o))
        (lookup-assign content_length (length_text p) p.reply.headers_)
      ∙ h.promised;
}

parse-waits :
    (n : ℕ) (p : ReplyParser) (text : Text)
    → IsWaiting n p
    → length text < n
    → parse p text ≡ ok (with_key content_length p)
unfolding parse from_progress
parse-waits n p text h short =
    ap (λ (s : Progress). from_progress s p text) h.in_body
    ∙ from_body-waits p text 0 n (omega (arith, short)) h.promised

with_key-none_taken : (p : ReplyParser) → (with_key content_length p).bytes_ - p.bytes_ ≡ 0
unfolding with_key
with_key-none_taken p = omega arith

not_over : (p : ReplyParser) (n : ℕ) → IsWaiting n p → (is_error p ≡ false) × (is_good p ≡ false)
unfolding is_error is_good code
not_over p n h = (
  ap (λ (s : Progress). leb (code bad_version) (code s)) h.in_body,
  ap (λ (s : Progress). code s == code good) h.in_body,
)

module _ (net : Net) {P : Type 0} {U : Type 0} (class : Class P) (handlers : ClientHandlers)
    (act : ℕ → Client net P U → Run (Client net P U)) where
  abbrev set_parser : ReplyParser → Client net P U → Client net P U
  set_parser p c = let state = record c.state { parser_ = p } in record c { state = state }

  round-stays :
      (n : ℕ) (p : ReplyParser) (c : Client net P U) (text : Text)
      → IsWaiting n p
      → length text < n
      → Holds (map some text) c.world.conn.read_buf
      → 0 < c.world.conn.read_buf.capacity_
      → round net class handlers act (set_parser p c)
        ≡ ok (true, set_parser (with_key content_length p) c)
  unfolding round
  round-stays n p c text waits short holds set =
      let q = with_key content_length p in
      let none_taken : q.bytes_ - p.bytes_ ≡ 0 = with_key-none_taken p in
      let (fine, unfinished) = not_over q n (with_key-IsWaiting n p waits) in
      rw
        (
          read_text-ok c.world.conn.read_buf text holds.valid set holds.same,
          parse-waits n p text waits short,
          none_taken,
          retrieve-none c.world.conn.read_buf holds.valid,
          fine,
          unfinished,
        )
        refl

  spins :
      (fuel n : ℕ) (p : ReplyParser) (c : Client net P U) (text : Text)
      → IsWaiting n p
      → 0 < length text
      → length text < n
      → Holds (map some text) c.world.conn.read_buf
      → 0 < c.world.conn.read_buf.capacity_
      → handle_read_event net class handlers act fuel (set_parser p c) ≡ fault out_of_fuel
  unfolding handle_read_event
  spins zero n p c text waits long short holds set = refl
  spins (suc fuel) n p c text waits long short holds set =
      let full =
        empty-content c.world.conn.read_buf (length text) holds.valid
          (ap length holds.same ∙ length-map (λ (x : ℕ). some x) text) in
      let none_left = ne→== (length text) 0 (λ e. omega (arith, long, e)) in
      rw (full, none_left, round-stays n p c text waits short holds set)
        (spins fuel n (with_key content_length p) c text (with_key-IsWaiting n p waits) long short
          holds set)

  -- A read event that finds some bytes of a reply's body, but not all of the `n` bytes that
  -- "Content-Length" promises, goes round the loop for ever: no fuel is enough. The loop leaves only
  -- when the buffer is empty or the parser is in error, and here it is neither, in no round.
  pub handle_read_event-spins :
      (fuel n : ℕ) (c : Client net P U) (text : Text)
      → IsWaiting n c.state.parser_
      → 0 < length text
      → length text < n
      → Holds (map some text) c.world.conn.read_buf
      → 0 < c.world.conn.read_buf.capacity_
      → handle_read_event net class handlers act fuel c ≡ fault out_of_fuel
  handle_read_event-spins fuel n c text waits long short holds set =
      spins fuel n c.state.parser_ c text waits long short holds set
