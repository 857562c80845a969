-- ===== src/Http/Reply/ReadBack.antt =====
-- src/http/HttpDef.cpp: the reply parser reads back what `Reply::toString` prints.
use mathlib.Core.Path.{subst}
use mathlib.Core.List.{append_assoc, append-nil, map-append}
use liby_cpp.Base.{
  ℕ, zero, suc, ◌+◌, ◌-◌, ◌≤◌, ◌<◌, ◌≡◌, refl, sym, ap, ◌∙◌, true, false, List, [], ◌∷◌, ◌++◌, none,
  some, map, arith, ◌==◌, length, length-append, length-map, ℤ, pos, negsuc, ok, Returns, returns,
  Returns-inv, Then, done, failed, Then-inv, Then-if, Then-bind, Then-any, ltb, take, drop,
}
use liby_cpp.Buffer.{Cell, empty}
use liby_cpp.Buffer.Moves.{append_bytes}
use liby_cpp.Buffer.Content.{IsValid, Holds, length-content, size-ok, bytes-ok, block}
use liby_cpp.Buffer.Retrieve.{retrieve_all-Holds}
use liby_cpp.Http.{Text, same, lookup, assign, get_or_empty, Headers}
use liby_cpp.Http.Numbers.{stoi}
use liby_cpp.Http.Scan.{From, From-start, From-add}
use liby_cpp.Http.Request.HeaderLines.{IsHeader, AreHeaders, assign-new}
use liby_cpp.Http.Reply.{
  Reply, ReplyParser, parsing_version, good, clear, status_number, content_length, with_key,
}
use liby_cpp.Http.Reply.Stages.{from_body, take_body, from_progress, parse}
use liby_cpp.Http.Reply.Body.{from_body_correct}
use liby_cpp.Http.Reply.Print.{print_number, print_head, to_string}
use liby_cpp.Http.Reply.Digits.{stoi-print_number, print_number-plain}
use liby_cpp.Http.Reply.Status.{string_of, string_of-lacks}
use liby_cpp.Http.Reply.Head.{
  ready, line_size, from_version-printed, print_head-append, length-print_head,
}

-- The parser has read status, headers and body, and counted `n` bytes.
pub record HasRead (s : ℕ) (hs : Headers) (bs : Text) (n : ℕ) (q : ReplyParser) : Type 0 where
  pub finished : q.progress_ ≡ good
  pub status : q.reply.status_ ≡ s
  pub headers : q.reply.headers_ ≡ hs
  pub body : Holds (map some bs) q.reply.content_
  pub counted : q.bytes_ ≡ n

Keeps : ReplyParser → ReplyParser → Type 0
Keeps p q = (q.reply.status_ ≡ p.reply.status_) × (q.reply.headers_ ≡ p.reply.headers_)

take_body-Keeps :
    (p : ReplyParser) (text : Text) (i : ℕ) (len : ℤ) → Then (Keeps p) (take_body p text i len)
unfolding take_body Keeps
take_body-Keeps p text i (pos zero) = done (refl, refl)
take_body-Keeps p text i (pos (suc n)) =
    Then-if (ltb (length text - i) (suc n)) (λ _. done (refl, refl))
      λ _.
        Then-bind (Then-any (append_bytes p.reply.content_ (map some (take (suc n) (drop i text)))))
          λ content _. done (refl, refl)
take_body-Keeps p text i (negsuc n) = failed

from_body-Keeps :
    (p : ReplyParser) (text : Text) (i : ℕ)
    → Then (Keeps (with_key content_length p)) (from_body p text i)
unfolding from_body
from_body-Keeps p text i =
    Then-bind (Then-any (stoi (get_or_empty (lookup same content_length p.reply.headers_))))
      λ len _. take_body-Keeps (with_key content_length p) text i len

assign-known :
    (key value : Text) (h : Headers) → lookup same key h ≡ some value → assign same key value h ≡ h
assign-known key value [] e = absurd cc
assign-known key value ((k, v) ∷ rest) e = ground (arith, assign-known key value rest)

module _ (p : ReplyParser) (s : ℕ) (w : Text) (hs : Headers) (bs rest : Text)
    (valid : IsValid p.reply.content_) (known : lookup ◌==◌ s status_number ≡ some w)
    (a : AreHeaders [] hs) (sized : lookup same content_length hs ≡ some (print_number (length bs)))
    (some_byte : 0 < length bs) (small : length bs ≤ 2147483647) where
  abbrev head : Text
  head = print_head s hs

  -- The parser before the body.
  abbrev before_body : ReplyParser
  before_body =
      ready
        (record (clear p) {
          progress_ = parsing_version;
          reply = record (clear p).reply { status_ = s };
        })
        (line_size w (string_of s)) hs

  parse-head :
      parse (clear p) (head ++ (bs ++ rest))
      ≡ from_body before_body (head ++ (bs ++ rest)) (length head)
  unfolding parse from_progress clear
  parse-head =
      let text = head ++ (bs ++ rest) in
      let same_text = print_head-append s w hs (bs ++ rest) known in
      let f = subst (From text 0) same_text (From-start text) in
      rw (length-print_head s w hs known) (
        from_version-printed (record (clear p) { progress_ = parsing_version }) s w (string_of s) hs
          (bs ++ rest) f known (string_of-lacks s) a refl)

  read_back :
      Returns (HasRead s hs bs (length (head ++ bs))) (parse (clear p) ((head ++ bs) ++ rest))
  unfolding clear Keeps with_key
  read_back =
      let text = head ++ (bs ++ rest) in
      let fresh = retrieve_all-Holds p.reply.content_ valid in
      let number : stoi (get_or_empty (lookup same content_length hs)) ≡ ok (pos (length bs)) =
        rw sized (stoi-print_number (length bs) small) in
      let zero_first : 0 + length head ≡ length head = omega arith in
      let f : From text (length head) (bs ++ rest) =
        rw zero_first at (From-add head (bs ++ rest) (From-start text)) in
      let (q, e, taken) =
        Returns-inv (
          from_body_correct before_body text (length head) bs rest fresh.valid f some_byte
            number) in
      let (status, headers) = Then-inv (from_body-Keeps before_body text (length head)) e in
      rw (append_assoc head bs rest, parse-head, e)
        (returns (record {
          finished = taken.finished;
          status = status;
          headers =
              headers ∙ rw sized (assign-known content_length (print_number (length bs)) hs sized);
          body =
              subst (λ (cells : List Cell). Holds (cells ++ map some bs) q.reply.content_)
                fresh.same taken.body;
          counted =
              omega (arith, taken.counted, length-append head bs, length-print_head s w hs known);
        }))

AreHeaders-snoc :
    (before hs : Headers) (key value : Text)
    → AreHeaders before hs
    → IsHeader key value
    → lookup same key (before ++ hs) ≡ none
    → AreHeaders before (hs ++ (key, value) ∷ [])
unfolding AreHeaders
AreHeaders-snoc before [] key value a h new = (h, rw (append-nil before) at new, tt)
AreHeaders-snoc before ((k, v) ∷ hs) key value (first, apart, more) h new = (
  first,
  apart,
  AreHeaders-snoc (before ++ (k, v) ∷ []) hs key value more h
      (rw (append_assoc before ((k, v) ∷ []) hs) new),
)

lookup-snoc :
    (key value : Text) (h : Headers)
    → same key key ≡ true
    → lookup same key h ≡ none
    → lookup same key (h ++ (key, value) ∷ []) ≡ some value
lookup-snoc key value [] self e = rw self refl
lookup-snoc key value ((k, v) ∷ rest) self e = ground (arith, lookup-snoc key value rest)

-- What `toString` prints for a reply with a status of the table, headers with distinct keys that a
-- line can hold, none of them "Content-Length", and content, a parser that was cleared reads back: it
-- ends with `Good`, with the status, the headers and behind them the "Content-Length" of the body, and
-- the body as its content; it has counted the bytes printed, and what stands behind these is not
-- looked at.
pub parse-to_string_reply :
    (p : ReplyParser) (r : Reply) (w bs rest : Text)
    → IsValid p.reply.content_
    → lookup ◌==◌ r.status_ status_number ≡ some w
    → AreHeaders [] r.headers_
    → lookup same content_length r.headers_ ≡ none
    → Holds (map some bs) r.content_
    → 0 < length bs
    → length bs ≤ 2147483647
    → Returns
        (λ printed.
          (text : Text) × (printed.1 ≡ map some text)
          × Returns
              (HasRead r.status_
                (r.headers_ ++ (content_length, print_number (length bs)) ∷ [])
                bs
                (length text))
              (parse (clear p) (text ++ rest)))
        (to_string r)
unfolding to_string empty
parse-to_string_reply p r w bs rest valid known a new holds some_byte small =
    let number = print_number (length bs) in
    let hs = r.headers_ ++ (content_length, number) ∷ [] in
    let amount : r.content_.right_index - r.content_.left_index ≡ length bs =
      sym (length-content r.content_ holds.valid) ∙ ap length holds.same ∙ length-map some bs in
    let present : (r.content_.left_index == r.content_.right_index) ≡ false = ground arith in
    let room : 0 < length (block r.content_.buffer) =
      omega (arith, holds.valid.sized, holds.valid.within, holds.valid.ordered) in
    let (in_line, begins) = print_number-plain (length bs) in
    let line : IsHeader content_length number = record {
      no_colon = refl;
      key_in_line = refl;
      value_in_line = in_line;
      key_ends = refl;
      value_starts = begins;
    } in
    rw
      (
        present,
        size-ok r.content_ holds.valid,
        bytes-ok r.content_ holds.valid room,
        amount,
        assign-new content_length number r.headers_ new,
        rw amount at holds.same,
      )
      (returns (
        print_head r.status_ hs ++ bs,
        sym (map-append some (print_head r.status_ hs) bs),
        read_back p r.status_ w hs bs rest valid known
            (AreHeaders-snoc [] r.headers_ content_length number a line new)
            (lookup-snoc content_length number r.headers_ refl new) some_byte small,
      ))
