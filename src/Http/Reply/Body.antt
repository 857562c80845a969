-- ===== src/Http/Reply/Body.antt =====
-- src/http/HttpDef.cpp: `case ParsingBody` of `ReplyParser::parse`, and a status that is not known.
use liby_cpp.Base.{
  ℕ, zero, suc, ◌+◌, ◌-◌, ◌<◌, ◌≡◌, refl, sym, ap, true, [], ◌∷◌, ◌++◌, none, some, map, arith,
  length, drop, take, length-append, length-map, lt→ltb, le→ltb, ==_self, pos, ℤ, ok, fault, thrown,
  Returns, returns, Returns-bind, Returns-map,
}
use liby_cpp.Buffer.Content.{IsValid, Holds, content}
use liby_cpp.Buffer.Moves.Append.{append_correct}
use liby_cpp.Http.{Text, same, lookup, get_or_empty}
use liby_cpp.Http.Numbers.{stoi}
use liby_cpp.Http.Scan.{From, lacks, From-length, find_char-From, substring-From, take-append}
use liby_cpp.Http.Reply.{
  ReplyParser, good, content_length, find_status, set_status, parse_status, with_key,
}
use liby_cpp.Http.Reply.Stages.{take_body, from_body, from_headers, from_status}

-- The value of "Content-Length", the empty text if there is none.
abbrev pub length_text : ReplyParser → Text
length_text p = get_or_empty (lookup same content_length p.reply.headers_)

-- The parser has taken the body `bs`.
pub record HasTaken (p : ReplyParser) (bs : Text) (q : ReplyParser) : Type 0 where
  pub body : Holds (content p.reply.content_ ++ map some bs) q.reply.content_
  pub finished : q.progress_ ≡ good
  pub counted : q.bytes_ ≡ p.bytes_ + length bs

take_body-HasTaken :
    {text : Text} {i : ℕ} (p : ReplyParser) (n : ℕ) (bs r : Text)
    → IsValid p.reply.content_
    → From text i (bs ++ r)
    → length bs ≡ suc n
    → Returns (HasTaken p bs) (take_body p text i (pos (suc n)))
unfolding take_body
take_body-HasTaken {text} {i} p n bs r v f size =
    let enough =
      le→ltb (length text - i) (suc n) (omega (arith, From-length f, length-append bs r)) in
    let taken : take (suc n) (drop i text) ≡ bs = rw (f.same, ← size) (take-append bs r) in
    let positive : 0 < length (map some bs) = omega (arith, length-map some bs) in
    rw (enough, taken)
      (Returns-bind (append_correct p.reply.content_ (map some bs) v positive) λ b h.
        returns
          (record { body = h; finished = refl; counted = ap (λ (k : ℕ). p.bytes_ + k) (sym size) }))

-- The body of a reply whose "Content-Length" is its length, and not 0: when all its bytes are
-- there, `parse` ends with `Good`, the bytes behind those that the valid `content_` held before, and
-- `bytes_` that much larger; what stands behind the body is not looked at.
pub from_body_correct :
    (p : ReplyParser) (text : Text) (i : ℕ) (bs r : Text)
    → IsValid p.reply.content_
    → From text i (bs ++ r)
    → 0 < length bs
    → stoi (length_text p) ≡ ok (pos (length bs))
    → Returns (HasTaken p bs) (from_body p text i)
unfolding from_body with_key
from_body_correct p text i [] r v f h e = absurd (omega arith)
from_body_correct p text i (c ∷ cs) r v f h e =
    let p' = with_key content_length p in
    rw e (
      Returns-map (take_body-HasTaken p' (length cs) (c ∷ cs) r v f refl)
        λ q t. record { body = t.body; finished = t.finished; counted = t.counted })

-- As long as bytes of the body are missing, `parse` takes none and stays where it is.
pub from_body-waits :
    (p : ReplyParser) (text : Text) (i n : ℕ)
    → length text - i < n
    → stoi (length_text p) ≡ ok (pos n)
    → from_body p text i ≡ ok (with_key content_length p)
unfolding from_body take_body
from_body-waits p text i zero h e = absurd (omega arith)
from_body-waits p text i (suc n) h e = rw (e, lt→ltb (length text - i) (suc n) h) refl

-- Headers that are cut at the end of a line fall through to the body: without a "Content-Length"
-- so far, `parse` throws.
pub from_headers-cut :
    (fuel : ℕ) (p : ReplyParser) (text : Text)
    → lookup same content_length p.reply.headers_ ≡ none
    → from_headers (suc fuel) p text (length text) ≡ fault thrown
unfolding from_headers from_body stoi
from_headers-cut fuel p text h = rw (==_self (length text), h) refl

-- A status that is a number but not in the table leaves the parser as it was, without an error,
-- where it reads the same status again.
pub from_status-unknown :
    (p : ReplyParser) (text : Text) (i : ℕ) (w r : Text) (status : ℤ)
    → From text i (w ++ 32 ∷ r)
    → lacks 32 w ≡ true
    → stoi w ≡ ok status
    → find_status status ≡ none
    → from_status p text i ≡ ok p
unfolding from_status parse_status set_status
from_status-unknown p text i w r status f h number unknown =
    rw (find_char-From w r 32 f h, substring-From w (32 ∷ r) f, number, unknown) refl
