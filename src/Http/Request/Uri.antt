-- ===== src/Http/Request/Uri.antt =====
-- src/http/HttpDef.cpp: `ParseURI` of a URI and a query as `toString` prints them.
use mathlib.Core.List.{append_assoc, append-nil}
use liby_cpp.Base.{
  ℕ, suc, ◌+◌, ◌-◌, ◌≡◌, refl, ap, ◌∙◌, true, [], ◌∷◌, ◌++◌, Option, none, some, arith, length,
  drop, length-append, le→leb, ok,
}
use liby_cpp.Http.{Text}
use liby_cpp.Http.Scan.{From, drop-suc-append}
use liby_cpp.Http.Request.{RequestParser, parsing_version, decode_uri, parse_uri, print_query}
use liby_cpp.Http.Request.Fields.{IsPlain, decode_uri-plain, up_to_nul-lacks}

decode_uri-all :
    (w r : Text) (j : ℕ) (q : Option ℕ)
    → IsPlain w
    → decode_uri (length w) (length w) j q (w ++ r) ≡ ok (q, w)
unfolding decode_uri
decode_uri-all w r j q h =
    let stay : length w + 0 ≡ length w = omega arith in
    rw (stay, append-nil w) at (decode_uri-plain w r [] 0 0 j q q h.no_percent h.no_mark refl)

decode_uri-query :
    (u q r : Text)
    → IsPlain u
    → IsPlain q
    → decode_uri (length (u ++ 63 ∷ q)) (length (u ++ 63 ∷ q)) 0 none (u ++ 63 ∷ (q ++ r))
      ≡ ok (some (length u), u ++ 0 ∷ q)
unfolding decode_uri
decode_uri-query u q r hu hq =
    let size : length (u ++ 63 ∷ q) ≡ length u + suc (length q) = length-append u (63 ∷ q) in
    let stay : length q - 0 ≡ length q = omega arith in
    let start : 0 + length u ≡ length u = omega arith in
    rw size (
      decode_uri-plain u (63 ∷ (q ++ r)) (0 ∷ q) (suc (length q)) (suc (length q)) 0 none
        (some (length u)) hu.no_percent hu.no_mark
        (rw (start, stay, decode_uri-all q r (suc (length u)) (some (length u)) hq) refl))

-- `ParseURI` of what `toString` prints, into a parser without a query.
pub parse_uri-printed :
    {text : Text} {i : ℕ} (p : RequestParser) (u q r : Text)
    → IsPlain u
    → IsPlain q
    → p.request.query_ ≡ []
    → From text i ((u ++ print_query q) ++ r)
    → parse_uri p text i (i + length (u ++ print_query q))
      ≡ ok (
        true,
        record p {
          progress_ = parsing_version;
          request = record p.request { query_ = q; uri_ = u };
        },
      )
unfolding parse_uri print_query
parse_uri-printed {text} {i} p u [] r hu hq fresh f =
    let size : (i + length u) - i ≡ length u = omega arith in
    let from = rw (append-nil u) at f.same in
    rw
      (
        append-nil u,
        le→leb i (i + length u) (omega arith),
        size,
        from,
        decode_uri-all u r 0 none hu,
        up_to_nul-lacks u [] hu.no_nul,
        fresh,
      )
      refl
parse_uri-printed {text} {i} p u (c ∷ cs) r hu hq fresh f =
    let q = c ∷ cs in
    let target = u ++ 63 ∷ q in
    let size : (i + length target) - i ≡ length target = omega arith in
    let from = f.same ∙ append_assoc u (63 ∷ q) r in
    let behind : drop (suc (length u)) ((u ++ 0 ∷ q) ++ 0 ∷ []) ≡ q ++ 0 ∷ [] =
      ap (drop (suc (length u))) (append_assoc u (0 ∷ q) (0 ∷ []))
      ∙ drop-suc-append u 0 (q ++ 0 ∷ []) in
    rw
      (
        le→leb i (i + length target) (omega arith),
        size,
        from,
        decode_uri-query u q r hu hq,
        behind,
        append_assoc u (0 ∷ q) (0 ∷ []),
        up_to_nul-lacks q [] hq.no_nul,
        up_to_nul-lacks u (q ++ 0 ∷ []) hu.no_nul,
      )
      refl
