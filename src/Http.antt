-- ===== src/Http.antt =====
-- src/http/HttpDef.cpp, src/http/HttpDef.h: what the classes share: characters as bytes, texts,
-- pointers into the text as positions, and the tables.
pub mod Scan
pub mod Mime
pub mod Request
pub mod Numbers
pub mod Reply
pub mod Server
pub mod Client
pub mod Example
mod Tests
mod ReplyTests
use liby_cpp.Base.{
  ℕ, zero, suc, ◌+◌, ◌-◌, ◌/◌, ◌%◌, ◌*◌, Bool, true, false, ◌&&◌, ◌||◌, List, [], ◌∷◌, ◌++◌, Option,
  none, some, ltb, leb, ◌==◌, if◌then◌else◌, length, get_elem?, take, drop, Run, ok, fault,
  out_of_bounds, thrown, or_fault, ◌>>=◌,
}

-- A sequence of bytes, each below 256.
abbrev pub Text : Type 0
Text = List ℕ

abbrev pub same : Text → Text → Bool
same [] [] = true
same [] (d ∷ ds) = false
same (c ∷ cs) [] = false
same (c ∷ cs) (d ∷ ds) = c == d && same cs ds

-- `*p` for the pointer `p` to position `i`.
unfoldable pub char_at : Text → ℕ → Run ℕ
char_at text i = or_fault (get_elem? text i) out_of_bounds

-- How far the first `c` is from the start, the length if there is none.
abbrev pub find_index : ℕ → Text → ℕ
find_index c [] = 0
find_index c (d ∷ ds) = if d == c then 0 else suc (find_index c ds)

-- `std::find(begin, end, c)` where `end` is the end of the text: the end if there is no `c`, and a
-- walk through foreign memory from behind the end.
unfoldable pub find_char : Text → ℕ → ℕ → Run ℕ
find_char text begin c =
    if leb begin (length text)
    then ok (begin + find_index c (drop begin text))
    else fault out_of_bounds

-- `std::string(begin, end)`, which throws on a negative length.
unfoldable pub substring : Text → ℕ → ℕ → Run Text
substring text begin end =
    if leb begin end then ok (take (end - begin) (drop begin text)) else fault thrown

-- `isspace`: tab, line feed, vertical tab, form feed, carriage return and blank.
abbrev pub is_space : ℕ → Bool
is_space c = c == 32 || (leb 9 c && leb c 13)

-- A C string: up to the first NUL.
abbrev pub up_to_nul : Text → Text
up_to_nul [] = []
up_to_nul (c ∷ cs) = if c == 0 then [] else c ∷ up_to_nul cs

-- `c | 32` of a byte.
abbrev pub or_32 : ℕ → ℕ
or_32 c = if ((c / 32) % 2) == 1 then c else c + 32

-- The value of a digit, as a byte: `temp - 'a' + 10` wraps around for what is no digit.
abbrev pub hex_digit : ℕ → ℕ
hex_digit c = if leb 48 c && leb c 57 then c - 48 else (or_32 c + 169) % 256

-- `parse_hex(s)` with `s` at the start of the memory given.
unfoldable pub parse_hex : Text → Run ℕ
parse_hex memory = do
  c ← char_at memory 0
  d ← char_at memory 1
  ok ((hex_digit c * 16 + hex_digit d) % 256)

-- `std::unordered_map`, in the order in which an iteration goes through it.
module _ {ℓ κ} {K : Type ℓ} {V : Type κ} where
  abbrev pub lookup : (K → K → Bool) → K → List (K × V) → Option V
  lookup equal k [] = none
  lookup equal k ((key, value) ∷ rest) = if equal k key then some value else lookup equal k rest

  -- `map[k] = v`
  abbrev pub assign : (K → K → Bool) → K → V → List (K × V) → List (K × V)
  assign equal k v [] = (k, v) ∷ []
  assign equal k v ((key, value) ∷ rest) =
      if equal k key then (key, v) ∷ rest else (key, value) ∷ assign equal k v rest

abbrev pub get_or_empty : Option Text → Text
get_or_empty none = []
get_or_empty (some t) = t

abbrev pub Headers : Type 0
Headers = List (Text × Text)

-- Blank, colon and line feed, as the parsers look for them.
abbrev pub blank : ℕ
blank = 32

abbrev pub colon : ℕ
colon = 58

abbrev pub line_feed : ℕ
line_feed = 10

abbrev pub carriage_return : ℕ
carriage_return = 13

-- The enumeration of the methods.
abbrev pub invalid_method : ℕ
invalid_method = 0

abbrev pub get : ℕ
get = 1

abbrev pub post : ℕ
post = 2

abbrev pub options : ℕ
options = 3

abbrev pub head : ℕ
head = 4

abbrev pub get_text : Text
get_text = 71 ∷ 69 ∷ 84 ∷ []

abbrev pub post_text : Text
post_text = 80 ∷ 79 ∷ 83 ∷ 84 ∷ []

abbrev pub options_text : Text
options_text = 79 ∷ 80 ∷ 84 ∷ 73 ∷ 79 ∷ 78 ∷ 83 ∷ []

abbrev pub head_text : Text
head_text = 72 ∷ 69 ∷ 65 ∷ 68 ∷ []

-- `methods`
unfoldable pub methods : List (Text × ℕ)
methods = (get_text, get) ∷ (post_text, post) ∷ (head_text, head) ∷ (options_text, options) ∷ []

-- `methods_string`
unfoldable pub methods_string : List (ℕ × Text)
methods_string =
    (get, get_text) ∷ (post, post_text) ∷ (head, head_text) ∷ (options, options_text) ∷ []

-- "HTTP/1.1" and "HTTP/1.0"
abbrev pub http_1_1 : Text
http_1_1 = 72 ∷ 84 ∷ 84 ∷ 80 ∷ 47 ∷ 49 ∷ 46 ∷ 49 ∷ []

abbrev pub http_1_0 : Text
http_1_0 = 72 ∷ 84 ∷ 84 ∷ 80 ∷ 47 ∷ 49 ∷ 46 ∷ 48 ∷ []
