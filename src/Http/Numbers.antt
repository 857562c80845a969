-- ===== src/Http/Numbers.antt =====
-- src/http/HttpDef.cpp: `std::stoi` as the reply parser uses it.
use liby_cpp.Base.{
  ℕ, ◌+◌, ◌-◌, ◌*◌, Bool, ◌&&◌, [], ◌∷◌, leb, ◌==◌, if◌then◌else◌, ℤ, pos, negsuc, Run, ok, fault,
  thrown, ◌>>=◌,
}
use liby_cpp.Http.{Text, is_space}

abbrev pub is_digit : ℕ → Bool
is_digit c = leb 48 c && leb c 57

abbrev pub skip_spaces : Text → Text
skip_spaces [] = []
skip_spaces (c ∷ cs) = if is_space c then skip_spaces cs else c ∷ cs

-- The digits at the front, after those that gave `value`.
abbrev pub read_digits : ℕ → Text → ℕ
read_digits value [] = value
read_digits value (c ∷ cs) = if is_digit c then read_digits (value * 10 + (c - 48)) cs else value

abbrev pub read_number : Text → Run ℕ
read_number [] = fault thrown
read_number (c ∷ cs) = if is_digit c then ok (read_digits 0 (c ∷ cs)) else fault thrown

-- An `int`, or `out_of_range`.
abbrev pub positive : ℕ → Run ℤ
positive n = if leb n 2147483647 then ok (pos n) else fault thrown

abbrev pub negative : ℕ → Run ℤ
negative n =
    if n == 0 then ok (pos 0) else if leb n 2147483648 then ok (negsuc (n - 1)) else fault thrown

abbrev pub read_signed : Text → Run ℤ
read_signed [] = fault thrown
read_signed (c ∷ cs) =
    if c == 45
    then read_number cs >>= negative
    else if c == 43
    then read_number cs >>= positive
    else read_number (c ∷ cs) >>= positive

-- `std::stoi`: white space, a sign, digits; what stands behind is ignored.
unfoldable pub stoi : Text → Run ℤ
stoi t = read_signed (skip_spaces t)
