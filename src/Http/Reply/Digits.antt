-- ===== src/Http/Reply/Digits.antt =====
-- src/http/HttpDef.cpp: `std::stoi` of what `std::to_string` prints.
use liby_cpp.Base.{
  ℕ, zero, suc, ◌+◌, ◌-◌, ◌*◌, ◌/◌, ◌%◌, ◌≤◌, ◌<◌, ◌≡◌, refl, ◌∙◌, Bool, true, false, ◌&&◌,
  Bool-cases, inl, inr, [], ◌∷◌, ◌++◌, arith, ltb, if◌then◌else◌, ltb-ge, pos, ok,
}
use liby_cpp.Http.{Text}
use liby_cpp.Http.Scan.{lacks, solid_start}
use liby_cpp.Http.Numbers.{is_digit, read_digits, stoi}
use liby_cpp.Http.Reply.Print.{print_digits, print_number}

abbrev all_digits : Text → Bool
all_digits [] = true
all_digits (c ∷ cs) = is_digit c && all_digits cs

all_digits-snoc :
    (w : Text) (c : ℕ) → all_digits w ≡ true → is_digit c ≡ true → all_digits (w ++ c ∷ []) ≡ true
all_digits-snoc [] c h k = ground arith
all_digits-snoc (d ∷ w) c h k = ground (arith, all_digits-snoc w c)

read_digits-snoc :
    (w : Text) (c value : ℕ)
    → all_digits w ≡ true
    → is_digit c ≡ true
    → read_digits value (w ++ c ∷ []) ≡ read_digits value w * 10 + (c - 48)
read_digits-snoc [] c value h k = ground arith
read_digits-snoc (d ∷ w) c value h k = ground (arith, read_digits-snoc w c (value * 10 + (d - 48)))

last-digit : (n : ℕ) → is_digit (48 + n % 10) ≡ true
last-digit n = ground arith

-- The digits of a number, with enough fuel, read as the number.
record Reads (n : ℕ) (w : Text) : Type 0 where
  digits : all_digits w ≡ true
  value : read_digits 0 w ≡ n

print_digits-Reads : (fuel n : ℕ) → n < fuel → Reads n (print_digits fuel n)
print_digits-Reads zero n h = absurd (omega arith)
print_digits-Reads (suc fuel) n h = elim (Bool-cases (ltb n 10)) [
  | inl small ↦ rw small (record { digits = ground arith; value = ground arith })
  | inr large ↦
      let rest = print_digits-Reads fuel (n / 10) (omega (arith, ltb-ge n 10 large)) in
      let w = print_digits fuel (n / 10) in
      rw large (record {
        digits = all_digits-snoc w (48 + n % 10) rest.digits (last-digit n);
        value =
            read_digits-snoc w (48 + n % 10) 0 rest.digits (last-digit n)
            ∙ omega (arith, rest.value);
      })
]

stoi-digits :
    (c : ℕ) (cs : Text) (n : ℕ)
    → all_digits (c ∷ cs) ≡ true
    → read_digits 0 (c ∷ cs) ≡ n
    → n ≤ 2147483647
    → stoi (c ∷ cs) ≡ ok (pos n)
unfolding stoi
stoi-digits c cs n h e small = ground arith

-- A text with a last byte is not empty.
stoi-Reads :
    (w : Text) (c n : ℕ) → Reads n (w ++ c ∷ []) → n ≤ 2147483647 → stoi (w ++ c ∷ []) ≡ ok (pos n)
stoi-Reads [] c n r small = stoi-digits c [] n r.digits r.value small
stoi-Reads (d ∷ w) c n r small = stoi-digits d (w ++ c ∷ []) n r.digits r.value small

-- A number within `int` is read back from its digits.
pub stoi-print_number : (n : ℕ) → n ≤ 2147483647 → stoi (print_number n) ≡ ok (pos n)
unfolding print_number
stoi-print_number n small =
    stoi-Reads (if ltb n 10 then [] else print_digits n (n / 10)) (48 + n % 10) n
      (print_digits-Reads (suc n) n (omega arith)) small

digits-lacks : (c : ℕ) (w : Text) → is_digit c ≡ false → all_digits w ≡ true → lacks c w ≡ true
digits-lacks c [] h k = refl
digits-lacks c (d ∷ w) h k = ground (arith, digits-lacks c w)

digits-start :
    (w : Text) (c : ℕ) → all_digits (w ++ c ∷ []) ≡ true → solid_start (w ++ c ∷ []) ≡ true
digits-start [] c h = ground arith
digits-start (d ∷ w) c h = ground arith

-- A printed number is a value that a header line can hold.
pub print_number-plain :
    (n : ℕ) → (lacks 10 (print_number n) ≡ true) × (solid_start (print_number n) ≡ true)
unfolding print_number
print_number-plain n =
    let r = print_digits-Reads (suc n) n (omega arith) in
    (
      digits-lacks 10 (print_digits (suc n) n) refl r.digits,
      digits-start (if ltb n 10 then [] else print_digits n (n / 10)) (48 + n % 10) r.digits,
    )
