-- ===== src/Timestamp.antt =====
-- src/util.h: class Timestamp, a `struct timeval`. `tv_sec` is a signed number; `tv_usec` is never
-- negative here, as `gettimeofday` and the operations below leave it. Neither overflows.
mod Tests
use liby_cpp.Base.{
  ℕ, ◌+◌, ◌-◌, ◌*◌, ◌/◌, ◌%◌, ◌^◌, ◌≤◌, ◌<◌, ◌≡◌, refl, Bool, true, false, not, ◌&&◌, arith, ltb,
  ◌==◌, if◌then◌else◌, ℤ, pos, negsuc, pos_part, neg_part, ◌+ℤ◌, ◌-ℤ◌, ltb_ℤ, int_laws, Bool-cases,
  inl, inr, +ℤ_parts, -ℤ_parts, eq_of_parts, ◌↔◌, lt→ltb, le→ltb, ltb→lt,
}
use liby_cpp.BinaryHeap.Order.{IsStrictWeak}

abbrev pub micros_per_second : ℕ
micros_per_second = 1000 * 1000

pub record Timestamp : Type 0 where
  pub tv_sec : ℤ
  pub tv_usec : ℕ

-- `Timestamp(sec, usec)`, with the cast of `usec` to `uint32_t`.
pub timestamp : ℤ → ℕ → Timestamp
timestamp sec usec =
    if ltb micros_per_second (usec % 2 ^ 32)
    then record {
      tv_sec = sec +ℤ pos (usec / micros_per_second);
      tv_usec = usec % micros_per_second;
    }
    else record { tv_sec = sec; tv_usec = usec }

pub invalid : Timestamp → Bool
invalid t = not (ltb_ℤ t.tv_sec (pos 0)) && not (ltb_ℤ (pos 0) t.tv_sec) && t.tv_usec == 0

pub valid : Timestamp → Bool
valid t = not (invalid t)

-- `toMillSec()` and `toMicroSec()`, 64 bits wide.
unfoldable pub to_mill_sec : Timestamp → ℕ
to_mill_sec t =
    (pos_part t.tv_sec * 1000 + t.tv_usec / 1000 + (2 ^ 64 - (neg_part t.tv_sec * 1000) % 2 ^ 64))
    % 2 ^ 64

unfoldable pub to_micro_sec : Timestamp → ℕ
to_micro_sec t =
    (pos_part t.tv_sec * 1000000 + t.tv_usec + (2 ^ 64 - (neg_part t.tv_sec * 1000000) % 2 ^ 64))
    % 2 ^ 64

pub data Comparison : Type 0 where
  minus_one zero one : Comparison

pub compare_to : Timestamp → Timestamp → Comparison
compare_to this rhs =
    if ltb_ℤ this.tv_sec rhs.tv_sec
    then minus_one
    else if ltb_ℤ rhs.tv_sec this.tv_sec
    then one
    else if ltb this.tv_usec rhs.tv_usec
    then minus_one
    else if ltb rhs.tv_usec this.tv_usec
    then one
    else zero

abbrev is_minus_one : Comparison → Bool
is_minus_one minus_one = true
is_minus_one zero = false
is_minus_one one = false

-- `operator<`
unfoldable pub less : Timestamp → Timestamp → Bool
unfolding compare_to
less lhs rhs = is_minus_one (compare_to lhs rhs)

-- `operator-`
pub subtract : Timestamp → Timestamp → Timestamp
subtract lhs rhs =
    if ltb lhs.tv_usec rhs.tv_usec
    then timestamp (lhs.tv_sec -ℤ rhs.tv_sec -ℤ pos 1)
        (lhs.tv_usec + micros_per_second - rhs.tv_usec)
    else timestamp (lhs.tv_sec -ℤ rhs.tv_sec) (lhs.tv_usec - rhs.tv_usec)

-- `operator+`
pub add : Timestamp → Timestamp → Timestamp
add lhs rhs = timestamp (lhs.tv_sec +ℤ rhs.tv_sec) (lhs.tv_usec + rhs.tv_usec)

-- The time is written in the way that `gettimeofday` writes it.
abbrev pub IsNormal : Timestamp → Type 0
IsNormal t = t.tv_usec < micros_per_second

-- `operator<` of the times is a strict weak order.
less-IsStrictWeak : IsStrictWeak less
unfolding less
less-IsStrictWeak = record { asym = λ a b h. ground arith; neg_trans = λ a b c p q. ground arith }

-- The instant of the first time, in microseconds since the epoch, is before that of the second.
abbrev pub IsEarlier : Timestamp → Timestamp → Type 0
IsEarlier a b =
    pos_part a.tv_sec * micros_per_second + neg_part b.tv_sec * micros_per_second + a.tv_usec
    < pos_part b.tv_sec * micros_per_second + neg_part a.tv_sec * micros_per_second + b.tv_usec

-- For times whose microseconds are below a second, `operator<` says that the first is the smaller
-- one exactly if its instant, the microseconds since the epoch, is before that of the second; times
-- before the epoch are included.
pub less-instant : (a b : Timestamp) → IsNormal a → IsNormal b → (less a b ≡ true) ↔ IsEarlier a b
unfolding less compare_to
less-instant a b h k = (λ e. ground arith, λ e. ground arith)

-- `compareTo` answers 0 exactly for equal times, and swapping the two swaps its other answers.
pub compare_to_correct :
    (a b : Timestamp)
    → ((compare_to a b ≡ zero) ↔ (a ≡ b)) × ((compare_to a b ≡ minus_one) ↔ (compare_to b a ≡ one))
unfolding compare_to
compare_to_correct a b = (
  (λ h. ground (arith, eq_of_parts a.tv_sec b.tv_sec), λ h. ground arith),
  (λ h. ground arith, λ h. ground arith),
)

-- The constructor leaves a `usec` of up to a second alone, that of exactly a second too.
timestamp-small :
    (sec : ℤ) (usec : ℕ)
    → usec ≤ micros_per_second
    → timestamp sec usec ≡ record { tv_sec = sec; tv_usec = usec }
unfolding timestamp
timestamp-small sec usec h = ground arith

timestamp-carry :
    (sec : ℤ) (usec : ℕ)
    → micros_per_second < usec
    → usec < 2 * micros_per_second
    → timestamp sec usec ≡ record { tv_sec = sec +ℤ pos 1; tv_usec = usec - micros_per_second }
unfolding timestamp
timestamp-carry sec usec h k =
    let quot : usec / micros_per_second ≡ 1 = omega arith in
    let rest : usec % micros_per_second ≡ usec - micros_per_second = omega arith in
    let cast : usec % 2 ^ 32 ≡ usec = omega arith in
    rw (cast, lt→ltb micros_per_second usec h, quot, rest)

-- Adding a normal time and taking it away again gives the time that one began with.
pub subtract-add : (a b : Timestamp) → IsNormal a → IsNormal b → subtract (add a b) b ≡ a
unfolding subtract add
subtract-add a b h k = elim (Bool-cases (ltb micros_per_second (a.tv_usec + b.tv_usec))) [
  | inl over ↦
      let more = ltb→lt micros_per_second (a.tv_usec + b.tv_usec) over in
      let sum = a.tv_usec + b.tv_usec - micros_per_second in
      let back : sum + micros_per_second - b.tv_usec ≡ a.tv_usec = omega arith in
      let sec : a.tv_sec +ℤ b.tv_sec +ℤ pos 1 -ℤ b.tv_sec -ℤ pos 1 ≡ a.tv_sec = omega int_laws in
      rw
        (
          timestamp-carry (a.tv_sec +ℤ b.tv_sec) (a.tv_usec + b.tv_usec) more (omega arith),
          lt→ltb sum b.tv_usec (omega arith),
          back,
          sec,
        )
        (timestamp-small a.tv_sec a.tv_usec (omega arith))
  | inr under ↦
      let sec : a.tv_sec +ℤ b.tv_sec -ℤ b.tv_sec ≡ a.tv_sec = omega int_laws in
      let back : a.tv_usec + b.tv_usec - b.tv_usec ≡ a.tv_usec = omega arith in
      rw
        (
          timestamp-small (a.tv_sec +ℤ b.tv_sec) (a.tv_usec + b.tv_usec) (ground arith),
          le→ltb (a.tv_usec + b.tv_usec) b.tv_usec (omega arith),
          sec,
          back,
        )
        (timestamp-small a.tv_sec a.tv_usec (omega arith))
]

-- Where the microseconds add up to exactly one second, `operator+` does not carry: the sum keeps
-- 1000000 in `tv_usec`, and it compares as earlier than the same instant written as the next second.
pub add_not_normal :
    (a b : Timestamp)
    → a.tv_usec + b.tv_usec ≡ micros_per_second
    → ((add a b).tv_usec ≡ micros_per_second)
      × (less (add a b) (timestamp (a.tv_sec +ℤ b.tv_sec +ℤ pos 1) 0) ≡ true)
unfolding add
add_not_normal a b h =
    let s = a.tv_sec +ℤ b.tv_sec in
    rw
      (
        h,
        timestamp-small s micros_per_second (omega arith),
        timestamp-small (s +ℤ pos 1) 0 (omega arith),
      )
      (refl, less-next s micros_per_second)
  where
    less-next :
        (s : ℤ) (u : ℕ)
        → less (record { tv_sec = s; tv_usec = u }) (record { tv_sec = s +ℤ pos 1; tv_usec = 0 })
          ≡ true
    less-next s u = unfold less in ground (arith, +ℤ_parts s (pos 1))
