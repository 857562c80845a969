-- ===== src/Base/Outcome.antt =====
-- How a call of the program ends: with a value, or in one of the ways C++ code can go wrong.
use mathlib.Core.Path.{◌≡◌, refl, subst}
use mathlib.Core.Bool.{Bool, true, false}
use mathlib.Core.Option.{Option, none, some}
use package.liby_cpp.Base.Tests.{if◌then◌else◌}

pub data Fault : Type 0 where
  assertion_failed : Fault
  out_of_bounds : Fault
  null_pointer : Fault
  thrown : Fault
  out_of_fuel : Fault

pub data Run {ℓ} (X : Type ℓ) : Type ℓ where
  fault : Fault → Run X
  ok : X → Run X

infixl 5 ◌>>=◌ ◌>>◌
abbrev pub ◌>>=◌ {ℓ κ} : {X : Type ℓ} {Y : Type κ} → Run X → (X → Run Y) → Run Y
fault reason >>= rest = fault reason
ok x >>= rest = rest x

abbrev pub ◌>>◌ {ℓ} : {B : Type ℓ} → Run (Unit {0}) → Run B → Run B
m >> k = m >>= λ _. k

-- `assert(b)`
abbrev pub assert : Bool → Run (Unit {0})
assert true = ok tt
assert false = fault assertion_failed

abbrev pub or_fault {ℓ} : {X : Type ℓ} → Option X → Fault → Run X
or_fault none reason = fault reason
or_fault (some x) reason = ok x

-- The call ends normally, and `Q` holds of the value it ends with.
pub data Returns {ℓ κ} {X : Type ℓ} (Q : X → Type κ) : Run X → Type (ℓ ⊔ κ) where
  returns : {x : X} → Q x → Returns Q (ok x)

-- What a call that ends normally ends with.
pub Returns-inv {ℓ κ} :
    {X : Type ℓ} {Q : X → Type κ} {call : Run X} → Returns Q call → (x : X) × (call ≡ ok x) × Q x
Returns-inv {X} {Q} (returns {x} q) = (x, refl, q)

-- A test ends normally if the branch it takes does.
pub Returns-if {ℓ κ} :
    {X : Type ℓ} {Q : X → Type κ} {yes no : Run X} (test : Bool)
    → (test ≡ true → Returns Q yes)
    → (test ≡ false → Returns Q no)
    → Returns Q (if test then yes else no)
Returns-if false on_true on_false = on_false refl
Returns-if true on_true on_false = on_true refl

-- A weaker statement of the value.
pub Returns-map {ℓ κ κ'} :
    {X : Type ℓ} {Q : X → Type κ} {Goal : X → Type κ'} {call : Run X}
    → Returns Q call
    → ((x : X) → Q x → Goal x)
    → Returns Goal call
Returns-map (returns {x} q) weaken = returns (weaken x q)

-- Two calls in sequence.
pub Returns-bind {ℓ κ ℓ' κ'} :
    {X : Type ℓ} {Q : X → Type κ} {Y : Type ℓ'} {Goal : Y → Type κ'} {call : Run X}
    {rest : X → Run Y}
    → Returns Q call
    → ((x : X) → Q x → Returns Goal (rest x))
    → Returns Goal (call >>= rest)
Returns-bind (returns {x} q) continue = continue x q

-- The call ends normally, and `Q` holds of the value, or it stops in a way that the program states
-- itself (an assertion, an exception), or the fuel is used up: it makes no wrong access to memory.
pub data Safe {ℓ κ} {X : Type ℓ} (Q : X → Type κ) : Run X → Type (ℓ ⊔ κ) where
  safe : {x : X} → Q x → Safe Q (ok x)
  stopped : {e : Fault} → ¬ (e ≡ out_of_bounds) → ¬ (e ≡ null_pointer) → Safe Q (fault e)

pub Safe-bind {ℓ κ ℓ' κ'} :
    {X : Type ℓ} {Q : X → Type κ} {Y : Type ℓ'} {Goal : Y → Type κ'} {call : Run X}
    {rest : X → Run Y}
    → Safe Q call
    → ((x : X) → Q x → Safe Goal (rest x))
    → Safe Goal (call >>= rest)
Safe-bind (safe {x} q) continue = continue x q
Safe-bind (stopped a b) continue = stopped a b

pub Safe-if {ℓ κ} :
    {X : Type ℓ} {Q : X → Type κ} {yes no : Run X} (test : Bool)
    → (test ≡ true → Safe Q yes)
    → (test ≡ false → Safe Q no)
    → Safe Q (if test then yes else no)
Safe-if false on_true on_false = on_false refl
Safe-if true on_true on_false = on_true refl

pub Safe-assert : (test : Bool) → Safe (λ _. Unit {0}) (assert test)
Safe-assert true = safe tt
Safe-assert false = stopped (λ e. cc) λ e. cc

-- Two calls in sequence are the same if the second is, at the value of the first.
pub bind-cong {ℓ κ} :
    {X : Type ℓ} {Y : Type κ} (call : Run X) (f g : X → Run Y)
    → ((x : X) → call ≡ ok x → f x ≡ g x)
    → (call >>= f) ≡ (call >>= g)
bind-cong (ok x) f g h = h x refl
bind-cong (fault e) f g h = refl

pub ok-inj {ℓ} : {X : Type ℓ} {x y : X} → ok x ≡ ok y → x ≡ y
ok-inj e = cc

-- `Q` holds of the value if the call ends normally.
pub data Then {ℓ κ} {X : Type ℓ} (Q : X → Type κ) : Run X → Type (ℓ ⊔ κ) where
  done : {x : X} → Q x → Then Q (ok x)
  failed : {e : Fault} → Then Q (fault e)

pub Then-inv {ℓ κ} :
    {X : Type ℓ} {Q : X → Type κ} {call : Run X} {x : X} → Then Q call → call ≡ ok x → Q x
Then-inv {X} {Q} (done {x} q) e = subst Q (ok-inj e) q
Then-inv failed e = absurd cc

pub Then-bind {ℓ κ ℓ' κ'} :
    {X : Type ℓ} {Q : X → Type κ} {Y : Type ℓ'} {Goal : Y → Type κ'} {call : Run X}
    {rest : X → Run Y}
    → Then Q call
    → ((x : X) → Q x → Then Goal (rest x))
    → Then Goal (call >>= rest)
Then-bind (done {x} q) continue = continue x q
Then-bind failed continue = failed

pub Then-if {ℓ κ} :
    {X : Type ℓ} {Q : X → Type κ} {yes no : Run X} (test : Bool)
    → (test ≡ true → Then Q yes)
    → (test ≡ false → Then Q no)
    → Then Q (if test then yes else no)
Then-if false on_true on_false = on_false refl
Then-if true on_true on_false = on_true refl

pub Then-any {ℓ} : {X : Type ℓ} (call : Run X) → Then (λ _. Unit {0}) call
Then-any (ok x) = done tt
Then-any (fault e) = failed

pub Safe-Then {ℓ κ} : {X : Type ℓ} {Q : X → Type κ} {call : Run X} → Safe Q call → Then Q call
Safe-Then (safe {x} q) = done q
Safe-Then (stopped a b) = failed

-- The call ends, the fuel is not used up, and `Q` holds of the value if it ends normally.
pub data Halts {ℓ κ} {X : Type ℓ} (Q : X → Type κ) : Run X → Type (ℓ ⊔ κ) where
  halts : {x : X} → Q x → Halts Q (ok x)
  broke : {e : Fault} → ¬ (e ≡ out_of_fuel) → Halts Q (fault e)

pub Halts-bind {ℓ κ ℓ' κ'} :
    {X : Type ℓ} {Q : X → Type κ} {Y : Type ℓ'} {Goal : Y → Type κ'} {call : Run X}
    {rest : X → Run Y}
    → Halts Q call
    → ((x : X) → Q x → Halts Goal (rest x))
    → Halts Goal (call >>= rest)
Halts-bind (halts {x} q) continue = continue x q
Halts-bind (broke e) continue = broke e

pub Halts-if {ℓ κ} :
    {X : Type ℓ} {Q : X → Type κ} {yes no : Run X} (test : Bool)
    → (test ≡ true → Halts Q yes)
    → (test ≡ false → Halts Q no)
    → Halts Q (if test then yes else no)
Halts-if false on_true on_false = on_false refl
Halts-if true on_true on_false = on_true refl

pub Halts-assert : (test : Bool) → Halts (λ _. Unit {0}) (assert test)
Halts-assert true = halts tt
Halts-assert false = broke (λ e. cc)

pub Halts-map {ℓ κ κ'} :
    {X : Type ℓ} {Q : X → Type κ} {Goal : X → Type κ'} {call : Run X}
    → Halts Q call
    → ((x : X) → Q x → Goal x)
    → Halts Goal call
Halts-map (halts {x} q) weaken = halts (weaken x q)
Halts-map (broke e) weaken = broke e
