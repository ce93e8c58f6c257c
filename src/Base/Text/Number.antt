-- ===== src/Base/Text/Number.antt =====
-- `strconv.Atoi` and `strconv.Itoa`. An int is a `ℤ`; it is 64 bits wide, and a
-- number out of its range is refused.
use Prim.Native.Nat.{ℕ, zero, suc, ◌+◌, ◌-◌, ◌*◌, ◌/◌, ◌%◌, ◌≤◌}
use mathlib.Core.Bool.{Bool, true, false, ◌&&◌}
use mathlib.Core.Path.{◌≡◌, refl}
use mathlib.Core.Logic.{◌↔◌}
use native.Mathlib.Omega.{arith}
use mathlib.Core.Option.{Option, none, some}
use mathlib.Core.List.{[], ◌∷◌}
use load_balancer_controller.Base.Bools.{leb, ltb, ◌==◌, if◌then◌else◌}
use load_balancer_controller.Base.Text.Eq.{Text}

-- An int as the program reads it: `pos n` is n, `negsuc n` is -(n + 1).
pub data ℤ : Type 0 where
  pos : ℕ → ℤ
  negsuc : ℕ → ℤ

abbrev pub is_digit : ℕ → Bool
is_digit c = leb b'0' c && leb c b'9'

unfoldable pub digits_from : ℕ → Text → Option ℕ
digits_from acc [] = some acc
digits_from acc (c ∷ s) = if is_digit c then digits_from (acc * 10 + (c - b'0')) s else none

unfoldable pub unsigned : Text → Option ℕ
unfolding digits_from
unsigned [] = none
unsigned (c ∷ s) = digits_from 0 (c ∷ s)

abbrev pub max_int : ℕ
max_int = 9223372036854775807

abbrev positive : Option ℕ → Option ℤ
positive none = none
positive (some n) = if leb n max_int then some (pos n) else none

abbrev negative : Option ℕ → Option ℤ
negative none = none
negative (some zero) = some (pos 0)
negative (some (suc n)) = if leb n max_int then some (negsuc n) else none

unfoldable pub atoi : Text → Option ℤ
unfolding digits_from unsigned
atoi [] = none
atoi (c ∷ s) =
    if c == b'-'
    then negative (unsigned s)
    else if c == b'+'
    then positive (unsigned s)
    else positive (unsigned (c ∷ s))

unfoldable pub digits_of : ℕ → ℕ → Text → Text
digits_of zero n acc = acc
digits_of (suc fuel) n acc =
    let rest = digits_of fuel (n / 10) ((b'0' + n % 10) ∷ acc) in
    if ltb n 10 then (b'0' + n) ∷ acc else rest

-- 20 rounds print every number below 10 ^ 20, so every int.
unfoldable pub itoa : ℕ → Text
unfolding digits_of
itoa n = digits_of 20 n []

unfoldable pub itoa_int : ℤ → Text
unfolding itoa
itoa_int (pos n) = itoa n
itoa_int (negsuc n) = b'-' ∷ itoa (suc n)

unfoldable pub int_eq : ℤ → ℤ → Bool
int_eq (pos a) (pos b) = a == b
int_eq (negsuc a) (negsuc b) = a == b
int_eq _ _ = false

pub int_eq_iff : (a b : ℤ) → (int_eq a b ≡ true) ↔ (a ≡ b)
unfolding int_eq
int_eq_iff (pos a) (pos b) = ground arith
int_eq_iff (negsuc a) (negsuc b) = ground arith
int_eq_iff _ _ = ground arith

pub int_eq_refl : (a : ℤ) → int_eq a a ≡ true
int_eq_refl a = (int_eq_iff a a).1 refl

unfoldable pub int_lt : ℤ → ℤ → Bool
int_lt (pos a) (pos b) = ltb a b
int_lt (pos a) (negsuc b) = false
int_lt (negsuc a) (pos b) = true
int_lt (negsuc a) (negsuc b) = ltb b a

-- The 64-bit pattern of an int, and back: sums wrap around.
abbrev word_mod : ℕ
word_mod = 18446744073709551616

abbrev word : ℤ → ℕ
word (pos n) = n % word_mod
word (negsuc n) = word_mod - 1 - n % word_mod

abbrev signed : ℕ → ℤ
signed u = if leb u max_int then pos u else negsuc (word_mod - 1 - u)

unfoldable pub int_add : ℤ → ℤ → ℤ
int_add a b = signed ((word a + word b) % word_mod)

-- Sums of counts that fit the word do not wrap.
pub int_add-pos : (a b : ℕ) → a + b ≤ max_int → int_add (pos a) (pos b) ≡ pos (a + b)
unfolding int_add
int_add-pos a b h = ground arith

unfoldable pub int_mul : ℤ → ℤ → ℤ
int_mul a b = signed ((word a * word b) % word_mod)

-- Products of counts that fit the word do not wrap.
pub int_mul-pos :
    (a b : ℕ) → a ≤ max_int → b ≤ max_int → a * b ≤ max_int → int_mul (pos a) (pos b) ≡ pos (a * b)
unfolding int_mul
int_mul-pos a b ha hb h =
    let left : a % word_mod ≡ a = omega arith in
    let right : b % word_mod ≡ b = omega arith in
    let all : a * b % word_mod ≡ a * b = omega arith in rw (left, right, all) (ground arith)
