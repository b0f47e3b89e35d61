-- ===== src/Prelude/Bits.antt =====
-- `|` and `&` of words: the low digit law of `|`, disjoint fields, and masks of a byte by table.
use Prim.Native.Nat.{
  ℕ, zero, suc, ◌+◌, ◌*◌, ◌/◌, ◌%◌, ◌≤◌, ◌<◌, max, bit_or, digits, bit_or-bitwise,
}
use mathlib.Core.Path.{◌≡◌, refl}
use mathlib.Core.Bool.{Bool, true, false, ◌&&◌}
use native.Mathlib.Omega.{arith}
use styio.Prelude.Tests.{◌==◌, ==_iff}

-- x << k
abbrev pub shl : ℕ → ℕ → ℕ
shl x zero = x
shl x (suc k) = shl x k * 2

or_digits : ℕ → ℕ → ℕ → ℕ
or_digits n a b = digits (λ x. x) max n a b

or_digits_fuel : (n m a b : ℕ) → a ≤ n → a ≤ m → or_digits n a b ≡ or_digits m a b
unfolding or_digits
or_digits_fuel zero zero a b p q = refl
or_digits_fuel zero (suc m) zero b p q = refl
or_digits_fuel zero (suc m) (suc a) b p q = absurd (omega arith)
or_digits_fuel (suc n) zero zero b p q = refl
or_digits_fuel (suc n) zero (suc a) b p q = absurd (omega arith)
or_digits_fuel (suc n) (suc m) zero b p q = refl
or_digits_fuel (suc n) (suc m) (suc a) b p q =
    omega (arith, or_digits_fuel n m (suc a / 2) (b / 2) (omega arith) (omega arith))

zero-bit_or : (b : ℕ) → bit_or 0 b ≡ b
zero-bit_or b = bit_or-bitwise 0 b

pub bit_or_step : (a b : ℕ) → bit_or a b ≡ bit_or (a / 2) (b / 2) * 2 + max (a % 2) (b % 2)
unfolding or_digits
bit_or_step zero b = omega (arith, zero-bit_or b, zero-bit_or (b / 2))
bit_or_step (suc a) b = omega (
  arith,
  bit_or-bitwise (suc a) b,
  bit_or-bitwise (suc a / 2) (b / 2),
  or_digits_fuel a (suc a / 2) (suc a / 2) (b / 2) (omega arith) (omega arith),
)

bit_or-zero_fuel : (n a : ℕ) → a ≤ n → bit_or a 0 ≡ a
bit_or-zero_fuel n zero h = refl
bit_or-zero_fuel zero (suc a) h = absurd (omega arith)
bit_or-zero_fuel (suc n) (suc a) h =
    omega (arith, bit_or_step (suc a) 0, bit_or-zero_fuel n (suc a / 2) (omega arith))

-- A field placed above the bits of another is joined by adding.
pub bit_or-shl : (k a y : ℕ) → y < shl 1 k → bit_or (shl a k) y ≡ shl a k + y
bit_or-shl zero a zero h = omega (arith, bit_or-zero_fuel a a (omega arith))
bit_or-shl zero a (suc y) h = absurd (omega arith)
bit_or-shl (suc k) a y h =
    let half : shl a k * 2 / 2 ≡ shl a k = omega arith in
    let step = bit_or_step (shl a k * 2) y in
    omega (arith, rw half at step, bit_or-shl k a (y / 2) (omega arith))

abbrev pub all_below : ℕ → (ℕ → Bool) → Bool
all_below zero p = true
all_below (suc n) p = p n && all_below n p

pub all_below_sound : (n : ℕ) (p : ℕ → Bool) (x : ℕ) → all_below n p ≡ true → x < n → p x ≡ true
all_below_sound zero p x h lt = absurd (omega arith)
all_below_sound (suc n) p x h lt = ground (arith, all_below_sound n p x)

abbrev pub same_bool : Bool → Bool → Bool
same_bool true b = b
same_bool false true = false
same_bool false false = true

pub same_bool_eq : (a b : Bool) → same_bool a b ≡ true → a ≡ b
same_bool_eq a b h = ground arith

-- An equation of numbers, or of tests, that holds of every byte when it was run on each.
pub byte_eq : (f g : ℕ → ℕ) → all_below 256 (λ x. f x == g x) ≡ true → (x : ℕ) → x < 256 → f x ≡ g x
byte_eq f g t x h = (==_iff (f x) (g x)).0 (all_below_sound 256 (λ y. f y == g y) x t h)

pub byte_same :
    (f g : ℕ → Bool)
    → all_below 256 (λ x. same_bool (f x) (g x)) ≡ true
    → (x : ℕ) → x < 256
    → f x ≡ g x
byte_same f g t x h =
    same_bool_eq (f x) (g x) (all_below_sound 256 (λ y. same_bool (f y) (g y)) x t h)
