-- ===== src/Prelude/Integers.antt =====
-- Integers over the natural numbers of the library, and the arithmetic of an int64_t.
use styio.Prelude.{ℕ, zero, suc, ◌+◌, ◌-◌, ◌*◌, Bool, Option, none, some, leb, if◌then◌else◌}

-- `negsuc n` is -(n + 1)
pub data ℤ : Type 0 where
  pos : ℕ → ℤ
  negsuc : ℕ → ℤ

abbrev difference : ℕ → ℕ → ℤ
difference a b = if leb b a then pos (a - b) else negsuc (b - a - 1)

abbrev negate : ℤ → ℤ
negate (pos zero) = pos 0
negate (pos (suc n)) = negsuc n
negate (negsuc n) = pos (suc n)

infixl 65 ◌+ℤ◌ ◌-ℤ◌
infixl 70 ◌*ℤ◌
unfoldable pub ◌+ℤ◌ : ℤ → ℤ → ℤ
pos a +ℤ pos b = pos (a + b)
pos a +ℤ negsuc b = difference a (suc b)
negsuc a +ℤ pos b = difference b (suc a)
negsuc a +ℤ negsuc b = negsuc (suc (a + b))

unfoldable pub ◌-ℤ◌ : ℤ → ℤ → ℤ
unfolding ◌+ℤ◌
a -ℤ b = a +ℤ negate b

unfoldable pub ◌*ℤ◌ : ℤ → ℤ → ℤ
pos a *ℤ pos b = pos (a * b)
pos a *ℤ negsuc b = negate (pos (a * suc b))
negsuc a *ℤ pos b = negate (pos (suc a * b))
negsuc a *ℤ negsuc b = pos (suc a * suc b)

abbrev pub max_int : ℕ
max_int = 9223372036854775807

-- The values of an int64_t.
abbrev pub is_int64 : ℤ → Bool
is_int64 (pos n) = leb n max_int
is_int64 (negsuc n) = leb n max_int

-- A result of signed arithmetic; outside of the range the behaviour is undefined.
abbrev pub checked : ℤ → Option ℤ
checked z = if is_int64 z then some z else none
