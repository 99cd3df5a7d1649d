-- ===== src/Integers.antt =====
-- The integers over the native natural numbers: the `i64` times of the source.
use chronus_gateway.Prelude.{
  ℕ, ◌+◌, ◌-◌, ◌^◌, ◌≡◌, Bool, true, false, Option, none, some, leb, ltb, if◌then◌else◌, arith,
}

-- `negsuc n` is the number below `- n`.
pub data ℤ : Type 0 where
  pos : ℕ → ℤ
  negsuc : ℕ → ℤ

-- `a <= b`.
abbrev pub le_int : ℤ → ℤ → Bool
le_int (pos a) (pos b) = leb a b
le_int (pos a) (negsuc b) = false
le_int (negsuc a) (pos b) = true
le_int (negsuc a) (negsuc b) = leb b a

-- `(a - b).abs()`.
abbrev pub distance : ℤ → ℤ → ℕ
distance (pos a) (pos b) = a - b + (b - a)
distance (pos a) (negsuc b) = a + b + 1
distance (negsuc a) (pos b) = a + b + 1
distance (negsuc a) (negsuc b) = a - b + (b - a)

-- The two parts of an integer, of which one is zero, and the difference of two numbers.
abbrev pub above_zero : ℤ → ℕ
above_zero (pos n) = n
above_zero (negsuc n) = 0

abbrev pub below_zero : ℤ → ℕ
below_zero (pos n) = 0
below_zero (negsuc n) = n + 1

abbrev pub difference : ℕ → ℕ → ℤ
difference a b = if leb b a then pos (a - b) else negsuc (b - a - 1)

infixl 65 ◌+ℤ◌ ◌-ℤ◌
unfoldable pub ◌+ℤ◌ : ℤ → ℤ → ℤ
a +ℤ b = difference (above_zero a + above_zero b) (below_zero a + below_zero b)

unfoldable pub ◌-ℤ◌ : ℤ → ℤ → ℤ
a -ℤ b = difference (above_zero a + below_zero b) (below_zero a + above_zero b)

pub +ℤ-parts :
    (a b : ℤ)
    → above_zero (a +ℤ b) + (below_zero a + below_zero b)
      ≡ below_zero (a +ℤ b) + (above_zero a + above_zero b)
unfolding ◌+ℤ◌
+ℤ-parts a b = ground arith

pub -ℤ-parts :
    (a b : ℤ)
    → above_zero (a -ℤ b) + (below_zero a + above_zero b)
      ≡ below_zero (a -ℤ b) + (above_zero a + below_zero b)
unfolding ◌-ℤ◌
-ℤ-parts a b = ground arith

-- Integers with the same difference of parts are equal.
pub ℤ-ext : (a b : ℤ) → above_zero a + below_zero b ≡ above_zero b + below_zero a → a ≡ b
ℤ-ext (pos a) (pos b) h = ground arith
ℤ-ext (pos a) (negsuc b) h = absurd (omega arith)
ℤ-ext (negsuc a) (pos b) h = absurd (omega arith)
ℤ-ext (negsuc a) (negsuc b) h = ground arith

-- The range of `i64`; a checked operation gives none outside it.
abbrev pub in_i64 : ℤ → Bool
in_i64 (pos n) = ltb n (2 ^ 63)
in_i64 (negsuc n) = ltb n (2 ^ 63)

abbrev pub checked_i64 : ℤ → Option ℤ
checked_i64 a = if in_i64 a then some a else none

-- `u64::try_from` and its kin, at a bound.
abbrev pub to_unsigned : ℕ → ℤ → Option ℕ
to_unsigned bound (pos n) = if ltb n bound then some n else none
to_unsigned bound (negsuc n) = none
