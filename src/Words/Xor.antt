-- ===== src/Words/Xor.antt =====
-- Laws of `^` on native numbers at variables, from the recursion on binary digits.
use Prim.Native.Nat.{bit_xor, digits, bit_xor-bitwise, differ}
use native.Mathlib.Nat.{le_refl, pow-suc}
use chronus_gateway.Prelude.{
  ℕ, zero, suc, ◌+◌, ◌*◌, ◌/◌, ◌%◌, ◌^◌, ◌≤◌, ◌<◌, ◌≡◌, refl, ap, sym, ◌∙◌, arith,
}

-- The binary digits with enough fuel, whatever the fuel.
digits_fuel :
    (f : ℕ → ℕ → ℕ) (n m a b : ℕ)
    → a ≤ n
    → a ≤ m
    → digits (λ y. y) f n a b ≡ digits (λ y. y) f m a b
digits_fuel f zero zero a b p q = refl
digits_fuel f zero (suc m) zero b p q = refl
digits_fuel f zero (suc m) (suc a) b p q = absurd (omega arith)
digits_fuel f (suc n) zero zero b p q = refl
digits_fuel f (suc n) zero (suc a) b p q = absurd (omega arith)
digits_fuel f (suc n) (suc m) zero b p q = refl
digits_fuel f (suc n) (suc m) (suc a) b p q =
    rw (digits_fuel f n m (suc a / 2) (b / 2) (omega arith) (omega arith))

differ_mod : (x y : ℕ) → x < 2 → y < 2 → differ x y ≡ (x + y) % 2
differ_mod zero y p q = omega arith
differ_mod (suc zero) zero p q = refl
differ_mod (suc zero) (suc zero) p q = refl
differ_mod (suc zero) (suc (suc y)) p q = absurd (omega arith)
differ_mod (suc (suc x)) y p q = absurd (omega arith)

-- Exclusive or, one binary digit at a time.
pub xor_step : (a b : ℕ) → bit_xor a b ≡ bit_xor (a / 2) (b / 2) * 2 + (a % 2 + b % 2) % 2
xor_step zero b = simp bit_xor-bitwise (omega arith)
xor_step (suc a) b = simp bit_xor-bitwise (
    omega (
      arith,
      digits_fuel differ a (suc a / 2) (suc a / 2) (b / 2) (omega arith) (le_refl _),
      differ_mod (suc a % 2) (b % 2) (omega arith) (omega arith),
    ))

xor_cancel_below : (n a b : ℕ) → a ≤ n → b ≤ n → bit_xor (bit_xor a b) b ≡ a
xor_cancel_below zero zero zero p q = refl
xor_cancel_below zero zero (suc b) p q = absurd (omega arith)
xor_cancel_below zero (suc a) b p q = absurd (omega arith)
xor_cancel_below (suc n) a b p q =
    let half : bit_xor a b / 2 ≡ bit_xor (a / 2) (b / 2) = omega (arith, xor_step a b) in
    omega (
      arith,
      xor_step a b,
      xor_step (bit_xor a b) b,
      ap (λ (t : ℕ). bit_xor t (b / 2)) half,
      xor_cancel_below n (a / 2) (b / 2) (omega arith) (omega arith),
    )

pub xor_cancel : (a b : ℕ) → bit_xor (bit_xor a b) b ≡ a
xor_cancel a b = xor_cancel_below (a + b) a b (omega arith) (omega arith)

xor_comm_below : (n a b : ℕ) → a ≤ n → b ≤ n → bit_xor a b ≡ bit_xor b a
xor_comm_below zero zero zero p q = refl
xor_comm_below zero zero (suc b) p q = absurd (omega arith)
xor_comm_below zero (suc a) b p q = absurd (omega arith)
xor_comm_below (suc n) a b p q = omega (
  arith,
  xor_step a b,
  xor_step b a,
  xor_comm_below n (a / 2) (b / 2) (omega arith) (omega arith),
)

pub xor_comm : (a b : ℕ) → bit_xor a b ≡ bit_xor b a
xor_comm a b = xor_comm_below (a + b) a b (omega arith) (omega arith)

pub xor_cancel_left : (a b : ℕ) → bit_xor (bit_xor a b) a ≡ b
xor_cancel_left a b = ap (λ t. bit_xor t a) (xor_comm a b) ∙ xor_cancel b a

pub xor_injective : (a b c : ℕ) → bit_xor a c ≡ bit_xor b c → a ≡ b
xor_injective a b c e = sym (xor_cancel a c) ∙ ap (λ t. bit_xor t c) e ∙ xor_cancel b c

-- Exclusive or of words of `k` bits is a word of `k` bits.
pub xor-lt : (k a b : ℕ) → a < 2 ^ k → b < 2 ^ k → bit_xor a b < 2 ^ k
xor-lt zero zero zero p q = omega arith
xor-lt zero zero (suc b) p q = absurd (omega arith)
xor-lt zero (suc a) b p q = absurd (omega arith)
xor-lt (suc k) a b p q =
    let fuller = pow-suc 2 k in
    omega (arith, fuller, xor_step a b, xor-lt k (a / 2) (b / 2) (omega arith) (omega arith))
