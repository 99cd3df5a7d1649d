-- ===== src/Floats.antt =====
-- The floating-point operations that the gateway calls on `f64`. They are parameters: what is
-- proved holds for every behaviour of them, that on NaN and infinities included.
use chronus_gateway.Prelude.{ℕ, Bool}
use chronus_gateway.Integers.{ℤ}

pub record Float (F : Type 0) : Type 0 where
  -- The literal `n * 10^-e`, and `f64::from_bits` after `f32 as f64` of an `f32` given by its bits.
  pub lit : (n e : ℕ) → F
  pub of_f32 : ℕ → F
  pub of_u64 : ℕ → F
  pub of_i64 : ℤ → F
  pub pi : F
  pub nan : F
  pub add : F → F → F
  pub sub : F → F → F
  pub mul : F → F → F
  pub div : F → F → F
  pub max : F → F → F
  pub clamp : F → F → F → F
  pub neg : F → F
  pub abs : F → F
  pub log10 : F → F
  pub sqrt : F → F
  pub sin : F → F
  pub cos : F → F
  pub acos : F → F
  pub to_degrees : F → F
  pub to_radians : F → F
  -- `<`, `<=` and `is_finite`.
  pub lt : F → F → Bool
  pub le : F → F → Bool
  pub is_finite : F → Bool
