-- ===== src/Validate/Sum.antt =====
-- The flags that the checks of crates/gateway/src/validate.rs raise, as a sum of masks.
use chronus_gateway.Prelude.{
  ℕ, ◌+◌, ◌*◌, ◌/◌, ◌%◌, ◌<◌, ◌≡◌, refl, Bool, true, false, ◌&&◌, Option, none, some, is_some_and,
  one_if, ◌==◌, Result, ok, err, arith, Bool-cases, inl, inr,
}
use chronus_gateway.Floats.{Float}
use chronus_gateway.Words.{Bytes}
use chronus_gateway.Hil.{DecodedHilTmV1, HilTmV1DecodeError, decode_hil_tm_v1}
use chronus_gateway.Validate.{TrackingState, HilSubsystemCvParams, allows_apid}
use chronus_gateway.Validate.Checks.{
  raise_if, is_body_rate_anomaly, is_eps_anomaly, is_thermal_anomaly, apply_hil_subsystem_checks,
  with_decoded, hil_block,
}

-- Raising a bit that is clear adds its mask.
raise_if-add :
    (b : Bool) (mask flags : ℕ)
    → flags / mask % 2 ≡ 0
    → raise_if b mask flags ≡ flags + one_if b * mask
unfolding raise_if
raise_if-add true mask flags h = ground arith
raise_if-add false mask flags h = ground arith

pub one_if-lt : (b : Bool) → one_if b < 2
one_if-lt true = omega arith
one_if-lt false = omega arith

pub bit_of : (b : Bool) (x : ℕ) → x ≡ one_if b → (x == 1) ≡ b
bit_of true x h = ground arith
bit_of false x h = ground arith

abbrev pub decoded_and : Result HilTmV1DecodeError DecodedHilTmV1 → (DecodedHilTmV1 → Bool) → Bool
decoded_and (ok hil) p = p hil
decoded_and (err e) p = false

pub raise_four :
    (b0 b1 b2 b3 : Bool)
    → raise_if b3 8 (raise_if b2 4 (raise_if b0 1 (raise_if b1 2 0)))
      ≡ one_if b1 * 2 + one_if b0 * 1 + one_if b2 * 4 + one_if b3 * 8
raise_four b0 b1 b2 b3 =
    let s1 = raise_if-add b1 2 0 (omega arith) in
    let s2 = raise_if-add b0 1 (0 + one_if b1 * 2) (omega (arith, one_if-lt b1)) in
    let s3 =
      raise_if-add b2 4 (0 + one_if b1 * 2 + one_if b0 * 1)
        (omega (arith, one_if-lt b1, one_if-lt b0)) in
    let s4 =
      raise_if-add b3 8 (0 + one_if b1 * 2 + one_if b0 * 1 + one_if b2 * 4)
        (omega (arith, one_if-lt b1, one_if-lt b0, one_if-lt b2)) in
    rw (s1, s2, s3, s4) (omega arith)

-- The HIL checks on flags whose bits 4, 5 and 6 are clear.
raise_three :
    (b4 b5 b6 : Bool) (low : ℕ)
    → low < 16
    → raise_if b5 32 (raise_if b4 16 (raise_if b6 64 low))
      ≡ low + one_if b6 * 64 + one_if b4 * 16 + one_if b5 * 32
raise_three b4 b5 b6 low h =
    let s1 = raise_if-add b6 64 low (omega arith) in
    let s2 = raise_if-add b4 16 (low + one_if b6 * 64) (omega (arith, one_if-lt b6)) in
    let s3 =
      raise_if-add b5 32 (low + one_if b6 * 64 + one_if b4 * 16)
        (omega (arith, one_if-lt b6, one_if-lt b4)) in
    rw (s1, s2, s3) refl

module _ {F : Type 0} (fl : Float F) where
  with_decoded-sum :
      (state : TrackingState F) (p : HilSubsystemCvParams F)
      (r : Result HilTmV1DecodeError DecodedHilTmV1) (low : ℕ)
      → low < 16
      → with_decoded fl state p r low
        ≡ low
          + one_if (decoded_and r (λ hil. is_body_rate_anomaly fl hil p)) * 64
          + one_if (decoded_and r (λ hil. is_eps_anomaly fl state hil p)) * 16
          + one_if (decoded_and r (λ hil. is_thermal_anomaly fl state hil p)) * 32
  unfolding apply_hil_subsystem_checks
  with_decoded-sum state p (ok hil) low h =
      raise_three (is_eps_anomaly fl state hil p) (is_thermal_anomaly fl state hil p)
        (is_body_rate_anomaly fl hil p) low h
  with_decoded-sum state p (err e) low h = omega arith

  pub hil_block-sum :
      (state : TrackingState F) (apid : ℕ) (bytes : Bytes) (hil : Option (HilSubsystemCvParams F))
      (low : ℕ)
      → low < 16
      → let finds : (DecodedHilTmV1 → HilSubsystemCvParams F → Bool) → Bool = λ check.
        is_some_and hil
          (λ p. allows_apid p apid && decoded_and (decode_hil_tm_v1 bytes) (λ d. check d p)) in
        hil_block fl state apid bytes hil low
        ≡ low
          + one_if (finds (is_body_rate_anomaly fl)) * 64
          + one_if (finds (is_eps_anomaly fl state)) * 16
          + one_if (finds (is_thermal_anomaly fl state)) * 32
  hil_block-sum state apid bytes none low h = omega arith
  hil_block-sum state apid bytes (some p) low h = elim (Bool-cases (allows_apid p apid)) [
    | inl a ↦ rw a (with_decoded-sum state p (decode_hil_tm_v1 bytes) low h)
    | inr a ↦ rw a (omega arith)
  ]
