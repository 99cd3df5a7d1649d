-- ===== src/Frames/Crc/Detection.antt =====
-- `crc16_ccitt` as an error-detecting code: the register stays a `u16`, and one wrong octet is
-- always seen.
use Prim.Native.Nat.{bit_xor}
use chronus_gateway.Prelude.{
  ℕ, zero, suc, ◌*◌, ◌/◌, ◌%◌, ◌^◌, ◌<◌, ◌≡◌, ◌≢◌, ap, sym, ◌∙◌, [], ◌∷◌, ◌++◌, arith,
}
use chronus_gateway.Words.Xor.{xor_step, xor-lt, xor_injective, xor_cancel_left}
use chronus_gateway.Words.{Bytes, IsByte}
use chronus_gateway.Frames.Crc.{shift_round, rounds, crc_from, crc16_ccitt}

shift_round-lt : (c : ℕ) → shift_round c < 2 ^ 16
unfolding shift_round
shift_round-lt c = ground (arith, xor-lt 16 (c * 2 % 2 ^ 16) 0x1021 (omega arith) (omega arith))

-- The lowest bit of the new register is the top bit of the old one.
shift_round_parity : (c : ℕ) → c < 2 ^ 16 → shift_round c % 2 ≡ c / 2 ^ 15
unfolding shift_round
shift_round_parity c h = ground (arith, xor_step (c * 2 % 2 ^ 16) 0x1021)

shift_round_injective : (a b : ℕ) → a < 2 ^ 16 → b < 2 ^ 16 → shift_round a ≡ shift_round b → a ≡ b
unfolding shift_round
shift_round_injective a b ha hb e =
    let top : a / 2 ^ 15 ≡ b / 2 ^ 15 =
      sym (shift_round_parity a ha) ∙ ap (λ t. t % 2) e ∙ shift_round_parity b hb in
    ground (arith, top, xor_injective (a * 2 % 2 ^ 16) (b * 2 % 2 ^ 16) 0x1021)

rounds-lt : (n c : ℕ) → c < 2 ^ 16 → rounds n c < 2 ^ 16
unfolding rounds
rounds-lt zero c h = h
rounds-lt (suc n) c h = rounds-lt n (shift_round c) (shift_round-lt c)

rounds_injective : (n a b : ℕ) → a < 2 ^ 16 → b < 2 ^ 16 → rounds n a ≡ rounds n b → a ≡ b
unfolding rounds
rounds_injective zero a b ha hb e = e
rounds_injective (suc n) a b ha hb e =
    shift_round_injective a b ha hb
      (rounds_injective n (shift_round a) (shift_round b) (shift_round-lt a) (shift_round-lt b) e)

-- The register with the next octet mixed into its upper half.
abbrev mix : ℕ → ℕ → ℕ
mix c byte = bit_xor c (byte * 2 ^ 8 % 2 ^ 16)

mix-lt : (c byte : ℕ) → c < 2 ^ 16 → mix c byte < 2 ^ 16
mix-lt c byte h = xor-lt 16 c _ h (omega arith)

crc_from-lt : (c : ℕ) (bytes : Bytes) → c < 2 ^ 16 → crc_from c bytes < 2 ^ 16
unfolding crc_from
crc_from-lt c [] h = h
crc_from-lt c (byte ∷ rest) h =
    crc_from-lt (rounds 8 (mix c byte)) rest (rounds-lt 8 (mix c byte) (mix-lt c byte h))

crc_from_injective :
    (a b : ℕ) (bytes : Bytes)
    → a < 2 ^ 16
    → b < 2 ^ 16
    → crc_from a bytes ≡ crc_from b bytes
    → a ≡ b
unfolding crc_from
crc_from_injective a b [] ha hb e = e
crc_from_injective a b (byte ∷ rest) ha hb e =
    let la = mix-lt a byte ha in
    let lb = mix-lt b byte hb in
    xor_injective a b _ (
      rounds_injective 8 (mix a byte) (mix b byte) la lb (
        crc_from_injective (rounds 8 (mix a byte)) (rounds 8 (mix b byte)) rest (rounds-lt 8 _ la)
          (rounds-lt 8 _ lb) e))

mix_injective : (c x y : ℕ) → IsByte x → IsByte y → mix c x ≡ mix c y → x ≡ y
mix_injective c x y hx hy e =
    let same : x * 2 ^ 8 % 2 ^ 16 ≡ y * 2 ^ 8 % 2 ^ 16 =
      sym (xor_cancel_left c _) ∙ ap (λ t. bit_xor t c) e ∙ xor_cancel_left c _ in
    omega arith

crc_from_one_octet :
    (c : ℕ) (before : Bytes) (x y : ℕ) (after : Bytes)
    → c < 2 ^ 16
    → IsByte x
    → IsByte y
    → crc_from c (before ++ x ∷ after) ≡ crc_from c (before ++ y ∷ after)
    → x ≡ y
unfolding crc_from
crc_from_one_octet c [] x y after hc hx hy e =
    let lx = mix-lt c x hc in
    let ly = mix-lt c y hc in
    mix_injective c x y hx hy (
      rounds_injective 8 (mix c x) (mix c y) lx ly
        (crc_from_injective _ _ after (rounds-lt 8 _ lx) (rounds-lt 8 _ ly) e))
crc_from_one_octet c (byte ∷ before) x y after hc hx hy e =
    crc_from_one_octet (rounds 8 (mix c byte)) before x y after (rounds-lt 8 _ (mix-lt c byte hc))
      hx hy e

-- The CRC of any bytes is a `u16`.
pub crc16_ccitt-lt : (bytes : Bytes) → crc16_ccitt bytes < 2 ^ 16
unfolding crc16_ccitt
crc16_ccitt-lt bytes = crc_from-lt 0xFFFF bytes (omega arith)

-- Two messages that differ in one octet, at any place, have different CRCs.
pub crc16_ccitt_one_octet :
    (before : Bytes) (x y : ℕ) (after : Bytes)
    → IsByte x
    → IsByte y
    → x ≢ y
    → crc16_ccitt (before ++ x ∷ after) ≢ crc16_ccitt (before ++ y ∷ after)
unfolding crc16_ccitt
crc16_ccitt_one_octet before x y after hx hy differs e =
    differs (crc_from_one_octet 0xFFFF before x y after (omega arith) hx hy e)
