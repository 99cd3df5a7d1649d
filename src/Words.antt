-- ===== src/Words.antt =====
-- Machine integers as native numbers: the wrap-around of each width is written out, and the
-- big-endian conversions `u16::from_be_bytes` and `to_be_bytes` are arithmetic on bytes.
pub mod Xor
use chronus_gateway.Prelude.{
  ℕ, ◌+◌, ◌*◌, ◌/◌, ◌%◌, ◌^◌, ◌<◌, ◌≡◌, Bool, List, [], ◌∷◌, ◌==◌, All, arith,
}

abbrev pub Bytes : Type 0
Bytes = List ℕ

abbrev pub IsByte : ℕ → Type 0
IsByte b = b < 256

abbrev pub IsBytes : Bytes → Type 0
IsBytes = All IsByte

-- `a.wrapping_add(1)` of a `u8`.
abbrev pub wrapping_succ_u8 : ℕ → ℕ
wrapping_succ_u8 a = (a + 1) % 2 ^ 8

-- `u16::from_be_bytes([hi, lo])`.
abbrev pub from_be_u16 : ℕ → ℕ → ℕ
from_be_u16 hi lo = hi * 256 + lo

-- The two bytes of `x.to_be_bytes()` of a `u16`.
abbrev pub be_hi : ℕ → ℕ
be_hi x = x / 256 % 256

abbrev pub be_lo : ℕ → ℕ
be_lo x = x % 256

-- `u32::from_be_bytes([a, b, c, d])`, and the four bytes of `x.to_be_bytes()` of a `u32`.
abbrev pub from_be_u32 : ℕ → ℕ → ℕ → ℕ → ℕ
from_be_u32 a b c d = a * 16777216 + b * 65536 + c * 256 + d

abbrev pub be_u32 : ℕ → Bytes
be_u32 x = x / 16777216 % 256 ∷ x / 65536 % 256 ∷ x / 256 % 256 ∷ x % 256 ∷ []

-- The four bytes of `x.to_be_bytes()`, read back.
pub from_be_u32-be_u32 :
    (x : ℕ)
    → x < 2 ^ 32
    → from_be_u32 (x / 16777216 % 256) (x / 65536 % 256) (x / 256 % 256) (x % 256) ≡ x
from_be_u32-be_u32 x h = omega arith

-- Bit `k` of `x`, as the source's `x & (1 << k) != 0`.
abbrev pub bit_set : ℕ → ℕ → Bool
bit_set x k = x / 2 ^ k % 2 == 1

-- `fetch_add` of an `AtomicU64`, which wraps.
abbrev pub fetch_add : ℕ → ℕ → ℕ
fetch_add counter n = (counter + n) % 2 ^ 64

pub fetch_add-fetch_add : (c a b : ℕ) → fetch_add (fetch_add c a) b ≡ fetch_add c (a + b)
fetch_add-fetch_add c a b = omega arith
