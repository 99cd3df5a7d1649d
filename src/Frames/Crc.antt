-- ===== src/Frames/Crc.antt =====
-- `crc16_ccitt` of crates/gateway/src/frames.rs. The register is a `u16`: `<< 1` drops its top bit.
pub mod Detection
use Prim.Native.Nat.{bit_xor}
use chronus_gateway.Prelude.{ℕ, zero, suc, ◌*◌, ◌%◌, ◌^◌, [], ◌∷◌, if◌then◌else◌}
use chronus_gateway.Words.{Bytes, bit_set}

-- One round of the inner loop.
shift_round : ℕ → ℕ
shift_round crc = if bit_set crc 15 then bit_xor (crc * 2 % 2 ^ 16) 0x1021 else crc * 2 % 2 ^ 16

-- `for _ in 0..8`.
rounds : ℕ → ℕ → ℕ
rounds zero crc = crc
rounds (suc n) crc = rounds n (shift_round crc)

crc_from : ℕ → Bytes → ℕ
crc_from crc [] = crc
crc_from crc (byte ∷ rest) = crc_from (rounds 8 (bit_xor crc (byte * 2 ^ 8 % 2 ^ 16))) rest

unfoldable pub crc16_ccitt : Bytes → ℕ
unfolding crc_from rounds shift_round
crc16_ccitt bytes = crc_from 0xFFFF bytes
