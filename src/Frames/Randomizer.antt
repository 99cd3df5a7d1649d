-- ===== src/Frames/Randomizer.antt =====
-- The pseudo-randomizer of crates/gateway/src/frames.rs: `PN_SEQUENCE` and `ccsds_randomize`.
pub mod Involution
pub mod Sequence
use Prim.Native.Nat.{bit_xor}
use chronus_gateway.Prelude.{ℕ, zero, suc, ◌+◌, ◌*◌, ◌%◌, List, [], ◌∷◌, get_or}
use chronus_gateway.Words.{Bytes}

-- The register `state`, as eight bits. A step emits `s0` and shifts the feedback in at the end.
record Register : Type 0 where
  s0 : ℕ
  s1 : ℕ
  s2 : ℕ
  s3 : ℕ
  s4 : ℕ
  s5 : ℕ
  s6 : ℕ
  s7 : ℕ

seed : Register
seed = record { s0 = 1; s1 = 1; s2 = 1; s3 = 1; s4 = 1; s5 = 1; s6 = 1; s7 = 1 }

shift : Register → Register
shift r = record {
  s0 = r.s1;
  s1 = r.s2;
  s2 = r.s3;
  s3 = r.s4;
  s4 = r.s5;
  s5 = r.s6;
  s6 = r.s7;
  s7 = bit_xor (bit_xor (bit_xor r.s0 r.s3) r.s5) r.s7;
}

-- Eight steps fill one octet, most significant bit first: `out[i / 8] |= bit << (7 - i % 8)`
-- over fresh bits, so `|` is `+`.
octet : ℕ → Register → ℕ → ℕ × Register
unfolding shift
octet zero r acc = (acc, r)
octet (suc n) r acc = octet n (shift r) (acc * 2 + r.s0)

generate : ℕ → Register → Bytes
unfolding octet
generate zero r = []
generate (suc n) r = let (b, r') = octet 8 r 0 in b ∷ generate n r'

-- One period, 255 octets.
unfoldable pub pn_sequence : Bytes
unfolding generate seed
pn_sequence = generate 255 seed

-- `frame.iter_mut().zip(PN_SEQUENCE.iter().cycle())`: byte `i` meets octet `i % 255`.
xor_from : Bytes → ℕ → Bytes → Bytes
xor_from pn i [] = []
xor_from pn i (byte ∷ rest) = bit_xor byte (get_or pn (i % 255) 0) ∷ xor_from pn (i + 1) rest

unfoldable pub ccsds_randomize : Bytes → Bytes
unfolding xor_from
ccsds_randomize frame = xor_from pn_sequence 0 frame
