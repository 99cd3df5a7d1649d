-- ===== src/Frames/Randomizer/Sequence.antt =====
-- The sequence of `PN_SEQUENCE`, by its recurrence, and what `ccsds_randomize` does with it.
use Prim.Native.Nat.{bit_xor}
use chronus_gateway.Prelude.{
  ℕ, zero, suc, ◌+◌, ◌*◌, ◌/◌, ◌%◌, ◌^◌, ◌<◌, Bool, true, ◌&&◌, ◌==◌, List, [], ◌∷◌, ◌++◌, take,
  length, get_or, arith, ◌≡◌, refl, ap, ◌∙◌, ==_iff,
}
use native.Mathlib.Decide.{ℕ_discrete}
use chronus_gateway.Words.{Bytes}
use chronus_gateway.Frames.Randomizer.{xor_from, pn_sequence, ccsds_randomize}
use chronus_gateway.Frames.Randomizer.Involution.{randomize_twice, length-ccsds_randomize}

-- A sequence of bits of the generator h(x) = x^8 + x^7 + x^5 + x^3 + 1, seeded with ones.
pub record IsPseudorandom (bit : ℕ → ℕ) : Type 0 where
  pub seeded : (n : ℕ) → n < 8 → bit n ≡ 1
  pub recurs :
      (n : ℕ)
      → bit (n + 8) ≡ bit_xor (bit_xor (bit_xor (bit n) (bit (n + 3))) (bit (n + 5))) (bit (n + 7))

-- The octet of the eight bits from `n` on, most significant bit first.
abbrev pub octet_at : (ℕ → ℕ) → ℕ → ℕ
octet_at bit n =
    bit n * 128
    + bit (n + 1) * 64
    + bit (n + 2) * 32
    + bit (n + 3) * 16
    + bit (n + 4) * 8
    + bit (n + 5) * 4
    + bit (n + 6) * 2
    + bit (n + 7)

-- The bits of an octet, most significant first.
bits : (k b : ℕ) → List ℕ
bits zero b = []
bits (suc k) b = b / 2 ^ k % 2 ∷ bits k b

all_bits : Bytes → List ℕ
unfolding bits
all_bits [] = []
all_bits (b ∷ bs) = bits 8 b ++ all_bits bs

-- The bits repeat after 255.
pn_bits : List ℕ
unfolding all_bits pn_sequence
pn_bits = take 255 (all_bits pn_sequence)

abbrev bit_of_list : List ℕ → ℕ → ℕ
bit_of_list table n = get_or table (n % 255) 0

abbrev recurs_at : (ℕ → ℕ) → ℕ → Bool
recurs_at bit n =
    bit (n + 8) == bit_xor (bit_xor (bit_xor (bit n) (bit (n + 3))) (bit (n + 5))) (bit (n + 7))

abbrev octet_agrees : (ℕ → ℕ) → Bytes → ℕ → Bool
octet_agrees bit pn n = get_or pn n 0 == octet_at bit (8 * n)

all_below : (ℕ → Bool) → ℕ → Bool
all_below test zero = true
all_below test (suc n) = let rest = all_below test n in test n && rest

recurs_run : all_below (recurs_at (bit_of_list pn_bits)) 255 ≡ true
unfolding all_below pn_bits
recurs_run = refl

seeds_run : all_below (λ n. bit_of_list pn_bits n == 1) 8 ≡ true
unfolding all_below pn_bits
seeds_run = refl

octets_run : all_below (octet_agrees (bit_of_list pn_bits) pn_sequence) 255 ≡ true
unfolding all_below pn_bits pn_sequence
octets_run = refl

all_below-at : (test : ℕ → Bool) (n i : ℕ) → all_below test n ≡ true → i < n → test i ≡ true
unfolding all_below
all_below-at test zero i e h = absurd (omega (arith, h))
all_below-at test (suc n) i e h = elim (ℕ_discrete i n) [
  | yes last ↦ rw last (ground (arith, e))
  | no other ↦ all_below-at test n i (ground (arith, e)) (omega arith)
]

pn_bit : ℕ → ℕ
pn_bit = bit_of_list pn_bits

pn_bit-mod : (n m : ℕ) → n % 255 ≡ m % 255 → pn_bit n ≡ pn_bit m
unfolding pn_bit
pn_bit-mod n m e = ap (λ i. get_or pn_bits i 0) e

pn_bit-plus : (n k : ℕ) → pn_bit (n + k) ≡ pn_bit (n % 255 + k)
pn_bit-plus n k = pn_bit-mod (n + k) (n % 255 + k) (omega arith)

pn_bit_seeded : (n : ℕ) → n < 8 → pn_bit n ≡ 1
unfolding pn_bit
pn_bit_seeded n h = (==_iff _ _).0 (all_below-at (λ i. bit_of_list pn_bits i == 1) 8 n seeds_run h)

pn_bit_recurs :
    (n : ℕ)
    → n < 255
    → pn_bit (n + 8)
      ≡ bit_xor (bit_xor (bit_xor (pn_bit n) (pn_bit (n + 3))) (pn_bit (n + 5))) (pn_bit (n + 7))
unfolding pn_bit
pn_bit_recurs n h =
    (==_iff _ _).0 (all_below-at (recurs_at (bit_of_list pn_bits)) 255 n recurs_run h)

pn_bit-IsPseudorandom : IsPseudorandom pn_bit
pn_bit-IsPseudorandom = record {
  seeded = λ n h. pn_bit_seeded n h;
  recurs = λ n.
      rw
        (
          pn_bit-plus n 8,
          pn_bit-plus n 3,
          pn_bit-plus n 5,
          pn_bit-plus n 7,
          pn_bit-mod n (n % 255) (omega arith),
        )
        (pn_bit_recurs (n % 255) (omega arith));
}

-- Octet `i` of the sequence, which repeats after 255 octets, has the bits from `8 * i` on.
pn_octet : (i : ℕ) → get_or pn_sequence (i % 255) 0 ≡ octet_at pn_bit (8 * i)
unfolding pn_bit
pn_octet i =
    let m = i % 255 in
    let moved : (k : ℕ) → pn_bit (8 * m + k) ≡ pn_bit (8 * i + k) =
      λ k. pn_bit-mod (8 * m + k) (8 * i + k) (omega arith) in
    (==_iff _ _).0
      (all_below-at (octet_agrees (bit_of_list pn_bits) pn_sequence) 255 m octets_run (omega arith))
    ∙ rw
        (
          moved 1,
          moved 2,
          moved 3,
          moved 4,
          moved 5,
          moved 6,
          moved 7,
          pn_bit-mod (8 * m) (8 * i) (omega arith),
        )
        refl

xor_from-get_or :
    (pn : Bytes) (s : ℕ) (bytes : Bytes) (i : ℕ)
    → i < length bytes
    → get_or (xor_from pn s bytes) i 0 ≡ bit_xor (get_or bytes i 0) (get_or pn ((s + i) % 255) 0)
unfolding xor_from
xor_from-get_or pn s [] i h = absurd (omega (arith, h))
xor_from-get_or pn s (b ∷ bytes) zero h = ap (λ k. bit_xor b (get_or pn (k % 255) 0)) (omega arith)
xor_from-get_or pn s (b ∷ bytes) (suc i) h =
    xor_from-get_or pn (s + 1) bytes i (omega arith)
    ∙ ap (λ k. bit_xor (get_or bytes i 0) (get_or pn (k % 255) 0)) (omega arith)

-- The output has the length of the frame, and each octet is the frame's with the next eight bits
-- flipped where they are set.
pub record Randomized (bit : ℕ → ℕ) (frame out : Bytes) : Type 0 where
  pub same_length : length out ≡ length frame
  pub flipped :
      (i : ℕ)
      → i < length frame
      → get_or out i 0 ≡ bit_xor (get_or frame i 0) (octet_at bit (8 * i))

-- For every frame there is a sequence of bits that starts with eight ones and follows the
-- recurrence of the generator, and the octets of the randomized frame are those of the frame,
-- exclusive or the octets of this sequence, most significant bit first; randomizing again gives
-- the frame back.
pub ccsds_randomize-Randomized :
    (frame : Bytes)
    → (bit : ℕ → ℕ) × IsPseudorandom bit
      × Randomized bit frame (ccsds_randomize frame)
      × (ccsds_randomize (ccsds_randomize frame) ≡ frame)
unfolding ccsds_randomize
ccsds_randomize-Randomized frame = (
  pn_bit,
  pn_bit-IsPseudorandom,
  record {
    same_length = length-ccsds_randomize frame;
    flipped = λ i h.
        let here : 0 + i ≡ i = omega arith in
        xor_from-get_or pn_sequence 0 frame i h
        ∙ ap (λ k. bit_xor (get_or frame i 0) (get_or pn_sequence (k % 255) 0)) here
        ∙ ap (λ b. bit_xor (get_or frame i 0) b) (pn_octet i);
  },
  randomize_twice frame,
)
