-- ===== src/Frames/Randomizer/Involution.antt =====
-- `ccsds_randomize` is its own inverse, for every frame and every length.
use chronus_gateway.Prelude.{
  ℕ, suc, ◌+◌, ◌%◌, ◌&&◌, Bool, true, All-get_or, ltb, arith, ◌≡◌, refl, ap, ap₂, [], ◌∷◌, length,
}
use chronus_gateway.Words.Xor.{xor_cancel, xor-lt}
use chronus_gateway.Words.{Bytes, IsByte, IsBytes}
use chronus_gateway.Frames.Randomizer.{xor_from, pn_sequence, ccsds_randomize}

xor_from_twice : (pn : Bytes) (i : ℕ) (bytes : Bytes) → xor_from pn i (xor_from pn i bytes) ≡ bytes
unfolding xor_from
xor_from_twice pn i [] = refl
xor_from_twice pn i (byte ∷ rest) = ap₂ ◌∷◌ (xor_cancel byte _) (xor_from_twice pn (i + 1) rest)

length-xor_from : (pn : Bytes) (i : ℕ) (bytes : Bytes) → length (xor_from pn i bytes) ≡ length bytes
unfolding xor_from
length-xor_from pn i [] = refl
length-xor_from pn i (byte ∷ rest) = ap suc (length-xor_from pn (i + 1) rest)

-- Randomizing twice gives the frame back, for every frame.
pub randomize_twice : (frame : Bytes) → ccsds_randomize (ccsds_randomize frame) ≡ frame
unfolding ccsds_randomize
randomize_twice frame = xor_from_twice pn_sequence 0 frame

pub length-ccsds_randomize : (frame : Bytes) → length (ccsds_randomize frame) ≡ length frame
unfolding ccsds_randomize
length-ccsds_randomize frame = length-xor_from pn_sequence 0 frame

bytes_ok : Bytes → Bool
bytes_ok [] = true
bytes_ok (b ∷ bs) = ltb b 256 && bytes_ok bs

bytes_ok-IsBytes : (bs : Bytes) → bytes_ok bs ≡ true → IsBytes bs
unfolding bytes_ok
bytes_ok-IsBytes [] h = tt
bytes_ok-IsBytes (b ∷ bs) h = ground (arith, bytes_ok-IsBytes bs)

pn_sequence-IsBytes : IsBytes pn_sequence
unfolding bytes_ok pn_sequence
pn_sequence-IsBytes = bytes_ok-IsBytes pn_sequence refl

xor_from-IsBytes :
    (pn : Bytes) (i : ℕ) (bytes : Bytes)
    → IsBytes pn
    → IsBytes bytes
    → IsBytes (xor_from pn i bytes)
unfolding xor_from
xor_from-IsBytes pn i [] p h = tt
xor_from-IsBytes pn i (byte ∷ rest) p h = (
  xor-lt 8 byte _ h.0 (All-get_or IsByte pn (i % 255) 0 p (omega arith)),
  xor_from-IsBytes pn (i + 1) rest p h.1,
)

pub ccsds_randomize-IsBytes : (frame : Bytes) → IsBytes frame → IsBytes (ccsds_randomize frame)
unfolding ccsds_randomize
ccsds_randomize-IsBytes frame h = xor_from-IsBytes pn_sequence 0 frame pn_sequence-IsBytes h
