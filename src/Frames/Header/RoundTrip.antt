-- ===== src/Frames/Header/RoundTrip.antt =====
-- `TmFrameHeader::parse` and `to_bytes` against each other.
use chronus_gateway.Prelude.{
  ℕ, ◌/◌, ◌%◌, ◌^◌, ◌<◌, ◌≡◌, refl, ap, Bool, true, false, none, some, ◌↔◌, ◌∙◌, subst, ◌∷◌, ◌++◌,
  arith, length, ◌==◌,
}
use mathlib.Core.Option.{some-injective}
use chronus_gateway.Words.{Bytes, IsByte, IsBytes, from_be_u16, be_hi, be_lo, bit_set}
use chronus_gateway.Frames.Header.{
  TmFrameHeader, decode, parse, to_bytes, bool_u16, id_word, status_word,
}

-- Every field fits its bits.
pub record IsValid (h : TmFrameHeader) : Type 0 where
  pub version_fits : h.version < 2 ^ 2
  pub spacecraft_id_fits : h.spacecraft_id < 2 ^ 10
  pub vcid_fits : h.vcid < 2 ^ 3
  pub mc_fits : IsByte h.mc_frame_count
  pub vc_fits : IsByte h.vc_frame_count
  pub pointer_fits : h.first_header_pointer < 2 ^ 11

bit_of : (b : Bool) (x : ℕ) → x % 2 ≡ bool_u16 b → (x % 2 == 1) ≡ b
bit_of true x e = ground arith
bit_of false x e = ground arith

bool_u16-lt : (b : Bool) → bool_u16 b < 2
bool_u16-lt true = omega arith
bool_u16-lt false = omega arith

be_bytes : (x : ℕ) → x < 2 ^ 16 → from_be_u16 (be_hi x) (be_lo x) ≡ x
be_bytes x h = omega arith

module _ (h : TmFrameHeader) (v : IsValid h) where
  id_back : from_be_u16 (be_hi (id_word h)) (be_lo (id_word h)) ≡ id_word h
  id_back = omega (arith, bool_u16-lt h.ocf_present)

  status_back : from_be_u16 (be_hi (status_word h)) (be_lo (status_word h)) ≡ status_word h
  status_back = omega (arith, bool_u16-lt h.secondary_header, bool_u16-lt h.sync_flag)

  version_back : be_hi (id_word h) / 2 ^ 6 % 2 ^ 2 ≡ h.version
  version_back = omega (arith, bool_u16-lt h.ocf_present)

  spacecraft_id_back : id_word h / 2 ^ 4 % 2 ^ 10 ≡ h.spacecraft_id
  spacecraft_id_back = omega (arith, bool_u16-lt h.ocf_present)

  vcid_back : id_word h / 2 ^ 1 % 2 ^ 3 ≡ h.vcid
  vcid_back = omega (arith, bool_u16-lt h.ocf_present)

  ocf_present_back : bit_set (id_word h) 0 ≡ h.ocf_present
  ocf_present_back = bit_of h.ocf_present _ (omega (arith, bool_u16-lt h.ocf_present))

  secondary_header_back : bit_set (status_word h) 15 ≡ h.secondary_header
  secondary_header_back =
      bit_of h.secondary_header _
        (omega (arith, bool_u16-lt h.secondary_header, bool_u16-lt h.sync_flag))

  sync_flag_back : bit_set (status_word h) 14 ≡ h.sync_flag
  sync_flag_back =
      bit_of h.sync_flag _ (omega (arith, bool_u16-lt h.secondary_header, bool_u16-lt h.sync_flag))

  pointer_back : status_word h % 2 ^ 11 ≡ h.first_header_pointer
  pointer_back = omega (arith, bool_u16-lt h.secondary_header, bool_u16-lt h.sync_flag)

-- A header whose fields fit their bits is read back from its six octets, whatever follows them.
pub parse-to_bytes :
    (h : TmFrameHeader) (rest : Bytes) → IsValid h → parse (to_bytes h ++ rest) ≡ some h
unfolding parse decode to_bytes
parse-to_bytes h rest v = ap some λ i. record {
  version = version_back h v i;
  spacecraft_id = (ap (λ t. t / 2 ^ 4 % 2 ^ 10) (id_back h v) ∙ spacecraft_id_back h v) i;
  vcid = (ap (λ t. t / 2 ^ 1 % 2 ^ 3) (id_back h v) ∙ vcid_back h v) i;
  ocf_present = (ap (λ t. bit_set t 0) (id_back h v) ∙ ocf_present_back h v) i;
  mc_frame_count = h.mc_frame_count;
  vc_frame_count = h.vc_frame_count;
  secondary_header = (ap (λ t. bit_set t 15) (status_back h v) ∙ secondary_header_back h v) i;
  sync_flag = (ap (λ t. bit_set t 14) (status_back h v) ∙ sync_flag_back h v) i;
  first_header_pointer = (ap (λ t. t % 2 ^ 11) (status_back h v) ∙ pointer_back h v) i;
}

-- What the decoder returns fits the fields' bits, for any six octets.
pub decode-IsValid :
    (h0 h1 h2 h3 h4 h5 : ℕ) → IsByte h2 → IsByte h3 → IsValid (decode h0 h1 h2 h3 h4 h5)
unfolding decode
decode-IsValid h0 h1 h2 h3 h4 h5 b2 b3 = omega arith

-- Decoding fails exactly on fewer than six octets.
pub parse-eq-none_iff : (bytes : Bytes) → (parse bytes ≡ none) ↔ (length bytes < 6)
unfolding parse
parse-eq-none_iff (h0 ∷ h1 ∷ h2 ∷ h3 ∷ h4 ∷ h5 ∷ rest) = (λ e. cc, λ h. absurd (omega arith))
parse-eq-none_iff _ = (λ e. omega arith, λ h. refl)

pub parse-IsValid :
    (bytes : Bytes) {h : TmFrameHeader} → IsBytes bytes → parse bytes ≡ some h → IsValid h
unfolding parse
parse-IsValid (h0 ∷ h1 ∷ h2 ∷ h3 ∷ h4 ∷ h5 ∷ _) bs e =
    subst IsValid (some-injective _ _ e)
      (decode-IsValid h0 h1 h2 h3 h4 h5 (omega arith) (omega arith))
parse-IsValid _ bs e = cc
