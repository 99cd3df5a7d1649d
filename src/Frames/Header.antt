-- ===== src/Frames/Header.antt =====
-- `TmFrameHeader` of crates/gateway/src/frames.rs. Masks of the low bits are remainders, right
-- shifts are quotients, and `|` of disjoint fields is a sum.
pub mod RoundTrip
use chronus_gateway.Prelude.{
  ℕ, ◌+◌, ◌*◌, ◌/◌, ◌%◌, ◌^◌, ◌<◌, ◌≡◌, refl, Bool, true, false, Option, none, some, List, [], ◌∷◌,
}
use chronus_gateway.Words.{Bytes, from_be_u16, be_hi, be_lo, bit_set}

pub record TmFrameHeader : Type 0 where
  pub version : ℕ
  pub spacecraft_id : ℕ
  pub vcid : ℕ
  pub ocf_present : Bool
  pub mc_frame_count : ℕ
  pub vc_frame_count : ℕ
  pub secondary_header : Bool
  pub sync_flag : Bool
  pub first_header_pointer : ℕ

-- The six octets of the primary header, decoded.
unfoldable pub decode : ℕ → ℕ → ℕ → ℕ → ℕ → ℕ → TmFrameHeader
decode h0 h1 h2 h3 h4 h5 =
    let id = from_be_u16 h0 h1 in
    let status = from_be_u16 h4 h5 in
    record {
      version = h0 / 2 ^ 6 % 2 ^ 2;
      spacecraft_id = id / 2 ^ 4 % 2 ^ 10;
      vcid = id / 2 ^ 1 % 2 ^ 3;
      ocf_present = bit_set id 0;
      mc_frame_count = h2;
      vc_frame_count = h3;
      secondary_header = bit_set status 15;
      sync_flag = bit_set status 14;
      first_header_pointer = status % 2 ^ 11;
    }

-- `bytes.get(..6)?` fails on fewer than six octets and ignores what follows them.
unfoldable pub parse : Bytes → Option TmFrameHeader
parse (h0 ∷ h1 ∷ h2 ∷ h3 ∷ h4 ∷ h5 ∷ _) = some (decode h0 h1 h2 h3 h4 h5)
parse _ = none

-- `u16::from(b)` of a `bool`.
abbrev pub bool_u16 : Bool → ℕ
bool_u16 true = 1
bool_u16 false = 0

abbrev pub id_word : TmFrameHeader → ℕ
id_word h =
    h.version % 2 ^ 2 * 2 ^ 14
    + h.spacecraft_id % 2 ^ 10 * 2 ^ 4
    + h.vcid % 2 ^ 3 * 2 ^ 1
    + bool_u16 h.ocf_present

abbrev pub status_word : TmFrameHeader → ℕ
status_word h =
    bool_u16 h.secondary_header * 2 ^ 15
    + bool_u16 h.sync_flag * 2 ^ 14
    + 0b11 * 2 ^ 11
    + h.first_header_pointer % 2 ^ 11

unfoldable pub to_bytes : TmFrameHeader → Bytes
to_bytes h =
    let id = id_word h in
    let status = status_word h in
    be_hi id ∷ be_lo id ∷ h.mc_frame_count ∷ h.vc_frame_count ∷ be_hi status ∷ be_lo status ∷ []
