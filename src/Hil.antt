-- ===== src/Hil.antt =====
-- crates/gateway/src/hil_tm.rs: the payload layout `chronus.hil.tm.v1`. An `f32` is its bits.
pub mod RoundTrip
pub mod Tests
use chronus_gateway.Prelude.{
  ℕ, Bool, not, ◌&&◌, ◌||◌, List, [], ◌∷◌, ◌++◌, ltb, ◌==◌, if◌then◌else◌, length, take, get_or,
  Result, ok, err, ◌>>=◌, ◌>>◌, reject_if,
}
use chronus_gateway.Words.{Bytes, from_be_u32, be_u32}

abbrev pub hil_tm_v1_magic : Bytes
hil_tm_v1_magic = b'C' ∷ b'H' ∷ b'I' ∷ b'1' ∷ []

abbrev pub hil_tm_v1_schema_version : ℕ
hil_tm_v1_schema_version = 1

abbrev pub hil_tm_v1_payload_len : ℕ
hil_tm_v1_payload_len = 24

pub record DecodedHilTmV1 : Type 0 where
  pub seq : ℕ
  pub eps_bus_voltage_v : ℕ
  pub thermal_panel_c : ℕ
  pub body_rate_deg_s : ℕ

pub data HilTmV1DecodeError : Type 0 where
  too_short : (have : ℕ) → HilTmV1DecodeError
  bad_magic : (got : Bytes) → HilTmV1DecodeError
  wrong_version : (got : ℕ) → HilTmV1DecodeError
  non_zero_reserved : HilTmV1DecodeError

unfoldable pub encode_hil_tm_v1_payload : (seq eps thermal body_rate : ℕ) → Bytes
encode_hil_tm_v1_payload seq eps thermal body_rate =
    hil_tm_v1_magic
    ++ (hil_tm_v1_schema_version ∷ 0 ∷ 0 ∷ 0 ∷ [])
    ++ be_u32 seq
    ++ be_u32 eps
    ++ be_u32 thermal
    ++ be_u32 body_rate

-- `&magic != HIL_TM_V1_MAGIC` on the first four octets.
abbrev pub is_magic : Bytes → Bool
is_magic p =
    get_or p 0 0 == b'C' && get_or p 1 0 == b'H' && get_or p 2 0 == b'I' && get_or p 3 0 == b'1'

abbrev pub u32_at : Bytes → ℕ → ℕ → ℕ → ℕ → ℕ
u32_at p a b c d = from_be_u32 (get_or p a 0) (get_or p b 0) (get_or p c 0) (get_or p d 0)

abbrev pub fields_at : Bytes → DecodedHilTmV1
fields_at p = record {
  seq = u32_at p 8 9 10 11;
  eps_bus_voltage_v = u32_at p 12 13 14 15;
  thermal_panel_c = u32_at p 16 17 18 19;
  body_rate_deg_s = u32_at p 20 21 22 23;
}

unfoldable pub decode_hil_tm_v1 : Bytes → Result HilTmV1DecodeError DecodedHilTmV1
decode_hil_tm_v1 p = do
  reject_if (ltb (length p) hil_tm_v1_payload_len) (too_short (length p))
  reject_if (not (is_magic p)) (bad_magic (take 4 p))
  reject_if (not (get_or p 4 0 == hil_tm_v1_schema_version)) (wrong_version (get_or p 4 0))
  reject_if (not (get_or p 5 0 == 0) || not (get_or p 6 0 == 0) || not (get_or p 7 0 == 0))
      non_zero_reserved
  ok (fields_at p)
