-- ===== src/Hil/RoundTrip.antt =====
-- A HIL payload is read back.
use chronus_gateway.Prelude.{ℕ, ◌^◌, ◌<◌, ◌≡◌, refl, ◌∙◌, ◌++◌, length, ok, le→not_ltb, arith}
use chronus_gateway.Words.{Bytes, from_be_u32-be_u32}
use chronus_gateway.Hil.{encode_hil_tm_v1_payload, decode_hil_tm_v1}

-- A payload of four 32-bit words is decoded to these words, whatever follows it.
pub decode_hil_tm_v1-encode_hil_tm_v1_payload :
    (seq eps thermal body_rate : ℕ) (rest : Bytes)
    → seq < 2 ^ 32
    → eps < 2 ^ 32
    → thermal < 2 ^ 32
    → body_rate < 2 ^ 32
    → decode_hil_tm_v1 (encode_hil_tm_v1_payload seq eps thermal body_rate ++ rest)
      ≡ ok (record {
        seq = seq;
        eps_bus_voltage_v = eps;
        thermal_panel_c = thermal;
        body_rate_deg_s = body_rate;
      })
unfolding decode_hil_tm_v1 encode_hil_tm_v1_payload
decode_hil_tm_v1-encode_hil_tm_v1_payload seq eps thermal body_rate rest hs he ht hb =
    let long =
      le→not_ltb (length (encode_hil_tm_v1_payload seq eps thermal body_rate ++ rest)) 24
        (omega arith) in
    (rw long refl) ∙ λ i. ok (record {
      seq = from_be_u32-be_u32 seq hs i;
      eps_bus_voltage_v = from_be_u32-be_u32 eps he i;
      thermal_panel_c = from_be_u32-be_u32 thermal ht i;
      body_rate_deg_s = from_be_u32-be_u32 body_rate hb i;
    })
