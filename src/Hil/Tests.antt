-- ===== src/Hil/Tests.antt =====
-- A HIL payload read back.
use chronus_gateway.Prelude.{◌≡◌, ◌++◌, ok, [], ◌∷◌, arith}
use chronus_gateway.Hil.{encode_hil_tm_v1_payload, decode_hil_tm_v1}
use chronus_gateway.Hil.RoundTrip.{decode_hil_tm_v1-encode_hil_tm_v1_payload}

decode_hil_tm_v1-encode_hil_tm_v1_payload_example :
    decode_hil_tm_v1 (encode_hil_tm_v1_payload 7 0x41600000 0x41C80000 0x3F000000 ++ 1 ∷ 2 ∷ [])
    ≡ ok (record {
      seq = 7;
      eps_bus_voltage_v = 0x41600000;
      thermal_panel_c = 0x41C80000;
      body_rate_deg_s = 0x3F000000;
    })
decode_hil_tm_v1-encode_hil_tm_v1_payload_example =
    decode_hil_tm_v1-encode_hil_tm_v1_payload 7 0x41600000 0x41C80000 0x3F000000 (1 ∷ 2 ∷ [])
      (omega arith) (omega arith) (omega arith) (omega arith)
