-- ===== src/Ccsds/Tests.antt =====
-- The properties of crates/gateway/src/ccsds.rs at concrete packets, with the header decoder of the
-- standard in place of the crate's.
use chronus_gateway.Prelude.{
  ◌≡◌, ◌⊎◌, refl, [], ◌∷◌, ◌++◌, false, some, ok, err, Result, arith, drop,
}
use chronus_gateway.Words.{Bytes}
use chronus_gateway.Frames.Deframer.{packet_apid}
use chronus_gateway.Ccsds.{
  SpacePacketHeader, not_telemetry, RawFrame, TelemetryFrame, payload, accepted_frame,
  parse_telemetry, encode_tm,
}
use chronus_gateway.Ccsds.Accepted.{header_fields, parse_telemetry-IsPacket}
use chronus_gateway.Ccsds.RoundTrip.{header_of, parse_telemetry-encode_tm}

abbrev standard : Bytes → Result (Unit {0}) SpacePacketHeader
standard b = ok (header_fields b)

abbrev packet : Bytes
packet = 0x00 ∷ 0x42 ∷ 0xC0 ∷ 0x07 ∷ 0x00 ∷ 0x01 ∷ 0xAA ∷ 0xBB ∷ []

abbrev received : RawFrame (Unit {0}) (Unit {0})
received = record { bytes = packet ++ 0xEE ∷ []; received_at = tt; source = tt }

abbrev only_packet : RawFrame (Unit {0}) (Unit {0})
only_packet = record { bytes = packet; received_at = tt; source = tt }

abbrev octets : Bytes
octets = 0xAA ∷ 0xBB ∷ []

encoded : encode_tm 0x42 7 false (0xAA ∷ 0xBB ∷ []) ≡ some packet
unfolding encode_tm
encoded = refl

parsed :
    parse_telemetry standard received
    ≡ ok (accepted_frame received (header_of 0x42 7 false (0xAA ∷ 0xBB ∷ [])))
unfolding parse_telemetry
parsed = refl

parse_telemetry-encode_tm_example :
    (parse_telemetry standard received
      ≡ ok (accepted_frame received (header_of 0x42 7 false (0xAA ∷ 0xBB ∷ []))))
    × (payload (accepted_frame received (header_of 0x42 7 false (0xAA ∷ 0xBB ∷ [])))
        ≡ 0xAA ∷ 0xBB ∷ [])
parse_telemetry-encode_tm_example =
    parse_telemetry-encode_tm standard 0x42 7 false (0xAA ∷ 0xBB ∷ []) packet (0xEE ∷ []) tt tt
      (λ b long. refl) (omega arith) (omega arith) (omega arith) encoded

parse_telemetry-IsPacket_example :
    ((f : TelemetryFrame (Unit {0}) (Unit {0})) × (parse_telemetry standard only_packet ≡ ok f)
      × (payload f ≡ drop 6 packet)
      × (f.apid ≡ packet_apid packet))
    ⊎ (parse_telemetry standard only_packet ≡ err (not_telemetry (packet_apid packet)))
parse_telemetry-IsPacket_example =
    parse_telemetry-IsPacket standard only_packet (λ b long. refl)
      (record { version_zero = refl; whole = refl })
