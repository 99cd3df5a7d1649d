-- ===== src/Frames/Link/Tests.antt =====
-- Runs of the framer of crates/gateway/src/frames.rs into the deframer, and the properties of the
-- link at a concrete session.
use chronus_gateway.Prelude.{
  ◌≡◌, All, ℕ, ◌<◌, ◌≤◌, [], ◌∷◌, refl, some, none, true, false, List, arith, length,
}
use chronus_gateway.Words.{Bytes}
use chronus_gateway.Frames.Header.{to_bytes}
use chronus_gateway.Frames.Crc.{crc16_ccitt}
use chronus_gateway.Frames.Deframer.{FramingConfig}
use chronus_gateway.Frames.Deframer.Drain.{IsPacket}
use chronus_gateway.Frames.Builder.{
  with_fecf, builder_vc_of, data_field_len, pack, flush, frame, emit_frame, emit_full,
  queue_packets, pop_before, pointer_at, idle_packet,
}
use chronus_gateway.Frames.Builder
use chronus_gateway.Frames.Link.State.{Matches}
use chronus_gateway.Frames.Link.Traffic.{
  Op, packs, flushes, AllPackets, transmit, transmit_all, of_channel,
}
use chronus_gateway.Frames.Link.Session.{Channel}
use chronus_gateway.Frames.Link.Running.{start, transmit_all-Channel, flush-of_channel}

-- Packets of 8 and of 7 octets.
abbrev packet : Bytes
packet = 0x01 ∷ 0x00 ∷ 0xC0 ∷ 0x00 ∷ 0x00 ∷ 0x01 ∷ 0xAA ∷ 0xBB ∷ []

abbrev small : Bytes
small = 0x01 ∷ 0x01 ∷ 0xC0 ∷ 0x01 ∷ 0x00 ∷ 0x00 ∷ 0xCC ∷ []

abbrev config : FramingConfig
config = record {
  frame_length = some 20;
  asm = false;
  derandomize = true;
  fecf = true;
  spacecraft_id = some 0x73;
  virtual_channels = none;
}

abbrev session : List Op
session =
    packs 1 (packet ∷ small ∷ []) ∷ packs 2 (small ∷ []) ∷ flushes 2 ∷ packs 9 (packet ∷ []) ∷ []

packet-IsPacket : IsPacket packet
packet-IsPacket = record { version_zero = refl; whole = refl }

small-IsPacket : IsPacket small
small-IsPacket = record { version_zero = refl; whole = refl }

session-AllPackets : All AllPackets session
session-AllPackets = (
  (packet-IsPacket, (small-IsPacket, tt)),
  ((small-IsPacket, tt), (tt, ((packet-IsPacket, tt), tt))),
)

config-Matches : (j : ℕ) → j < 8 → Matches config (with_fecf true (Builder.new 0x73 20)) j
unfolding with_fecf Builder.new
config-Matches j h = record { checksum = refl; size = refl; spacecraft = refl; wanted = refl }

room : 6 ≤ data_field_len (with_fecf true (Builder.new 0x73 20))
unfolding with_fecf Builder.new
room = omega arith

flush-of_channel_example :
    of_channel 1
      (transmit (flushes 9) (transmit_all session (start 0x73 20 true config))).1.sink.emitted
    ≡ packet ∷ small ∷ packet ∷ []
flush-of_channel_example =
    flush-of_channel 0x73 20 true config session room config-Matches session-AllPackets 9

transmit_all-Channel_example :
    Channel
      (transmit_all session (start 0x73 20 true config)).0
      (transmit_all session (start 0x73 20 true config)).1
      2
      (small ∷ [])
transmit_all-Channel_example =
    transmit_all-Channel 0x73 20 true config session room config-Matches session-AllPackets 2
      (omega arith)

-- With a data field of 4 octets, a filler of 7 octets, the shortest there is, does not end on the
-- border of a frame: `flush` leaves 2 octets in the queue.
flush_short_field :
    length (builder_vc_of (flush 0 (pack 0 (small ∷ []) (Builder.new 0x73 12)).0).0 0).queued ≡ 2
unfolding flush pack emit_full emit_frame queue_packets pop_before pointer_at frame to_bytes
    crc16_ccitt idle_packet Builder.new
flush_short_field = refl
