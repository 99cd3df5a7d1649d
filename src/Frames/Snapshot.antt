-- ===== src/Frames/Snapshot.antt =====
-- `FramingStats::snapshot` of crates/gateway/src/frames.rs.
use chronus_gateway.Prelude.{ℕ, true, false, none}
use chronus_gateway.Frames.Stats.{FramingStats}
use chronus_gateway.Frames.Deframer.{FramingConfig}

pub data FramingMode : Type 0 where
  packets : FramingMode
  tm_frames : FramingMode

-- The labels "packets" and "tm_frames".
pub data Label : Type 0 where
  packets_label : Label
  tm_frames_label : Label

abbrev pub label : FramingMode → Label
label tm_frames = tm_frames_label
label packets = packets_label

pub record FramingSnapshot : Type 0 where
  pub mode : Label
  pub datagrams : ℕ
  pub frames_ok : ℕ
  pub frames_crc_error : ℕ
  pub frames_invalid : ℕ
  pub frames_other_spacecraft : ℕ
  pub frames_vc_filtered : ℕ
  pub frames_idle : ℕ
  pub vc_frame_gaps : ℕ
  pub mc_frame_gaps : ℕ
  pub packets_extracted : ℕ
  pub packets_idle : ℕ
  pub packets_dropped : ℕ
  pub bytes_discarded : ℕ

abbrev pub snapshot : FramingMode → FramingStats → FramingSnapshot
snapshot mode s = record {
  mode = label mode;
  datagrams = s.datagrams;
  frames_ok = s.frames_ok;
  frames_crc_error = s.frames_crc_error;
  frames_invalid = s.frames_invalid;
  frames_other_spacecraft = s.frames_other_spacecraft;
  frames_vc_filtered = s.frames_vc_filtered;
  frames_idle = s.frames_idle;
  vc_frame_gaps = s.vc_frame_gaps;
  mc_frame_gaps = s.mc_frame_gaps;
  packets_extracted = s.packets_extracted;
  packets_idle = s.packets_idle;
  packets_dropped = s.packets_dropped;
  bytes_discarded = s.bytes_discarded;
}

-- `FramingConfig::default` of crates/gateway/src/config/mod.rs, with the mode beside it.
abbrev pub default_framing : FramingMode × FramingConfig
default_framing = (
  packets,
  record {
    frame_length = none;
    asm = false;
    derandomize = false;
    fecf = true;
    spacecraft_id = none;
    virtual_channels = none;
  },
)
