-- ===== src/Frames/Stats.antt =====
-- The counters `FramingStats` of crates/gateway/src/frames.rs: one atomic `u64` each, which the
-- deframer alone writes, so they are a part of its state.
use chronus_gateway.Prelude.{ℕ}
use chronus_gateway.Words.{fetch_add}

pub record FramingStats : Type 0 where
  pub datagrams : ℕ
  pub frames_ok : ℕ
  pub frames_crc_error : ℕ
  pub frames_invalid : ℕ
  pub frames_other_spacecraft : ℕ
  pub frames_vc_filtered : ℕ
  pub frames_idle : ℕ
  pub vc_frame_gaps : ℕ
  pub mc_frame_gaps : ℕ
  pub packets_extracted : ℕ
  pub packets_idle : ℕ
  pub packets_dropped : ℕ
  pub bytes_discarded : ℕ

abbrev pub no_counts : FramingStats
no_counts = record {
  datagrams = 0;
  frames_ok = 0;
  frames_crc_error = 0;
  frames_invalid = 0;
  frames_other_spacecraft = 0;
  frames_vc_filtered = 0;
  frames_idle = 0;
  vc_frame_gaps = 0;
  mc_frame_gaps = 0;
  packets_extracted = 0;
  packets_idle = 0;
  packets_dropped = 0;
  bytes_discarded = 0;
}

abbrev pub bump : ℕ → ℕ
bump a = fetch_add a 1
