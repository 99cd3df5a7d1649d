-- ===== src/Frames/Link/State.antt =====
-- The two ends of one virtual channel of a link, and what crosses it.
use chronus_gateway.Prelude.{
  concat, ℕ, ◌-◌, ◌<◌, ◌≤◌, ◌≡◌, ◌≢◌, sym, ap, ◌∙◌, true, false, none, some, List, [], ◌++◌, length,
  All, ◌⊎◌,
}
use chronus_gateway.Words.{Bytes, IsByte, wrapping_succ_u8}
use chronus_gateway.Frames.Deframer.{
  TmDeframer, FramingConfig, VcState, EmitCtx, is_wrong_length, is_other_spacecraft, is_filtered,
  handle_frame,
}
use chronus_gateway.Frames.Deframer.Drain.{IsPacket}
use chronus_gateway.Frames.Deframer.Reassembly.{extracted}
use chronus_gateway.Frames.Deframer.Accept.{vc_of}
use chronus_gateway.Frames.Builder.{TmFrameBuilder, BuilderVc, builder_vc_of, pop_before}
use chronus_gateway.Frames.Link.Split.{Begins}
use chronus_gateway.Frames.Link.Pointer.{offsets}
use chronus_gateway.Frames.Link.Frame.{on_air}
use chronus_gateway.Frames.Link.Emit.{FramerOk}

-- The deframer is configured for the framer's frames and takes its channel.
pub record Matches (c : FramingConfig) (b : TmFrameBuilder) (vcid : ℕ) : Type 0 where
  pub checksum : c.fecf ≡ b.fecf
  pub size : is_wrong_length c.frame_length b.frame_length ≡ false
  pub spacecraft : is_other_spacecraft c.spacecraft_id b.spacecraft_id ≡ false
  pub wanted : is_filtered c.virtual_channels vcid ≡ false

-- The deframer waits for the frame with this counter, or has seen none of the channel's frames.
abbrev pub Awaits : ℕ → VcState → Type 0
Awaits count vc =
    ((vc.in_sync ≡ true)
      × (last : ℕ) × (vc.last_count ≡ some last)
      × (count ≡ wrapping_succ_u8 last))
    ⊎ ((vc.in_sync ≡ false) × (vc.last_count ≡ none) × (vc.pending ≡ []))

-- One channel at both ends, with the packets `ps` between them: packed, and not yet delivered whole.
pub record Shared (at : BuilderVc) (vc : VcState) (ps : List Bytes) : Type 0 where
  pub count : IsByte at.frame_count
  pub awaits : Awaits at.frame_count vc
  pub packets : All IsPacket ps
  pub row : vc.pending ++ at.queued ≡ concat ps
  pub begins : Begins vc.pending ps
  pub sent : length vc.pending ≤ at.emitted
  pub aligned :
      pop_before at.emitted at.starts
      ≡ pop_before at.emitted (offsets (at.emitted - length vc.pending) ps)

-- Framer and deframer agree on a channel.
pub record InStep (b : TmFrameBuilder) (d : TmDeframer) (vcid : ℕ) (ps : List Bytes) : Type 0 where
  pub framer : FramerOk b
  pub matches : Matches d.config b vcid
  pub channels : length d.vcs ≡ 8
  pub channel : vcid < 8
  pub shared : Shared (builder_vc_of b vcid) (vc_of d vcid) ps
  pub open shared use *

abbrev pub ctx : TmFrameBuilder → ℕ → EmitCtx
ctx b vcid = record { vcid = vcid; spacecraft_id = b.spacecraft_id }

-- The deframer behind one more frame of the link.
abbrev pub receive : TmDeframer → Bytes → TmDeframer
receive d f = (handle_frame d (on_air d f)).0

-- From `d` to `d'` exactly the packets `done` came out of channel `vcid`, fillers excepted, and no
-- other channel changed.
pub record Delivers (b : TmFrameBuilder) (vcid : ℕ) (d d' : TmDeframer) (done : List Bytes)
    : Type 0 where
  pub emits : d'.sink.emitted ≡ d.sink.emitted ++ extracted (ctx b vcid) done
  pub config_same : d'.config ≡ d.config
  pub others : (j : ℕ) → vcid ≢ j → vc_of d' j ≡ vc_of d j

pub record SameSettings (b b' : TmFrameBuilder) : Type 0 where
  pub spacecraft : b'.spacecraft_id ≡ b.spacecraft_id
  pub checksum : b'.fecf ≡ b.fecf
  pub frame_length : b'.frame_length ≡ b.frame_length

-- From `b` and `d` to `b'` and `d'` a part of the packets `ps` was delivered.
pub record Moved (b b' : TmFrameBuilder) (d d' : TmDeframer) (vcid : ℕ) (ps : List Bytes)
    : Type 0 where
  pub done : List Bytes
  pub left : List Bytes
  pub order : ps ≡ done ++ left
  pub settings : SameSettings b b'
  pub queues : (j : ℕ) → vcid ≢ j → builder_vc_of b' j ≡ builder_vc_of b j
  pub in_step : InStep b' d' vcid left
  pub delivers : Delivers b vcid d d' done

pub Matches-same :
    {b b' : TmFrameBuilder} {c : FramingConfig} {vcid : ℕ}
    → SameSettings b b'
    → Matches c b vcid
    → Matches c b' vcid
Matches-same {b} {b'} {c} {vcid} s m = record {
  checksum = m.checksum ∙ sym s.checksum;
  size = ap (is_wrong_length c.frame_length) s.frame_length ∙ m.size;
  spacecraft = ap (is_other_spacecraft c.spacecraft_id) s.spacecraft ∙ m.spacecraft;
  wanted = m.wanted;
}
