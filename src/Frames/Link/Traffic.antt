-- ===== src/Frames/Link/Traffic.antt =====
-- A whole session of a framer and a deframer: packets packed on any of the eight channels, in any
-- order, with flushes between.
use chronus_gateway.Prelude.{
  ℕ, ◌%◌, ◌^◌, ◌≡◌, refl, ap, true, false, List, [], ◌∷◌, ◌++◌, ◌==◌, if◌then◌else◌, All,
  Bool-cases, inl, inr,
}
use chronus_gateway.Words.{Bytes}
use chronus_gateway.Frames.Deframer.{TmDeframer, ExtractedPacket, EmitCtx, packet_apid, idle_apid}
use chronus_gateway.Frames.Deframer.Drain.{IsPacket}
use chronus_gateway.Frames.Deframer.Reassembly.{extracted}
use chronus_gateway.Frames.Builder.{TmFrameBuilder, pack, flush}
use chronus_gateway.Frames.Link.Compose.{receive_all}

-- The packets that came out of one channel, in order.
abbrev pub of_channel : ℕ → List ExtractedPacket → List Bytes
of_channel vcid [] = []
of_channel vcid (e ∷ es) =
    if e.vcid == vcid then e.bytes ∷ of_channel vcid es else of_channel vcid es

-- The packets that are no filler.
abbrev pub real : List Bytes → List Bytes
real [] = []
real (p ∷ ps) = if packet_apid p == idle_apid then real ps else p ∷ real ps

pub data Op : Type 0 where
  packs : ℕ → List Bytes → Op
  flushes : ℕ → Op

-- One operation of the framer; its frames reach the deframer in order.
abbrev pub transmit : Op → TmFrameBuilder × TmDeframer → TmFrameBuilder × TmDeframer
transmit (packs vcid ps) s = ((pack vcid ps s.0).0, receive_all s.1 (pack vcid ps s.0).1)
transmit (flushes vcid) s = ((flush vcid s.0).0, receive_all s.1 (flush vcid s.0).1)

abbrev pub transmit_all : List Op → TmFrameBuilder × TmDeframer → TmFrameBuilder × TmDeframer
transmit_all [] s = s
transmit_all (op ∷ ops) s = transmit_all ops (transmit op s)

-- What the operations pack on one channel.
abbrev pub packed_by : ℕ → Op → List Bytes
packed_by vcid (packs v ps) = if v % 2 ^ 3 == vcid then ps else []
packed_by vcid (flushes _) = []

abbrev pub packed_on : ℕ → List Op → List Bytes
packed_on vcid [] = []
packed_on vcid (op ∷ ops) = packed_by vcid op ++ packed_on vcid ops

abbrev pub AllPackets : Op → Type 0
AllPackets (packs _ ps) = All IsPacket ps
AllPackets (flushes _) = Unit

pub real-append : (ps qs : List Bytes) → real (ps ++ qs) ≡ real ps ++ real qs
real-append [] qs = refl
real-append (p ∷ ps) qs = elim (Bool-cases (packet_apid p == idle_apid)) [
  | inl filler ↦ rw filler (real-append ps qs)
  | inr kept ↦ rw (kept, real-append ps qs)
]

pub of_channel-append :
    (vcid : ℕ) (es fs : List ExtractedPacket)
    → of_channel vcid (es ++ fs) ≡ of_channel vcid es ++ of_channel vcid fs
of_channel-append vcid [] fs = refl
of_channel-append vcid (e ∷ es) fs = elim (Bool-cases (e.vcid == vcid)) [
  | inl same ↦ rw (same, of_channel-append vcid es fs)
  | inr other ↦ rw other (of_channel-append vcid es fs)
]

module _ (c : EmitCtx) (vcid : ℕ) where
  pub of_channel-own :
      (c.vcid == vcid) ≡ true → (ps : List Bytes) → of_channel vcid (extracted c ps) ≡ real ps
  unfolding extracted
  of_channel-own same [] = refl
  of_channel-own same (p ∷ ps) = elim (Bool-cases (packet_apid p == idle_apid)) [
    | inl filler ↦ rw (filler) (of_channel-own same ps)
    | inr kept ↦ rw (kept, same) (ap (◌∷◌ p) (of_channel-own same ps))
  ]

  pub of_channel-foreign :
      (c.vcid == vcid) ≡ false → (ps : List Bytes) → of_channel vcid (extracted c ps) ≡ []
  unfolding extracted
  of_channel-foreign other [] = refl
  of_channel-foreign other (p ∷ ps) = elim (Bool-cases (packet_apid p == idle_apid)) [
    | inl filler ↦ rw filler (of_channel-foreign other ps)
    | inr kept ↦ rw (kept, other) (of_channel-foreign other ps)
  ]
