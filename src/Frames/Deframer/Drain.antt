-- ===== src/Frames/Deframer/Drain.antt =====
-- `drain_packets` against its specification: a buffer is a run of whole packets and a tail.
pub mod Total
use chronus_gateway.Prelude.{
  concat, ℕ, zero, suc, ◌+◌, ◌-◌, ◌*◌, ◌/◌, ◌%◌, ◌^◌, ◌≤◌, ◌<◌, ◌≡◌, ◌≢◌, refl, ap, sym, ◌∙◌, Bool,
  true, false, not, ◌⊎◌, inl, inr, List, [], ◌∷◌, ◌++◌, ltb, ◌==◌, if◌then◌else◌, length, take,
  drop, get_or, All, arith, length-append, take-append, drop-append, take-length_append,
  drop-length_append, get_or-append, length-take, length-drop, take-append-drop, Bool-cases, lt→ltb,
  le→not_ltb, append_assoc, min, subst,
}
use native.Mathlib.Decide.{dec_lt, ℕ_discrete}
use chronus_gateway.Words.{Bytes, IsBytes, from_be_u16}
use chronus_gateway.Frames.Deframer.{
  Sink, VcState, EmitCtx, lose_sync, deliver, declared_len, packet_version, packet_apid, drain_from,
  drain_packets, packet_header_len,
}

-- One whole Space Packet: version 000, as long as its header says.
pub record IsPacket (p : Bytes) : Type 0 where
  pub version_zero : packet_version p ≡ 0
  pub whole : length p ≡ declared_len p

-- What may be left at the end of a buffer: a packet that has not arrived whole, ...
abbrev pub IsPartial : Bytes → Type 0
IsPartial t =
    (length t < packet_header_len)
    ⊎ ((packet_version t ≡ 0) × (packet_header_len ≤ length t) × (length t < declared_len t))

-- ... or bytes that are no packet.
abbrev pub IsBroken : Bytes → Type 0
IsBroken t = (packet_header_len ≤ length t) × (packet_version t ≢ 0)

-- The packets reach the callback one by one, in order.
unfoldable pub deliver_all : EmitCtx → List Bytes → Sink → Sink
deliver_all ctx [] s = s
deliver_all ctx (p ∷ ps) s = deliver_all ctx ps (deliver ctx (packet_apid p) p s)

pub declared_len-append :
    (p rest : Bytes) → packet_header_len ≤ length p → declared_len (p ++ rest) ≡ declared_len p
declared_len-append p rest h =
    rw (get_or-append p rest 4 0 (omega arith), get_or-append p rest 5 0 (omega arith))

pub packet_apid-append :
    (p rest : Bytes) → packet_header_len ≤ length p → packet_apid (p ++ rest) ≡ packet_apid p
packet_apid-append p rest h =
    rw (get_or-append p rest 0 0 (omega arith), get_or-append p rest 1 0 (omega arith))

pub packet_version-append :
    (p rest : Bytes) → packet_header_len ≤ length p → packet_version (p ++ rest) ≡ packet_version p
packet_version-append p rest h = rw (get_or-append p rest 0 0 (omega arith))

pub IsPacket-length : (p : Bytes) → IsPacket p → 7 ≤ length p
IsPacket-length p w = omega (arith, w.whole)

-- One round on a buffer that begins with a whole packet.
drain_from_packet :
    (fuel : ℕ) (ctx : EmitCtx) (vc : VcState) (p rest : Bytes) (s : Sink)
    → IsPacket p
    → vc.pending ≡ p ++ rest
    → drain_from (suc fuel) ctx vc s
      ≡ drain_from fuel ctx (record vc { pending = rest }) (deliver ctx (packet_apid p) p s)
unfolding drain_from
drain_from_packet fuel ctx vc p rest s w e =
    let long = IsPacket-length p w in
    let size = length-append p rest in
    let len : declared_len (p ++ rest) ≡ length p =
      declared_len-append p rest (omega arith) ∙ sym w.whole in
    let version : (packet_version (p ++ rest) == 0) ≡ true =
      ap (λ v. v == 0) (packet_version-append p rest (omega arith) ∙ w.version_zero) in
    let has_header : ltb (length (p ++ rest)) 6 ≡ false = ground arith in
    let has_all : ltb (length (p ++ rest)) (length p) ≡ false = ground arith in
    rw (
      e,
      len,
      has_header,
      version,
      has_all,
      take-length_append (length p) p rest refl,
      drop-length_append (length p) p rest refl,
      packet_apid-append p rest (omega arith),
    )

drain_from_partial :
    (fuel : ℕ) (ctx : EmitCtx) (vc : VcState) (s : Sink)
    → IsPartial vc.pending
    → drain_from fuel ctx vc s ≡ (vc, s)
unfolding drain_from
drain_from_partial zero ctx vc s h = refl
drain_from_partial (suc fuel) ctx vc s (inl short) = rw (lt→ltb _ _ short)
drain_from_partial (suc fuel) ctx vc s (inr (version, header, short)) =
    rw (le→not_ltb _ _ header, version, lt→ltb _ _ short)

drain_from_broken :
    (fuel : ℕ) (ctx : EmitCtx) (vc : VcState) (s : Sink)
    → IsBroken vc.pending
    → drain_from (suc fuel) ctx vc s ≡ lose_sync vc s
unfolding drain_from
drain_from_broken fuel ctx vc s (header, version) =
    let wrong : (packet_version vc.pending == 0) ≡ false = ground arith in
    rw (le→not_ltb _ _ header, wrong)

-- The rounds over a run of whole packets use no more fuel than there are bytes.
drain_from_packets :
    (fuel : ℕ) (ctx : EmitCtx) (vc : VcState) (ps : List Bytes) (t : Bytes) (s : Sink)
    → All IsPacket ps
    → vc.pending ≡ concat ps ++ t
    → length (concat ps) ≤ fuel
    → (k : ℕ) × (fuel ≤ k + length (concat ps))
      × (drain_from fuel ctx vc s
          ≡ drain_from k ctx (record vc { pending = t }) (deliver_all ctx ps s))
unfolding deliver_all
drain_from_packets fuel ctx vc [] t s w e h =
    (fuel, omega arith, ap (λ b. drain_from fuel ctx (record vc { pending = b }) s) e)
drain_from_packets zero ctx vc (p ∷ ps) t s w e h =
    absurd (omega (arith, IsPacket-length p w.0, length-append p (concat ps)))
drain_from_packets (suc fuel) ctx vc (p ∷ ps) t s w e h =
    let size = length-append p (concat ps) in
    let long = IsPacket-length p w.0 in
    let (k, enough, runs) =
      drain_from_packets fuel ctx (record vc { pending = concat ps ++ t }) ps t
        (deliver ctx (packet_apid p) p s) w.1 refl (omega arith) in
    (
      k,
      omega arith,
      drain_from_packet fuel ctx vc p (concat ps ++ t) s w.0 (e ∙ append_assoc p (concat ps) t)
          ∙ runs,
    )

module _ (ctx : EmitCtx) (vc : VcState) (ps : List Bytes) (t : Bytes) (s : Sink)
    (w : All IsPacket ps) (e : vc.pending ≡ concat ps ++ t) where
  -- Whole packets and then a part of one: all are delivered and the part is kept.
  pub drain_packets_partial :
      IsPartial t → drain_packets ctx vc s ≡ (record vc { pending = t }, deliver_all ctx ps s)
  unfolding drain_packets
  drain_packets_partial h =
      let size = ap length e ∙ length-append (concat ps) t in
      let (k, _, runs) = drain_from_packets (length vc.pending) ctx vc ps t s w e (omega arith) in
      runs ∙ drain_from_partial k ctx (record vc { pending = t }) (deliver_all ctx ps s) h

  -- Whole packets and then bytes that are no packet: all are delivered, and sync is lost.
  pub drain_packets_broken :
      IsBroken t
      → drain_packets ctx vc s ≡ lose_sync (record vc { pending = t }) (deliver_all ctx ps s)
  unfolding drain_packets
  drain_packets_broken h =
      let size = ap length e ∙ length-append (concat ps) t in
      let (k, enough, runs) =
        drain_from_packets (length vc.pending) ctx vc ps t s w e (omega arith) in
      let positive : k ≡ suc (k - 1) = omega (arith, h.0) in
      runs
      ∙ ap (λ n. drain_from n ctx (record vc { pending = t }) (deliver_all ctx ps s)) positive
      ∙ drain_from_broken (k - 1) ctx (record vc { pending = t }) (deliver_all ctx ps s) h
