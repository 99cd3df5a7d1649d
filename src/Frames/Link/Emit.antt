-- ===== src/Frames/Link/Emit.antt =====
-- `emit_frame`: the frame that it writes, and what it leaves in the framer.
use chronus_gateway.Prelude.{
  ℕ, ◌+◌, ◌^◌, ◌<◌, ◌≤◌, ◌≡◌, ◌≢◌, ap, sym, ◌∙◌, subst, Bool, true, false, none, ◌++◌, length, take,
  drop, arith, length-append, length-take, length-set, set, get_or-set_self, get_or-set_ne, ok,
}
use chronus_gateway.Words.{Bytes, IsByte, wrapping_succ_u8}
use chronus_gateway.Frames.Header.{to_bytes}
use chronus_gateway.Frames.Header.RoundTrip.{IsValid}
use chronus_gateway.Frames.Parse.{parse_tm_frame, trailer_len, tm_frame_min_len, tm_frame_max_len}
use chronus_gateway.Frames.Builder.{
  TmFrameBuilder, BuilderVc, fresh_builder_vc, builder_vc_of, data_field_len, frame_header,
  with_crc, frame, pop_before, pointer_at, emit_frame,
}
use chronus_gateway.Frames.Builder.Encode.{parse_tm_frame-frame, length-to_bytes}

-- A framer as `new` makes it and every operation leaves it.
pub record FramerOk (b : TmFrameBuilder) : Type 0 where
  pub spacecraft : b.spacecraft_id < 2 ^ 10
  pub shortest : tm_frame_min_len + 2 ≤ b.frame_length
  pub longest : b.frame_length ≤ tm_frame_max_len
  pub count : IsByte b.mc_count
  pub channels : length b.vc ≡ 8

abbrev pub pointer_of : TmFrameBuilder → ℕ → ℕ
pointer_of b vcid =
    let vc = builder_vc_of b vcid in
    pointer_at vc.emitted (data_field_len b) (pop_before vc.emitted vc.starts)

-- The channel behind one frame.
abbrev pub next_vc : TmFrameBuilder → ℕ → BuilderVc
next_vc b vcid =
    let vc = builder_vc_of b vcid in
    record {
      frame_count = wrapping_succ_u8 vc.frame_count;
      queued = drop (data_field_len b) vc.queued;
      starts = pop_before vc.emitted vc.starts;
      emitted = vc.emitted + data_field_len b;
    }

pub data_field_len-le :
    (b : TmFrameBuilder)
    → FramerOk b
    → (0 < data_field_len b)
      × (6 + data_field_len b + trailer_len b.fecf ≡ b.frame_length)
      × (data_field_len b ≤ 2042)
data_field_len-le b v = ground (arith, v.shortest, v.longest)

length-with_crc :
    (has_fecf : Bool) (body : Bytes)
    → length (with_crc has_fecf body) ≡ length body + trailer_len has_fecf
length-with_crc true body = length-append body _
length-with_crc false body = omega arith

length-frame :
    (b : TmFrameBuilder) (vcid fhp : ℕ) (payload : Bytes)
    → length (frame vcid fhp payload b).1 ≡ 6 + length payload + trailer_len b.fecf
unfolding frame
length-frame b vcid fhp payload =
    length-with_crc b.fecf (to_bytes (frame_header b vcid fhp) ++ payload)
    ∙ ap (λ n. n + trailer_len b.fecf)
        (length-append (to_bytes (frame_header b vcid fhp)) payload
          ∙ ap (λ n. n + length payload) (length-to_bytes (frame_header b vcid fhp)))

module _ (b : TmFrameBuilder) (vcid : ℕ) (v : FramerOk b) (h : vcid < 8) where
  pub emit_frame-vc : builder_vc_of (emit_frame vcid b).0 vcid ≡ next_vc b vcid
  unfolding emit_frame frame
  emit_frame-vc = rw (
    get_or-set_self (set b.vc vcid _) vcid _ fresh_builder_vc
        (subst (λ l. vcid < l) (sym (length-set b.vc vcid _ ∙ v.channels)) h),
    get_or-set_self b.vc vcid _ fresh_builder_vc (subst (λ l. vcid < l) (sym v.channels) h),
  )

  pub emit_frame-other :
      (j : ℕ) → vcid ≢ j → builder_vc_of (emit_frame vcid b).0 j ≡ builder_vc_of b j
  unfolding emit_frame frame
  emit_frame-other j ne =
      get_or-set_ne (set b.vc vcid _) vcid j _ fresh_builder_vc ne
      ∙ get_or-set_ne b.vc vcid j _ fresh_builder_vc ne

  pub emit_frame-FramerOk : FramerOk (emit_frame vcid b).0
  unfolding emit_frame frame
  emit_frame-FramerOk = record {
    spacecraft = v.spacecraft;
    shortest = v.shortest;
    longest = v.longest;
    count = omega arith;
    channels = length-set (set b.vc vcid _) vcid _ ∙ length-set b.vc vcid _ ∙ v.channels;
  }

  -- The framer that `frame` meets inside `emit_frame`.
  abbrev midway : TmFrameBuilder
  midway = record b {
    vc =
        set b.vc vcid
          (record (next_vc b vcid) { frame_count = (builder_vc_of b vcid).frame_count });
  }

  midway-header : (fhp : ℕ) → frame_header midway vcid fhp ≡ frame_header b vcid fhp
  midway-header fhp =
      ap (λ vc. record (frame_header b vcid fhp) { vc_frame_count = vc.frame_count })
        (get_or-set_self b.vc vcid _ fresh_builder_vc (subst (λ l. vcid < l) (sym v.channels) h))

  -- The frame is read back whole, and is as long as the framer's frames are.
  pub emit_frame-frame :
      IsByte (builder_vc_of b vcid).frame_count
      → pointer_of b vcid < 2 ^ 11
      → data_field_len b ≤ length (builder_vc_of b vcid).queued
      → (parse_tm_frame (emit_frame vcid b).1 b.fecf
          ≡ ok (record {
            header = frame_header b vcid (pointer_of b vcid);
            payload = take (data_field_len b) (builder_vc_of b vcid).queued;
            ocf = none;
          }))
        × (length (emit_frame vcid b).1 ≡ b.frame_length)
  unfolding emit_frame
  emit_frame-frame count pointer full =
      let fhp = pointer_of b vcid in
      let payload = take (data_field_len b) (builder_vc_of b vcid).queued in
      let same = midway-header fhp in
      let room = data_field_len-le b v in
      let size : length payload ≡ data_field_len b =
        omega (arith, length-take (data_field_len b) (builder_vc_of b vcid).queued) in
      let valid : IsValid (frame_header b vcid fhp) = record {
        version_fits = omega arith;
        spacecraft_id_fits = v.spacecraft;
        vcid_fits = omega arith;
        mc_fits = v.count;
        vc_fits = count;
        pointer_fits = pointer;
      } in
      (
        parse_tm_frame-frame midway vcid fhp payload (subst IsValid (sym same) valid)
              (omega (arith, room.0))
            ∙ ap (λ h. ok (record { header = h; payload = payload; ocf = none })) same,
        length-frame midway vcid fhp payload ∙ omega (arith, room),
      )
