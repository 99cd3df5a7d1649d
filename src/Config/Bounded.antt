-- ===== src/Config/Bounded.antt =====
-- A configuration that passes the checks bounds the memory of the deframer that is built from it.
use chronus_gateway.Prelude.{
  ℕ, zero, suc, ◌+◌, ◌<◌, ◌≡◌, refl, ap, ◌∙◌, Bool, true, false, Option, none, some, inl, inr, List,
  [], ◌∷◌, ltb, length, take, drop, All, arith, Bool-cases, Option-cases, Result, ok, >>=-eq-ok,
  if◌then◌else◌,
}
use chronus_gateway.Words.{Bytes}
use chronus_gateway.Floats.{Float}
use chronus_gateway.Frames.Stats.{bump}
use chronus_gateway.Frames.Deframer.{
  TmDeframer, FramingConfig, new, reset, handle_frame, with_stats,
}
use chronus_gateway.Frames.Snapshot.{tm_frames}
use chronus_gateway.Frames.Stream.{
  find_asm, discard, resume_at, at_marker, stream_round, scan, scan_all, push_stream, push_chunks,
  push_datagram, is_whole_frames, push,
}
use chronus_gateway.Frames.Stream.Kept.{handle_frame-config}
use chronus_gateway.Frames.Stream.Bound.{
  Operation, pushes, resets, operate, run, CarriesOctets, run-new-Ok,
}
use chronus_gateway.Config.{StationConfig}
use chronus_gateway.Config.Check.{
  validate, validate_site, validate_doppler_elevation, validate_tracking, validate_link_pointing,
  validate_hil, validate_rf_time,
}
use chronus_gateway.Config.Valid.{FramingHistoryValid, validate_framing_history-FramingHistoryValid}

scan-config :
    (fuel frame_len : ℕ) (rest : Bytes) (d : TmDeframer)
    → (scan fuel frame_len rest d).config ≡ d.config
unfolding scan stream_round at_marker
scan-config zero frame_len rest d = refl
scan-config (suc fuel) frame_len rest d = elim (Option-cases (find_asm rest)) [
  | inl missing ↦ rw missing refl
  | inr (rel, found) ↦
      let at = drop rel rest in
      let field = take frame_len (drop 4 at) in
      let handled = handle_frame (discard rel d) field in
      elim (Bool-cases (ltb (length at) (4 + frame_len))) [
        | inl few ↦ rw (found, few) refl
        | inr enough ↦
            rw (found, enough)
              (scan-config fuel frame_len (resume_at frame_len at handled.1) handled.0
                ∙ handle_frame-config (discard rel d) field)
      ]
]

push_chunks-config :
    (fuel len : ℕ) (bytes : Bytes) (d : TmDeframer)
    → (push_chunks fuel len bytes d).config ≡ d.config
unfolding push_chunks
push_chunks-config zero len bytes d = refl
push_chunks-config (suc fuel) len bytes d = elim (Bool-cases (ltb (length bytes) len)) [
  | inl few ↦ rw few refl
  | inr enough ↦ rw enough (
      push_chunks-config fuel len (drop len bytes) (handle_frame d (take len bytes)).0
      ∙ handle_frame-config d (take len bytes))
]

push_stream-config :
    (frame_length : Option ℕ) (datagram : Bytes) (d : TmDeframer)
    → (push_stream frame_length datagram d).config ≡ d.config
unfolding push_stream scan_all
push_stream-config none datagram d = refl
push_stream-config (some n) datagram d = scan-config _ n _ (record d { stream = [] })

push_datagram-config :
    (frame_length : Option ℕ) (datagram : Bytes) (d : TmDeframer)
    → (push_datagram frame_length datagram d).config ≡ d.config
unfolding push_datagram
push_datagram-config none datagram d = handle_frame-config d datagram
push_datagram-config (some n) datagram d = elim (Bool-cases (is_whole_frames datagram n)) [
  | inl whole ↦ rw whole (push_chunks-config (length datagram) n datagram d)
  | inr part ↦ rw part refl
]

if-config :
    (b : Bool) (d1 d2 : TmDeframer) (cfg : FramingConfig)
    → d1.config ≡ cfg
    → d2.config ≡ cfg
    → (if b then d1 else d2).config ≡ cfg
if-config true d1 d2 cfg h1 h2 = h1
if-config false d1 d2 cfg h1 h2 = h2

push-config : (datagram : Bytes) (d : TmDeframer) → (push datagram d).config ≡ d.config
unfolding push
push-config datagram d =
    let st = d.sink.stats in
    let counted = with_stats d (record st { datagrams = bump st.datagrams }) in
    if-config d.asm (push_stream d.frame_length datagram counted)
      (push_datagram d.frame_length datagram counted) d.config
      (push_stream-config d.frame_length datagram counted)
      (push_datagram-config d.frame_length datagram counted)

run-config : (os : List Operation) (d : TmDeframer) → (run os d).config ≡ d.config
unfolding run operate reset
run-config [] d = refl
run-config (pushes datagram ∷ os) d = run-config os (push datagram d) ∙ push-config datagram d
run-config (resets ∷ os) d = run-config os (reset d)

module _ {F S P O X : Type 0} (fl : Float F) (is_blank : S → Bool)
    (new_orientation : (ut1 x y : F) → Result X O) (c : StationConfig F S P) where
  validate-FramingHistoryValid :
      validate fl is_blank new_orientation c ≡ ok tt
      → FramingHistoryValid c.framing_mode c.framing c.history
  unfolding validate
  validate-FramingHistoryValid passed =
      let (_, _, e1) = >>=-eq-ok (validate_site fl c.site) _ passed in
      let (_, _, e2) = >>=-eq-ok (validate_doppler_elevation fl c.tolerances) _ e1 in
      let (_, _, e3) = >>=-eq-ok (validate_tracking fl is_blank new_orientation c.tracking) _ e2 in
      let (_, _, e4) = >>=-eq-ok (validate_link_pointing fl c.tolerances) _ e3 in
      let (_, _, e5) = >>=-eq-ok (validate_hil fl c.hil) _ e4 in
      let (_, _, e6) = >>=-eq-ok (validate_rf_time fl c.rf c.time) _ e5 in
      (validate_framing_history-FramingHistoryValid c.framing_mode c.framing c.history).0 e6

  -- Under a configuration that passes the checks and asks for the marker search, a new deframer,
  -- after any sequence of datagrams of octets and of resets, buffers less than 2052 octets of its
  -- byte stream.
  pub validate-run :
      (os : List Operation)
      → validate fl is_blank new_orientation c ≡ ok tt
      → c.framing_mode ≡ tm_frames
      → c.framing.asm ≡ true
      → All CarriesOctets os
      → length (run os (new c.framing)).stream < 2052
  validate-run os passed framed marked octets =
      let valid = validate-FramingHistoryValid passed in
      let kept = run-config os (new c.framing) in
      let bounded = run-new-Ok c.framing os octets in
      elim (Option-cases c.framing.frame_length) [
        | inl missing ↦ absurd (valid.marker_needs_length framed marked missing)
        | inr (n, found) ↦
            let (_, most) = valid.length_valid n found in
            let short = bounded.stream.short n (ap (λ f. f.frame_length) kept ∙ found) in
            omega arith
      ]
