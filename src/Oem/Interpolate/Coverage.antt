-- ===== src/Oem/Interpolate/Coverage.antt =====
-- `OemEphemeris::state_itrf` of crates/gateway/src/oem.rs never extrapolates.
use chronus_gateway.Prelude.{
  ◌≡◌, subst, false, ◌∷◌, length, All, All-append_right, ok, err, inl, inr, ◌⊎◌,
}
use chronus_gateway.Floats.{Float}
use chronus_gateway.Propagator.{Vec3}
use chronus_gateway.Text.{Text}
use chronus_gateway.Oem.{InertialFrame, out_of_coverage, OemSegment, OemCalls}
use chronus_gateway.Oem.Parse.Lines.{OemEphemeris, parse}
use chronus_gateway.Oem.Parse.Sound.{SegmentOk, IsOrder}
use chronus_gateway.Oem.Parse.Read.{parse-EphemerisOk}
use chronus_gateway.Oem.Interpolate.{
  window_size, after_time, first_of, covers, coverage, state_of_segment, state_itrf,
}
use chronus_gateway.Oem.Interpolate.Window.{Brackets, IsLast, last_covering-cases, window-Brackets}

module _ {T F D C O : Type 0} (fl : Float F) (calls : OemCalls T F D C)
    (rotate : InertialFrame → T → Vec3 F → Vec3 F → O → Vec3 F × Vec3 F) (eph : OemEphemeris T F)
    (time : T) (eop : O) where
  -- The answer from a segment.
  pub record Interpolated : Type 0 where
    pub segment : OemSegment T F
    pub last : IsLast fl calls time segment eph.segments
    pub answer :
        state_itrf fl calls rotate eph time eop
        ≡ ok (state_of_segment fl calls rotate segment time eop)
    pub window :
        Brackets
          (after_time fl calls segment time)
          (first_of fl calls segment time)
          (window_size fl calls segment)
          (length segment.states)

  pub record Refused : Type 0 where
    pub outside : All (λ s. covers fl calls time s ≡ false) eph.segments
    pub answer :
        state_itrf fl calls rotate eph time eop
        ≡ err (
            out_of_coverage time
              (coverage fl calls time eph.segments).0
              (coverage fl calls time eph.segments).1)

  answers :
      IsOrder calls.le_time → All (SegmentOk calls.le_time) eph.segments → Interpolated ⊎ Refused
  unfolding state_itrf
  answers o v = elim (last_covering-cases fl calls time eph.segments) [
    | inl (e, a) ↦ inr (record { outside = a; answer = rw e })
    | inr (s, e, l) ↦ inl (record {
      segment = s;
      last = l;
      answer = rw e;
      window =
          window-Brackets fl calls time s o
            (All-append_right (SegmentOk calls.le_time) l.before (s ∷ l.behind)
              (subst (All (SegmentOk calls.le_time)) l.place v)).0
            l.covering;
    })
  ]

  -- Under a total order of the instants, an ephemeris that was parsed answers for any instant from
  -- the last of its segments whose window of use holds the instant, by interpolation over states of
  -- that segment among which are the last one up to the instant and, where there is one, the first
  -- one after it; it refuses with its coverage exactly when no segment holds the instant.
  pub state_itrf-parse :
      IsOrder calls.le_time → (text : Text) → parse fl calls text ≡ ok eph → Interpolated ⊎ Refused
  state_itrf-parse o text e = answers o (parse-EphemerisOk fl calls o text e).1
