-- ===== src/Oem/Parse/Sound.antt =====
-- What every segment of a parsed ephemeris of crates/gateway/src/oem.rs satisfies.
use chronus_gateway.Prelude.{
  ℕ, ◌≤◌, ◌≡◌, ◌≢◌, refl, Bool, true, false, not, Option, none, some, List, [], ◌∷◌, ◌++◌,
  if◌then◌else◌, length, All, and_then, and_then-eq-some, ◌^◌, IfOk-ok_or, is_some_and, Result,
  ok_or, ◌>>=◌, reject_if, arith, IfOk, IfOk-bind, IfOk-err, IfOk-ok, length-append, Bool-cases,
  inl, inr,
}
use chronus_gateway.Floats.{Float}
use chronus_gateway.Text.{
  Text, codes, parse_unsigned, split_whitespace, to_ascii_uppercase, eq_ignore_ascii_case,
}
use chronus_gateway.Oem.{OemError, Vec6, OemSegment, SegmentBuilder, OemCalls}
use chronus_gateway.Oem.Parse.Epoch.{parse_epoch}
use chronus_gateway.Oem.Parse.Segment.{
  Meta, find_key, in_range, get, time_of, opt_time, frame_of, system_of, numbers, state_of,
  degree_of, from_meta, last_of, push_state, push_words, push_data,
}
use chronus_gateway.Oem.Parse.Lines.{OemEphemeris}

abbrev pub head_of : {T : Type 0} → List T → Option T
head_of [] = none
head_of (t ∷ _) = some t

-- Each epoch is behind the one before it.
abbrev pub Increasing : {T : Type 0} → (T → T → Bool) → List T → Type 0
Increasing le [] = Unit
Increasing le (t ∷ []) = Unit
Increasing le (t ∷ u ∷ ts) = (le u t ≡ false) × Increasing le (u ∷ ts)

Increasing-append :
    {T : Type 0} (le : T → T → Bool) (ts : List T) (t : T)
    → Increasing le ts
    → is_some_and (last_of ts) (λ prev. le t prev) ≡ false
    → Increasing le (ts ++ t ∷ [])
Increasing-append le [] t h e = tt
Increasing-append le (u ∷ []) t h e = (e, tt)
Increasing-append le (u ∷ v ∷ ts) t h e = (h.0, Increasing-append le (v ∷ ts) t h.1 e)

-- A segment under construction.
pub record BuilderOk {T F : Type 0} (le : T → T → Bool) (b : SegmentBuilder T F) : Type 0 where
  pub same_length : length b.epochs ≡ length b.states
  pub increasing : Increasing le b.epochs
  pub degree_low : 1 ≤ b.degree
  pub degree_high : b.degree ≤ 15

-- A segment: at least two states, one for each epoch, the epochs increasing; a degree from 1 to 15;
-- and a window of use that is not empty and lies between the first epoch and the last.
pub record SegmentOk {T F : Type 0} (le : T → T → Bool) (s : OemSegment T F) : Type 0 where
  pub two_states : 2 ≤ length s.states
  pub same_length : length s.epochs ≡ length s.states
  pub increasing : Increasing le s.epochs
  pub degree_low : 1 ≤ s.degree
  pub degree_high : s.degree ≤ 15
  pub not_empty : le s.stop s.start ≡ false
  pub after_first : (t : T) → head_of s.epochs ≡ some t → le t s.start ≡ true
  pub before_last : (t : T) → last_of s.epochs ≡ some t → le s.stop t ≡ true

abbrev pub EphemerisOk : {T F : Type 0} → (T → T → Bool) → OemEphemeris T F → Type 0
EphemerisOk le eph = (eph.segments ≢ []) × All (SegmentOk le) eph.segments

-- The order of the instants is total.
pub record IsOrder {T : Type 0} (le : T → T → Bool) : Type 0 where
  pub reflexive : (t : T) → le t t ≡ true
  pub total : (t u : T) → le t u ≡ false → le u t ≡ true
  pub transitive : (t u v : T) → le t u ≡ true → le u v ≡ true → le t v ≡ true

one_or_seven : (b : Bool) → (1 ≤ (if b then 1 else 7)) × ((if b then 1 else 7) ≤ 15)
one_or_seven true = omega arith
one_or_seven false = omega arith

in_range-bounds : (n d : ℕ) → in_range n ≡ some d → (1 ≤ d) × (d ≤ 15)
in_range-bounds n d e = ground arith

module _ {T F D C : Type 0} (fl : Float F) (calls : OemCalls T F D C) where
  degree_of-IfOk :
      (meta : Meta) (segment : ℕ) (o : Option Text)
      → IfOk (λ d. (1 ≤ d) × (d ≤ 15)) (degree_of fl calls meta segment o)
  degree_of-IfOk meta segment none = IfOk-ok _ _ (one_or_seven _)
  degree_of-IfOk meta segment (some v) =
      IfOk-ok_or (λ d. (1 ≤ d) × (d ≤ 15)) (and_then (parse_unsigned (2 ^ 64) v) in_range) _
        (λ d e.
          let (n, _, range) = and_then-eq-some (parse_unsigned (2 ^ 64) v) in_range e in
          in_range-bounds n d range)

  degree_first :
      (meta : Meta) (segment : ℕ) (o : Option Text)
      (f : ℕ → Result (OemError T) (SegmentBuilder T F))
      → ((d : ℕ) → 1 ≤ d → d ≤ 15 → IfOk (BuilderOk calls.le_time) (f d))
      → IfOk (BuilderOk calls.le_time) (degree_of fl calls meta segment o >>= f)
  degree_first meta segment o f h =
      IfOk-bind (BuilderOk calls.le_time) (degree_of fl calls meta segment o) f
        λ d e. let range = (degree_of-IfOk meta segment o).holds d e in h d range.0 range.1

  -- `from_meta` starts a segment without states.
  pub from_meta-BuilderOk :
      (meta : Meta) (segment : ℕ) → IfOk (BuilderOk calls.le_time) (from_meta fl calls meta segment)
  unfolding from_meta
  from_meta-BuilderOk meta segment =
      let Ok = BuilderOk {T = T} {F = F} calls.le_time in
      let degree_first = degree_first meta segment in
      let value = get fl calls meta segment in
      let key = find_key meta in
      let time = time_of fl calls meta segment in
      let opt = opt_time fl calls meta segment in
      IfOk-bind Ok (value (codes "CENTER_NAME")) _ λ center _.
        IfOk-bind Ok (reject_if (not (eq_ignore_ascii_case center (codes "EARTH"))) _) _ λ _ _.
          IfOk-bind Ok (value (codes "REF_FRAME")) _ λ f _.
            IfOk-bind Ok (ok_or (frame_of (to_ascii_uppercase f)) _) _ λ _ _.
              IfOk-bind Ok (value (codes "TIME_SYSTEM")) _ λ s _.
                IfOk-bind Ok (ok_or (system_of (to_ascii_uppercase s)) _) _ λ system _.
                  IfOk-bind Ok (value (codes "START_TIME")) _ λ a _.
                    IfOk-bind Ok (time system a) _ λ _ _.
                      IfOk-bind Ok (value (codes "STOP_TIME")) _ λ z _.
                        IfOk-bind Ok (time system z) _ λ _ _.
                          IfOk-bind Ok (opt system (key (codes "USEABLE_START_TIME"))) _ λ _ _.
                            IfOk-bind Ok (opt system (key (codes "USEABLE_STOP_TIME"))) _ λ _ _.
                              degree_first (key (codes "INTERPOLATION_DEGREE")) _ λ degree lo hi.
                                IfOk-ok Ok _ (record {
                                  same_length = refl;
                                  increasing = tt;
                                  degree_low = lo;
                                  degree_high = hi;
                                })

  push_state-BuilderOk :
      (line : ℕ) (epoch : T) (state : Vec6 F) (b : SegmentBuilder T F)
      → BuilderOk calls.le_time b
      → IfOk (BuilderOk calls.le_time) (push_state fl calls line epoch state b)
  push_state-BuilderOk line epoch state b v =
      elim (Bool-cases (is_some_and (last_of b.epochs) (λ prev. calls.le_time epoch prev))) [
        | inl back ↦ rw back (IfOk-err _ _)
        | inr behind ↦ rw behind (
            IfOk-ok _ _ (record {
              same_length = omega (
                arith,
                length-append b.epochs (epoch ∷ []),
                length-append b.states (state ∷ []),
                v.same_length,
              );
              increasing = Increasing-append calls.le_time b.epochs epoch v.increasing behind;
              degree_low = v.degree_low;
              degree_high = v.degree_high;
            }))
      ]

  push_words-BuilderOk :
      (line : ℕ) (words : List Text) (b : SegmentBuilder T F)
      → BuilderOk calls.le_time b
      → IfOk (BuilderOk calls.le_time) (push_words fl calls line words b)
  push_words-BuilderOk line [] b v = IfOk-err _ _
  push_words-BuilderOk line (epoch_text ∷ tok) b v =
      let Ok = BuilderOk {T = T} {F = F} calls.le_time in
      IfOk-bind Ok (ok_or (parse_epoch fl calls epoch_text b.time_system) _) _ λ epoch _.
        IfOk-bind Ok (ok_or (numbers fl calls tok) _) _ λ nums _.
          IfOk-bind Ok (ok_or (state_of fl calls nums) _) _
            λ state _. push_state-BuilderOk line epoch state b v

  pub push_data-BuilderOk :
      (line : ℕ) (text : Text) (b : SegmentBuilder T F)
      → BuilderOk calls.le_time b
      → IfOk (BuilderOk calls.le_time) (push_data fl calls line text b)
  unfolding push_data
  push_data-BuilderOk line text b v = push_words-BuilderOk line (split_whitespace text) b v
