-- ===== src/Oem/Parse/Segment.antt =====
-- `SegmentBuilder` of crates/gateway/src/oem.rs: the metadata, the data lines and the end of one
-- segment.
use chronus_gateway.Prelude.{
  ℕ, ◌^◌, Bool, not, ◌&&◌, ◌||◌, Option, none, some, List, [], ◌∷◌, ◌++◌, ltb, leb, ◌==◌,
  if◌then◌else◌, length, and_then, is_some_and, Result, ok, err, ok_or, ◌>>=◌, ◌>>◌, reject_if,
}
use chronus_gateway.Floats.{Float}
use chronus_gateway.Text.{
  Text, codes, text_eq, starts_with, split_once, split_whitespace, trim, is_blank, all_chars,
  is_ascii_uppercase, is_ascii_digit, to_ascii_uppercase, eq_ignore_ascii_case, parse_unsigned,
}
use chronus_gateway.Oem.{
  gcrf, eme2000, teme, OemFrame, inertial, itrf, OemTimeSystem, utc, tai, terrestrial, gps,
  OemError, syntax, missing_keyword, unsupported_center, unsupported_frame, unsupported_time_system,
  bad_segment, Vec6, OemSegment, SegmentBuilder, OemCalls, later, earlier,
}
use chronus_gateway.Oem.Parse.Epoch.{parse_epoch}

abbrev pub is_key_char : ℕ → Bool
is_key_char c = is_ascii_uppercase c || is_ascii_digit c || c == b'_'

-- Splits `KEY = value`.
unfoldable pub kvn : Text → Option (Text × Text)
kvn line = and_then (split_once b'=' line) (λ kv.
    let k = trim kv.0 in
    if not (is_blank k) && all_chars is_key_char k then some (k, trim kv.1) else none)

abbrev pub Meta : Type 0
Meta = List (Text × Text)

abbrev pub find_key : Meta → Text → Option Text
find_key [] k = none
find_key ((key, v) ∷ m) k = if text_eq key k then some v else find_key m k

-- The arms of the matches on the names.
abbrev pub frame_of : Text → Option OemFrame
frame_of f =
    if text_eq f (codes "GCRF") || text_eq f (codes "ICRF")
    then some (inertial gcrf)
    else if text_eq f (codes "EME2000") || text_eq f (codes "J2000")
    then some (inertial eme2000)
    else if text_eq f (codes "TEME")
    then some (inertial teme)
    else if starts_with (codes "ITRF") f
    then some itrf
    else none

abbrev pub system_of : Text → Option OemTimeSystem
system_of s =
    if text_eq s (codes "UTC")
    then some utc
    else if text_eq s (codes "TAI")
    then some tai
    else if text_eq s (codes "TT")
    then some terrestrial
    else if text_eq s (codes "GPS")
    then some gps
    else none

abbrev pub in_range : ℕ → Option ℕ
in_range d = if leb 1 d && leb d 15 then some d else none

abbrev pub or_unknown : Option Text → Text
or_unknown none = codes "UNKNOWN"
or_unknown (some v) = v

abbrev pub or_else : {T : Type 0} → Option T → T → T
or_else none t = t
or_else (some t) _ = t

abbrev pub last_of : {T : Type 0} → List T → Option T
last_of [] = none
last_of (t ∷ []) = some t
last_of (_ ∷ t ∷ ts) = last_of (t ∷ ts)

module _ {T F D C : Type 0} (fl : Float F) (calls : OemCalls T F D C) where
  module _ (meta : Meta) (segment : ℕ) where
    abbrev pub get : Text → Result (OemError T) Text
    get k = ok_or (find_key meta k) (missing_keyword segment k)

    abbrev pub time_of : OemTimeSystem → Text → Result (OemError T) T
    time_of system v = ok_or (parse_epoch fl calls v system) (bad_segment segment)

    -- `.map(time).transpose()?`
    abbrev pub opt_time : OemTimeSystem → Option Text → Result (OemError T) (Option T)
    opt_time system none = ok none
    opt_time system (some v) = time_of system v >>= λ t. ok (some t)

    abbrev pub degree_of : Option Text → Result (OemError T) ℕ
    degree_of (some v) = ok_or (and_then (parse_unsigned (2 ^ 64) v) in_range) (bad_segment segment)
    degree_of none = ok (
        if is_some_and (find_key meta (codes "INTERPOLATION"))
          (λ i. eq_ignore_ascii_case i (codes "LINEAR"))
        then 1
        else 7)

    unfoldable pub from_meta : Result (OemError T) (SegmentBuilder T F)
    from_meta = do
      center ← get (codes "CENTER_NAME")
      reject_if (not (eq_ignore_ascii_case center (codes "EARTH")))
          (unsupported_center segment center)
      ref_frame ← get (codes "REF_FRAME")
      let frame_name = to_ascii_uppercase ref_frame
      frame ← ok_or (frame_of frame_name) (unsupported_frame segment frame_name)
      time_scale ← get (codes "TIME_SYSTEM")
      let ts_name = to_ascii_uppercase time_scale
      system ← ok_or (system_of ts_name) (unsupported_time_system segment ts_name)
      start_text ← get (codes "START_TIME")
      start ← time_of system start_text
      stop_text ← get (codes "STOP_TIME")
      stop ← time_of system stop_text
      useable_start ← opt_time system (find_key meta (codes "USEABLE_START_TIME"))
      useable_stop ← opt_time system (find_key meta (codes "USEABLE_STOP_TIME"))
      degree ← degree_of (find_key meta (codes "INTERPOLATION_DEGREE"))
      ok (record {
        object_name = or_unknown (find_key meta (codes "OBJECT_NAME"));
        object_id = or_unknown (find_key meta (codes "OBJECT_ID"));
        frame = frame;
        time_system = system;
        degree = degree;
        start = start;
        stop = stop;
        useable_start = useable_start;
        useable_stop = useable_stop;
        epochs = [];
        states = [];
      })

  abbrev pub numbers : List Text → Option (List F)
  numbers [] = some []
  numbers (t ∷ ts) =
      and_then (calls.parse_f64 t)
        (λ x. if fl.is_finite x then and_then (numbers ts) (λ xs. some (x ∷ xs)) else none)

  -- Six numbers, or nine of which the last three are not used.
  abbrev pub state_of : List F → Option (Vec6 F)
  state_of (a ∷ b ∷ c ∷ d ∷ e ∷ f ∷ []) = some (a, b, c, d, e, f)
  state_of (a ∷ b ∷ c ∷ d ∷ e ∷ f ∷ _ ∷ _ ∷ _ ∷ []) = some (a, b, c, d, e, f)
  state_of _ = none

  abbrev pub push_state :
      ℕ → T → Vec6 F → SegmentBuilder T F → Result (OemError T) (SegmentBuilder T F)
  push_state line epoch state b = do
    reject_if (is_some_and (last_of b.epochs) (λ prev. calls.le_time epoch prev)) (syntax line)
    ok (record b { epochs = b.epochs ++ epoch ∷ []; states = b.states ++ state ∷ [] })

  abbrev pub push_words :
      ℕ → List Text → SegmentBuilder T F → Result (OemError T) (SegmentBuilder T F)
  push_words line [] b = err (syntax line)
  push_words line (epoch_text ∷ tok) b = do
    epoch ← ok_or (parse_epoch fl calls epoch_text b.time_system) (syntax line)
    nums ← ok_or (numbers tok) (syntax line)
    state ← ok_or (state_of nums) (syntax line)
    push_state line epoch state b

  unfoldable pub push_data :
      ℕ → Text → SegmentBuilder T F → Result (OemError T) (SegmentBuilder T F)
  push_data line text b = push_words line (split_whitespace text) b

  -- The segment between its first and its last epoch.
  abbrev pub close : ℕ → T → T → SegmentBuilder T F → Result (OemError T) (OemSegment T F)
  close segment first last b = do
    let start = later calls.le_time (or_else b.useable_start b.start) first
    let stop = earlier calls.le_time (or_else b.useable_stop b.stop) last
    reject_if (calls.le_time stop start) (bad_segment segment)
    ok (record {
      object_name = b.object_name;
      object_id = b.object_id;
      frame = b.frame;
      time_system = b.time_system;
      degree = b.degree;
      start = start;
      stop = stop;
      epochs = b.epochs;
      states = b.states;
    })

  -- There are as many epochs as states.
  abbrev pub finish_epochs : ℕ → List T → SegmentBuilder T F → Result (OemError T) (OemSegment T F)
  finish_epochs segment [] b = err (bad_segment segment)
  finish_epochs segment (first ∷ more) b = elim (last_of (first ∷ more)) [
    | none ↦ err (bad_segment segment)
    | some last ↦ close segment first last b
  ]

  unfoldable pub finish : ℕ → SegmentBuilder T F → Result (OemError T) (OemSegment T F)
  finish segment b = do
    reject_if (ltb (length b.states) 2) (bad_segment segment)
    finish_epochs segment b.epochs b
