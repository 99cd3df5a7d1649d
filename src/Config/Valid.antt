-- ===== src/Config/Valid.antt =====
-- What a configuration that passes the checks satisfies, and what passes them.
use chronus_gateway.Prelude.{
  ℕ, ◌<◌, ◌≤◌, ◌≡◌, ◌≢◌, ◌↔◌, refl, ap, sym, ◌∙◌, Bool, true, false, ◌&&◌, ◌||◌, Option, none, some,
  List, [], ◌∷◌, ◌==◌, is_some_and, All, ok, arith,
}
use chronus_gateway.History.{is_some}
use chronus_gateway.Rf.Build.{is_none}
use chronus_gateway.Frames.Deframer.{FramingConfig}
use chronus_gateway.Frames.Snapshot.{FramingMode, packets, tm_frames}
use chronus_gateway.Config.{HistoryConfig}
use chronus_gateway.Config.Errors.{ConfigError}
use chronus_gateway.Config.Check.{
  first_of, NoneHolds, framing_history_checks, any_above, is_tm_frames, is_empty_list,
  validate_framing_history,
}

-- The framing and history sections that make sense together.
pub record FramingHistoryValid {P : Type 0} (mode : FramingMode) (f : FramingConfig)
    (history : HistoryConfig P) : Type 0 where
  pub length_valid : (n : ℕ) → f.frame_length ≡ some n → (8 ≤ n) × (n ≤ 2048)
  pub marker_needs_length : mode ≡ tm_frames → f.asm ≡ true → f.frame_length ≢ none
  pub spacecraft_valid : (id : ℕ) → f.spacecraft_id ≡ some id → id ≤ 1023
  pub channels_valid :
      (vcs : List ℕ) → f.virtual_channels ≡ some vcs → (vcs ≢ []) × All (λ (v : ℕ). v ≤ 7) vcs
  pub capacity_valid : history.capacity ≤ 500000
  pub file_needs_ring : (path : P) → history.persist_path ≡ some path → 0 < history.capacity

-- The checks pass exactly when none of the conditions holds.
first_of-ok : {E : Type 0} (checks : List (Bool × E)) → first_of checks ≡ ok tt → NoneHolds checks
first_of-ok [] h = tt
first_of-ok ((true, e) ∷ checks) h = cc
first_of-ok ((false, e) ∷ checks) h = (refl, first_of-ok checks h)

NoneHolds-first_of :
    {E : Type 0} (checks : List (Bool × E)) → NoneHolds checks → first_of checks ≡ ok tt
NoneHolds-first_of [] h = refl
NoneHolds-first_of ((true, e) ∷ checks) h = let wrong = h.0 in cc
NoneHolds-first_of ((false, e) ∷ checks) h = NoneHolds-first_of checks h.1

is_some_and-false :
    {A : Type 0} (o : Option A) (p : A → Bool)
    → is_some_and o p ≡ false
    → (a : A) → o ≡ some a
    → p a ≡ false
is_some_and-false o p h a e = sym (ap (λ x. is_some_and x p) e) ∙ h

false-is_some_and :
    {A : Type 0} (o : Option A) (p : A → Bool)
    → ((a : A) → o ≡ some a → p a ≡ false)
    → is_some_and o p ≡ false
false-is_some_and none p h = refl
false-is_some_and (some a) p h = h a refl

any_above-false : (n : ℕ) (vs : List ℕ) → any_above n vs ≡ false → All (λ (v : ℕ). v ≤ n) vs
any_above-false n [] h = tt
any_above-false n (v ∷ vs) h = (ground arith, any_above-false n vs (ground arith))

All-any_above : (n : ℕ) (vs : List ℕ) → All (λ (v : ℕ). v ≤ n) vs → any_above n vs ≡ false
All-any_above n [] h = refl
All-any_above n (v ∷ vs) h = let rest = All-any_above n vs h.1 in let first = h.0 in ground arith

marker-false :
    (mode : FramingMode) (asm : Bool) (frame_length : Option ℕ)
    → (mode ≡ tm_frames → asm ≡ true → frame_length ≢ none)
    → (is_tm_frames mode && asm && is_none frame_length) ≡ false
marker-false packets asm frame_length h = refl
marker-false tm_frames false frame_length h = refl
marker-false tm_frames true (some n) h = refl
marker-false tm_frames true none h = absurd (h refl refl refl)

false-marker :
    (mode : FramingMode) (asm : Bool) (frame_length : Option ℕ)
    → (is_tm_frames mode && asm && is_none frame_length) ≡ false
    → mode ≡ tm_frames
    → asm ≡ true
    → frame_length ≢ none
false-marker mode asm frame_length h tm with_asm missing =
    let wrong : true ≡ false =
      sym (λ i. is_tm_frames (tm i) && with_asm i && is_none (missing i)) ∙ h in
    cc

channels-false :
    (vcs : List ℕ)
    → (is_empty_list vcs || any_above 7 vcs) ≡ false
    → (vcs ≢ []) × All (λ (v : ℕ). v ≤ 7) vcs
channels-false [] h = cc
channels-false (v ∷ vs) h = ((λ e. cc), any_above-false 7 (v ∷ vs) h)

false-channels :
    (vcs : List ℕ)
    → (vcs ≢ []) × All (λ (v : ℕ). v ≤ 7) vcs
    → (is_empty_list vcs || any_above 7 vcs) ≡ false
false-channels [] h = absurd (h.0 refl)
false-channels (v ∷ vs) h = All-any_above 7 (v ∷ vs) h.1

file-false :
    {P : Type 0} (path : Option P) (capacity : ℕ)
    → ((p : P) → path ≡ some p → 0 < capacity)
    → (is_some path && capacity == 0) ≡ false
file-false none capacity h = refl
file-false (some p) capacity h = let room = h p refl in ground arith

module _ {F X P : Type 0} (mode : FramingMode) (f : FramingConfig) (history : HistoryConfig P) where
  -- The checks of both sections pass exactly when the sections make sense together: a frame length
  -- of 8 to 2048 octets, and one there for the marker search, a spacecraft id of ten bits, a
  -- non-empty list of channels up to 7, and a history that a file can be kept of.
  pub validate_framing_history-FramingHistoryValid :
      (validate_framing_history {F = F} {X = X} mode f history ≡ ok tt)
      ↔ FramingHistoryValid mode f history
  unfolding validate_framing_history
  validate_framing_history-FramingHistoryValid =
      let checks : List (Bool × ConfigError F X) = framing_history_checks mode f history in
      (
        (λ passed.
            let (length_in, (marker, (id_in, (channels_in, (capacity_in, (file, _)))))) =
              first_of-ok checks passed in
            record {
              length_valid = λ n e.
                  let inside = is_some_and-false f.frame_length _ length_in n e in
                  (ground arith, ground arith);
              marker_needs_length = false-marker mode f.asm f.frame_length marker;
              spacecraft_valid = λ id e.
                  let inside = is_some_and-false f.spacecraft_id _ id_in id e in ground arith;
              channels_valid = λ vcs e.
                  channels-false vcs (is_some_and-false f.virtual_channels _ channels_in vcs e);
              capacity_valid = ground arith;
              file_needs_ring = λ path e.
                  let filed = sym (ap (λ o. is_some o && history.capacity == 0) e) ∙ file in
                  ground arith;
            }),
        λ v. NoneHolds-first_of checks (
          false-is_some_and f.frame_length _
              (λ n e. let inside = v.length_valid n e in ground arith),
          (
            marker-false mode f.asm f.frame_length v.marker_needs_length,
            (
              false-is_some_and f.spacecraft_id _
                  (λ id e. let most = v.spacecraft_valid id e in ground arith),
              (
                false-is_some_and f.virtual_channels _
                    (λ vcs e. false-channels vcs (v.channels_valid vcs e)),
                (
                  (let room = v.capacity_valid in ground arith),
                  (file-false history.persist_path history.capacity v.file_needs_ring, tt),
                ),
              ),
            ),
          ),
        ),
      )
