-- ===== src/Oem/Parse/Lines.antt =====
-- `OemEphemeris::parse` of crates/gateway/src/oem.rs: its loop over the lines, and the ephemeris.
use chronus_gateway.Prelude.{
  ℕ, ◌+◌, Bool, true, false, not, ◌||◌, Option, none, some, List, [], ◌∷◌, ◌++◌, if◌then◌else◌,
  length, is_some_and, Result, ok, err, ok_or, ◌>>=◌, ◌>>◌, reject_if,
}
use chronus_gateway.Floats.{Float}
use chronus_gateway.Text.{Text, codes, text_eq, starts_with, trim, is_blank, lines}
use chronus_gateway.Oem.{OemError, not_oem, syntax, empty, OemSegment, SegmentBuilder, OemCalls}
use chronus_gateway.Oem.Parse.Segment.{Meta, kvn, from_meta, push_data, finish}

pub record OemEphemeris (T F : Type 0) : Type 0 where
  pub segments : List (OemSegment T F)

-- The variables of the loop.
pub record Reader (T F : Type 0) : Type 0 where
  pub segments : List (OemSegment T F)
  pub meta : Option Meta
  pub current : Option (SegmentBuilder T F)
  pub in_covariance : Bool

abbrev pub fresh_reader : {T F : Type 0} → Reader T F
fresh_reader = record { segments = []; meta = none; current = none; in_covariance = false }

-- `enumerate`, `trim` and the filter; `line` is the number of the line before.
abbrev pub numbered : ℕ → List Text → List (ℕ × Text)
numbered line [] = []
numbered line (l ∷ ls) =
    let rest = numbered (line + 1) ls in
    if is_blank (trim l) || starts_with (codes "COMMENT") (trim l)
    then rest
    else (line + 1, trim l) ∷ rest

abbrev pub is_empty_list : {A : Type 0} → List A → Bool
is_empty_list [] = true
is_empty_list (_ ∷ _) = false

module _ {T F D C : Type 0} (fl : Float F) (calls : OemCalls T F D C) where
  -- `if let Some(b) = current.take() { segments.push(b.finish(…)?) }`
  abbrev pub finish_current :
      Option (SegmentBuilder T F)
      → List (OemSegment T F)
      → Result (OemError T) (List (OemSegment T F))
  finish_current none segments = ok segments
  finish_current (some b) segments =
      finish fl calls (length segments + 1) b >>= λ s. ok (segments ++ s ∷ [])

  abbrev pub meta_start : Reader T F → Result (OemError T) (Reader T F)
  meta_start r = do
    segments ← finish_current r.current r.segments
    ok (record r { segments = segments; meta = some []; current = none })

  abbrev pub meta_stop : ℕ → Reader T F → Result (OemError T) (Reader T F)
  meta_stop line r = do
    m ← ok_or r.meta (syntax line)
    b ← from_meta fl calls m (length r.segments + 1)
    ok (record r { meta = none; current = some b })

  -- Any other line: metadata, data, or a keyword of the header.
  abbrev pub content :
      ℕ
      → Text
      → Option Meta
      → Option (SegmentBuilder T F)
      → Reader T F
      → Result (OemError T) (Reader T F)
  content line text (some m) current r = do
    kv ← ok_or (kvn text) (syntax line)
    ok (record r { meta = some (m ++ kv ∷ []) })
  content line text none (some b) r = do
    b' ← push_data fl calls line text b
    ok (record r { current = some b' })
  content line text none none r = do _ ← ok_or (kvn text) (syntax line); ok r

  -- One round of the loop.
  unfoldable pub read_line : ℕ → Text → Reader T F → Result (OemError T) (Reader T F)
  read_line line text r =
      if r.in_covariance
      then ok (record r { in_covariance = not (text_eq text (codes "COVARIANCE_STOP")) })
      else if text_eq text (codes "META_START")
      then meta_start r
      else if text_eq text (codes "META_STOP")
      then meta_stop line r
      else if text_eq text (codes "COVARIANCE_START")
      then ok (record r { in_covariance = true })
      else content line text r.meta r.current r

  unfoldable pub read_lines : List (ℕ × Text) → Reader T F → Result (OemError T) (Reader T F)
  read_lines [] r = ok r
  read_lines ((line, text) ∷ ls) r = read_line line text r >>= λ r'. read_lines ls r'

  abbrev pub is_version : Text → Bool
  is_version l = is_some_and (kvn l) (λ kv. text_eq kv.0 (codes "CCSDS_OEM_VERS"))

  abbrev pub no_meta_open : ℕ → Option Meta → Result (OemError T) (Unit {0})
  no_meta_open count none = ok tt
  no_meta_open count (some _) = err (syntax count)

  -- Behind the loop; `count` is the number of lines.
  unfoldable pub end_of_text : ℕ → Reader T F → Result (OemError T) (OemEphemeris T F)
  end_of_text count r = do
    no_meta_open count r.meta
    segments ← finish_current r.current r.segments
    if is_empty_list segments then err empty else ok (record { segments = segments })

  abbrev pub parse_numbered : ℕ → List (ℕ × Text) → Result (OemError T) (OemEphemeris T F)
  parse_numbered count [] = err not_oem
  parse_numbered count ((_, first) ∷ ls) = do
    reject_if (not (is_version first)) not_oem
    r ← read_lines ls fresh_reader
    end_of_text count r

  unfoldable pub parse : Text → Result (OemError T) (OemEphemeris T F)
  parse text = parse_numbered (length (lines text)) (numbered 0 (lines text))
