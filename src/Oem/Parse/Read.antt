-- ===== src/Oem/Parse/Read.antt =====
-- Every segment that `OemEphemeris::parse` of crates/gateway/src/oem.rs accepts is well formed.
use chronus_gateway.Prelude.{
  ℕ, ◌+◌, ◌≡◌, refl, subst, Bool, true, not, Option, none, some, List, [], ◌∷◌, if◌then◌else◌,
  length, All, All-append, ok, err, ok_or, reject_if, IfOk, IfOk-bind, IfOk-err, IfOk-if, IfOk-ok,
}
use chronus_gateway.Floats.{Float}
use chronus_gateway.Text.{Text, codes, text_eq, lines}
use chronus_gateway.Oem.{OemError, syntax, empty, not_oem, OemSegment, SegmentBuilder, OemCalls}
use chronus_gateway.Oem.Parse.Segment.{Meta, kvn, from_meta, push_data, finish}
use chronus_gateway.Oem.Parse.Lines.{
  OemEphemeris, Reader, fresh_reader, is_empty_list, finish_current, meta_start, meta_stop, content,
  read_line, read_lines, end_of_text, parse_numbered, parse, numbered, no_meta_open, is_version,
}
use chronus_gateway.Oem.Parse.Sound.{
  BuilderOk, SegmentOk, EphemerisOk, IsOrder, from_meta-BuilderOk, push_data-BuilderOk,
}
use chronus_gateway.Oem.Parse.Close.{some-inj, none-some, finish-SegmentOk}

module _ {T F D C : Type 0} (fl : Float F) (calls : OemCalls T F D C)
    (o : IsOrder calls.le_time) where
  -- The loop's variables.
  record ReaderOk (r : Reader T F) : Type 0 where
    finished : All (SegmentOk calls.le_time) r.segments
    building : (b : SegmentBuilder T F) → r.current ≡ some b → BuilderOk calls.le_time b

  finish_current-IfOk :
      (current : Option (SegmentBuilder T F)) (segments : List (OemSegment T F))
      → All (SegmentOk calls.le_time) segments
      → ((b : SegmentBuilder T F) → current ≡ some b → BuilderOk calls.le_time b)
      → IfOk (All (SegmentOk calls.le_time)) (finish_current fl calls current segments)
  finish_current-IfOk none segments a v = IfOk-ok _ _ a
  finish_current-IfOk (some b) segments a v =
      IfOk-bind (All (SegmentOk calls.le_time)) (finish fl calls (length segments + 1) b) _ λ s e.
        IfOk-ok _ _ (
          All-append (SegmentOk calls.le_time) segments (s ∷ []) a
            ((finish-SegmentOk fl calls o (length segments + 1) b (v b refl)).holds s e, tt))

  meta_start-ReaderOk : (r : Reader T F) → ReaderOk r → IfOk ReaderOk (meta_start fl calls r)
  meta_start-ReaderOk r v =
      IfOk-bind ReaderOk (finish_current fl calls r.current r.segments) _ λ segments e.
        IfOk-ok ReaderOk _ (record {
          finished =
              (finish_current-IfOk r.current r.segments v.finished v.building).holds segments e;
          building = λ b h. absurd (none-some h);
        })

  meta_stop-ReaderOk :
      (line : ℕ) (r : Reader T F) → ReaderOk r → IfOk ReaderOk (meta_stop fl calls line r)
  meta_stop-ReaderOk line r v = IfOk-bind ReaderOk (ok_or r.meta (syntax line)) _ λ m _.
      IfOk-bind ReaderOk (from_meta fl calls m (length r.segments + 1)) _ λ b e.
        IfOk-ok ReaderOk _ (record {
          finished = v.finished;
          building = λ b' h.
              subst (BuilderOk calls.le_time) (some-inj h)
                ((from_meta-BuilderOk fl calls m (length r.segments + 1)).holds b e);
        })

  content-ReaderOk :
      (line : ℕ) (text : Text) (meta : Option Meta) (current : Option (SegmentBuilder T F))
      (r : Reader T F)
      → r.current ≡ current
      → ReaderOk r
      → IfOk ReaderOk (content fl calls line text meta current r)
  content-ReaderOk line text (some m) current r same v =
      IfOk-bind ReaderOk (ok_or (kvn text) (syntax line)) _
        λ kv _. IfOk-ok ReaderOk _ (record { finished = v.finished; building = v.building })
  content-ReaderOk line text none (some b) r same v =
      IfOk-bind ReaderOk (push_data fl calls line text b) _ λ b' e. IfOk-ok ReaderOk _ (record {
        finished = v.finished;
        building = λ c h.
            subst (BuilderOk calls.le_time) (some-inj h)
              ((push_data-BuilderOk fl calls line text b (v.building b same)).holds b' e);
      })
  content-ReaderOk line text none none r same v =
      IfOk-bind ReaderOk (ok_or (kvn text) (syntax line)) _ λ _ _. IfOk-ok ReaderOk r v

  with_covariance :
      (r : Reader T F) (c : Bool) → ReaderOk r → ReaderOk (record r { in_covariance = c })
  with_covariance r c v = record { finished = v.finished; building = v.building }

  read_line-ReaderOk :
      (line : ℕ) (text : Text) (r : Reader T F)
      → ReaderOk r
      → IfOk ReaderOk (read_line fl calls line text r)
  unfolding read_line
  read_line-ReaderOk line text r v =
      IfOk-if ReaderOk r.in_covariance _ _ (IfOk-ok ReaderOk _ (with_covariance r _ v)) (
        IfOk-if ReaderOk (text_eq text (codes "META_START")) _ _ (meta_start-ReaderOk r v) (
          IfOk-if ReaderOk (text_eq text (codes "META_STOP")) _ _ (meta_stop-ReaderOk line r v) (
            IfOk-if ReaderOk (text_eq text (codes "COVARIANCE_START")) _ _
              (IfOk-ok ReaderOk _ (with_covariance r true v))
              (content-ReaderOk line text r.meta r.current r refl v))))

  fresh-ReaderOk : ReaderOk fresh_reader
  fresh-ReaderOk = record { finished = tt; building = λ b h. absurd (none-some h) }

  read_lines-ReaderOk :
      (ls : List (ℕ × Text)) (r : Reader T F)
      → ReaderOk r
      → IfOk ReaderOk (read_lines fl calls ls r)
  unfolding read_lines
  read_lines-ReaderOk [] r v = IfOk-ok ReaderOk r v
  read_lines-ReaderOk ((line, text) ∷ ls) r v =
      IfOk-bind ReaderOk (read_line fl calls line text r) _
        λ r' e. read_lines-ReaderOk ls r' ((read_line-ReaderOk line text r v).holds r' e)

  some_segments :
      (segments : List (OemSegment T F))
      → All (SegmentOk calls.le_time) segments
      → IfOk {E = OemError T}
          (EphemerisOk calls.le_time)
          (if is_empty_list segments then err empty else ok (record { segments = segments }))
  some_segments [] a = IfOk-err (EphemerisOk calls.le_time) empty
  some_segments (s ∷ segments) a =
      IfOk-ok (EphemerisOk calls.le_time) (record { segments = s ∷ segments }) (λ e. cc, a)

  end_of_text-EphemerisOk :
      (count : ℕ) (r : Reader T F)
      → ReaderOk r
      → IfOk (EphemerisOk calls.le_time) (end_of_text fl calls count r)
  unfolding end_of_text
  end_of_text-EphemerisOk count r v =
      IfOk-bind (EphemerisOk calls.le_time) (no_meta_open fl calls count r.meta) _ λ _ _.
        IfOk-bind (EphemerisOk calls.le_time) (finish_current fl calls r.current r.segments) _
          λ segments e.
            some_segments segments
              ((finish_current-IfOk r.current r.segments v.finished v.building).holds segments e)

  numbered_ok :
      (count : ℕ) (ls : List (ℕ × Text))
      → IfOk (EphemerisOk calls.le_time) (parse_numbered fl calls count ls)
  numbered_ok count [] = IfOk-err (EphemerisOk calls.le_time) not_oem
  numbered_ok count ((n, first) ∷ ls) =
      IfOk-bind (EphemerisOk calls.le_time) (reject_if (not (is_version fl calls first)) not_oem) _
        λ _ _. IfOk-bind (EphemerisOk calls.le_time) (read_lines fl calls ls fresh_reader) _ λ r e.
          end_of_text-EphemerisOk count r
            ((read_lines-ReaderOk ls fresh_reader fresh-ReaderOk).holds r e)

  -- Under a total order of the instants, an ephemeris that the parser accepts, whatever the text,
  -- has a segment, and every segment is well formed: at least two states with increasing epochs, a
  -- degree from 1 to 15, and a window of use that is not empty and lies inside its epochs.
  pub parse-EphemerisOk :
      (text : Text) {eph : OemEphemeris T F}
      → parse fl calls text ≡ ok eph
      → EphemerisOk calls.le_time eph
  unfolding parse
  parse-EphemerisOk text {eph} e =
      (numbered_ok (length (lines text)) (numbered 0 (lines text))).holds eph e
