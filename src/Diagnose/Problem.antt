-- ===== src/Diagnose/Problem.antt =====
-- When the health report of crates/gateway/src/diagnose.rs says `Problem`.
use chronus_gateway.Prelude.{
  ℕ, zero, suc, ◌≡◌, refl, ap, ap₂, sym, ◌∙◌, max, Bool, true, false, not, ◌&&◌, ◌||◌, List, [],
  ◌∷◌, ◌++◌, ltb, leb, ◌==◌, if◌then◌else◌, arith, Bool-cases, inl, inr,
}
use chronus_gateway.Frames.Snapshot.{FramingSnapshot}
use chronus_gateway.History.Snapshot.{HistorySnapshot}
use chronus_gateway.Rf.Build.{RfSnapshot}
use chronus_gateway.Diagnose.{
  Severity, info, warning, error, Diagnosis, diagnosis, is_fatal, rank, OverallStatus, problem,
  HealthReport, HealthInputs, greatest, add_u64, mul_u64, raise_if, health_findings, assess_rf,
  is_tm_frames, assess_framing, assess_history, health_report,
}
use chronus_gateway.Diagnose.Verdict.{by_rank, verdict-worst, Judges, health_report-Judges}

abbrev pub is_problem : OverallStatus → Bool
is_problem s = elim s [ problem ↦ true | _ ↦ false ]

abbrev pub has_error : List Diagnosis → Bool
has_error [] = false
has_error (d ∷ ds) = is_fatal d || has_error ds

fatal :
    (code : ℕ) (s : Severity) (n : ℕ)
    → (is_fatal (diagnosis code s) || leb 2 n) ≡ leb 2 (max (rank s) n)
fatal code info n = ap (leb 2) (omega arith)
fatal code warning n = ground arith
fatal code error n = ground arith

has_error-greatest : (ds : List Diagnosis) → has_error ds ≡ leb 2 (greatest ds)
has_error-greatest [] = refl
has_error-greatest (d ∷ ds) =
    ap (λ b. is_fatal d || b) (has_error-greatest ds) ∙ fatal d.code d.severity (greatest ds)

is_problem-by_rank : (n frames : ℕ) → is_problem (by_rank n frames) ≡ leb 2 n
is_problem-by_rank zero frames = elim (Bool-cases (frames == 0)) [
  | inl silent ↦ rw silent
  | inr heard ↦ rw heard
]
is_problem-by_rank (suc zero) frames = refl
is_problem-by_rank (suc (suc n)) frames = ground arith

or_assoc : (a b c : Bool) → (a || (b || c)) ≡ (a || b || c)
or_assoc true b c = refl
or_assoc false b c = refl

has_error_both : (ds es : List Diagnosis) → has_error (ds ++ es) ≡ (has_error ds || has_error es)
has_error_both [] es = refl
has_error_both (d ∷ ds) es =
    ap (λ b. is_fatal d || b) (has_error_both ds es)
    ∙ or_assoc (is_fatal d) (has_error ds) (has_error es)

has_error-append :
    {a b : Bool} (ds es : List Diagnosis)
    → has_error ds ≡ a
    → has_error es ≡ b
    → has_error (ds ++ es) ≡ (a || b)
has_error-append ds es p q = has_error_both ds es ∙ ap₂ ◌||◌ p q

or_false : (b : Bool) → (b || false) ≡ b
or_false true = refl
or_false false = refl

then_quiet :
    {a : Bool} (ds es : List Diagnosis)
    → has_error ds ≡ a
    → has_error es ≡ false
    → has_error (ds ++ es) ≡ a
then_quiet {a} ds es p q = has_error-append ds es p q ∙ or_false a

quiet : (test : Bool) (code : ℕ) → has_error (raise_if test code warning) ≡ false
quiet true code = refl
quiet false code = refl

quiet_info : (test : Bool) (code : ℕ) → has_error (raise_if test code info) ≡ false
quiet_info true code = refl
quiet_info false code = refl

loud : (test : Bool) (code : ℕ) → has_error (raise_if test code error) ≡ test
loud true code = refl
loud false code = refl

first_or :
    (b c : Bool) (code : ℕ)
    → has_error (if b then diagnosis code error ∷ [] else raise_if c 503 warning) ≡ b
first_or true c code = refl
first_or false c code = quiet c 503

warned :
    (b c : Bool) (code other : ℕ)
    → has_error (if b then diagnosis code warning ∷ [] else raise_if c other warning) ≡ false
warned true c code other = refl
warned false c code other = quiet c other

-- What `assess_health` calls an error.
abbrev pub is_health_error : HealthInputs → Bool
is_health_error inputs =
    let gw = inputs.gateway in
    (ltb 0 gw.telemetry_parse_errors && gw.telemetry_frames_emitted == 0)
    || ltb 0 gw.serialize_errors

-- What `assess_framing` calls an error.
abbrev pub is_framing_error : FramingSnapshot → Bool
is_framing_error f =
    if not (is_tm_frames f.mode) || f.datagrams == 0 then false else f.frames_ok == 0

has_error-health_findings :
    (inputs : HealthInputs) → has_error (health_findings inputs) ≡ is_health_error inputs
unfolding health_findings
has_error-health_findings inputs =
    let ing = inputs.ingest in
    let gw = inputs.gateway in
    let pe = gw.telemetry_parse_errors in
    let em = gw.telemetry_frames_emitted in
    let none_good : Bool = ltb 0 pe && em == 0 in
    let many : Bool = ltb 0 pe && ltb (add_u64 pe em) (mul_u64 pe 10) in
    let odd : Bool = leb 10 em && ltb em (mul_u64 gw.anomaly_frames 2) in
    let unseen : Bool = ltb 0 ing.frames_received && gw.ws_clients_connected == 0 in
    let l8 = raise_if (ltb 0 gw.serialize_errors) 510 error in
    let l7 = raise_if unseen 509 info in
    let l6 = raise_if odd 508 warning in
    let l5 =
      if not inputs.tracking_enabled
      then diagnosis 506 warning ∷ []
      else raise_if (ltb 0 gw.tracking_errors) 507 warning in
    let l4 = raise_if (ltb 0 ing.recv_errors) 505 warning in
    let l3 = raise_if (ltb 0 ing.oversized_dropped) 504 warning in
    let l2 = if none_good then diagnosis 502 error ∷ [] else raise_if many 503 warning in
    let l1 = raise_if (ing.frames_received == 0) 501 info in
    let begun : has_error (l1 ++ l2) ≡ none_good =
      has_error-append l1 l2 (quiet_info (ing.frames_received == 0) 501)
        (first_or none_good many 502) in
    has_error-append (l1 ++ l2 ++ l3 ++ l4 ++ l5 ++ l6 ++ l7) l8
      (then_quiet (l1 ++ l2 ++ l3 ++ l4 ++ l5 ++ l6) l7
        (then_quiet (l1 ++ l2 ++ l3 ++ l4 ++ l5) l6
          (then_quiet (l1 ++ l2 ++ l3 ++ l4) l5
            (then_quiet (l1 ++ l2 ++ l3) l4
              (then_quiet (l1 ++ l2) l3 begun (quiet (ltb 0 ing.oversized_dropped) 504))
              (quiet (ltb 0 ing.recv_errors) 505))
            (warned (not inputs.tracking_enabled) (ltb 0 gw.tracking_errors) 506 507))
          (quiet odd 508))
        (quiet_info unseen 509))
      (loud (ltb 0 gw.serialize_errors) 510)

has_error-assess_rf : (rf : RfSnapshot) (frames : ℕ) → has_error (assess_rf rf frames) ≡ false
unfolding assess_rf
has_error-assess_rf rf frames = elim (Bool-cases rf.enabled) [
  | inl on ↦ rw on (
      has_error-append (raise_if (ltb 0 rf.samples_invalid) 512 warning) _
        (quiet (ltb 0 rf.samples_invalid) 512)
        (warned (ltb 0 frames && rf.samples_received == 0)
          (leb 10 rf.frames_unmatched && ltb rf.frames_matched rf.frames_unmatched) 511 511))
  | inr off ↦ rw off
]

has_error-assess_framing : (f : FramingSnapshot) → has_error (assess_framing f) ≡ is_framing_error f
unfolding assess_framing
has_error-assess_framing f = elim (Bool-cases (not (is_tm_frames f.mode) || f.datagrams == 0)) [
  | inl none_seen ↦ rw none_seen
  | inr seen ↦ elim (Bool-cases (f.frames_ok == 0)) [
    | inl unusable ↦ rw (seen, unusable)
    | inr usable ↦
        let bad = add_u64 f.frames_crc_error f.frames_invalid in
        let total = add_u64 (add_u64 f.frames_ok f.frames_crc_error) f.frames_invalid in
        rw (seen, usable)
          (has_error-append (raise_if (ltb total (mul_u64 bad 10)) 513 warning)
            (raise_if (ltb 0 f.vc_frame_gaps) 513 info) (quiet (ltb total (mul_u64 bad 10)) 513)
            (quiet_info (ltb 0 f.vc_frame_gaps) 513))
  ]
]

has_error-assess_history : (h : HistorySnapshot) → has_error (assess_history h) ≡ false
unfolding assess_history
has_error-assess_history h =
    has_error-append (raise_if (ltb 0 h.persist_errors || ltb 0 h.persist_dropped) 514 warning)
      (raise_if (ltb 0 h.load_skipped) 514 info)
      (quiet (ltb 0 h.persist_errors || ltb 0 h.persist_dropped) 514)
      (quiet_info (ltb 0 h.load_skipped) 514)

is_problem-Judges :
    {report : HealthReport} {raised : List Diagnosis} {frames : ℕ}
    → Judges report raised frames
    → is_problem report.status ≡ has_error raised
is_problem-Judges {report} {raised} {frames} j =
    ap is_problem (j.judged ∙ verdict-worst report.findings frames)
    ∙ is_problem-by_rank (greatest report.findings) frames
    ∙ ap (leb 2) j.top
    ∙ sym (has_error-greatest raised)

-- The report says `Problem` exactly when packets arrive and none of them was good, a message could
-- not be serialized, or data arrive for the deframer and no transfer frame was ever good.
pub is_problem-health_report :
    (inputs : HealthInputs) (rf : RfSnapshot) (framing : FramingSnapshot)
    (history : HistorySnapshot)
    → is_problem (health_report inputs rf framing history).status
      ≡ (is_health_error inputs || is_framing_error framing)
is_problem-health_report inputs rf framing history =
    let frames = inputs.ingest.frames_received in
    is_problem-Judges (health_report-Judges inputs rf framing history)
    ∙ then_quiet ((health_findings inputs ++ assess_rf rf frames) ++ assess_framing framing)
        (assess_history history)
        (has_error-append (health_findings inputs ++ assess_rf rf frames) (assess_framing framing)
          (then_quiet (health_findings inputs) (assess_rf rf frames)
            (has_error-health_findings inputs) (has_error-assess_rf rf frames))
          (has_error-assess_framing framing))
        (has_error-assess_history history)
