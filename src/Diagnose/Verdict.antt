-- ===== src/Diagnose/Verdict.antt =====
-- `HealthReport::with_extra_findings` of crates/gateway/src/diagnose.rs against a judgement of all
-- the findings at once.
use chronus_gateway.Prelude.{
  ℕ, zero, suc, ◌≤◌, ◌≡◌, refl, ap, sym, ◌∙◌, subst, max, some, List, [], ◌∷◌, ◌++◌, ◌==◌,
  if◌then◌else◌, arith, Bool-cases, inl, inr, append-nil,
}
use mathlib.Core.List.{Perm}
use mathlib.Core.List.Perm
use chronus_gateway.Frames.Snapshot.{FramingSnapshot}
use chronus_gateway.History.Snapshot.{HistorySnapshot}
use chronus_gateway.Rf.Build.{RfSnapshot}
use chronus_gateway.Diagnose.{
  Diagnosis, OverallStatus, all_ok, waiting, attention, problem, HealthReport, HealthInputs,
  of_rank, greatest, worst, sort, verdict, worsen, health_findings, assess_health, assess_rf,
  assess_framing, assess_history, merge, with_extra_findings, health_report,
}
use chronus_gateway.Diagnose.Order.{Sorted, sort-Sorted, sort-Perm, greatest-sort, greatest-append}

-- The status by the rank of the worst finding.
abbrev pub by_rank : ℕ → ℕ → OverallStatus
by_rank zero frames = if frames == 0 then waiting else all_ok
by_rank (suc zero) frames = attention
by_rank (suc (suc _)) frames = problem

verdict-of_rank : (n frames : ℕ) → verdict (some (of_rank n)) frames ≡ by_rank n frames
verdict-of_rank zero frames = refl
verdict-of_rank (suc zero) frames = refl
verdict-of_rank (suc (suc n)) frames = refl

pub verdict-worst :
    (ds : List Diagnosis) (frames : ℕ) → verdict (worst ds) frames ≡ by_rank (greatest ds) frames
verdict-worst [] frames = refl
verdict-worst (d ∷ ds) frames = verdict-of_rank (greatest (d ∷ ds)) frames

by_rank-problem : (n frames : ℕ) → 2 ≤ n → by_rank n frames ≡ problem
by_rank-problem zero frames h = absurd (omega arith)
by_rank-problem (suc zero) frames h = absurd (omega arith)
by_rank-problem (suc (suc n)) frames h = refl

worsen-by_rank :
    (n g frames : ℕ) → worsen (some (of_rank n)) (by_rank g frames) ≡ by_rank (max g n) frames
worsen-by_rank zero g frames = ap (λ m. by_rank m frames) (omega arith)
worsen-by_rank (suc zero) zero frames = elim (Bool-cases (frames == 0)) [
  | inl silent ↦ rw silent
  | inr heard ↦ rw heard
]
worsen-by_rank (suc zero) (suc zero) frames = refl
worsen-by_rank (suc zero) (suc (suc g)) frames =
    sym (by_rank-problem (max (suc (suc g)) 1) frames (omega arith))
worsen-by_rank (suc (suc n)) g frames =
    sym (by_rank-problem (max g (suc (suc n))) frames (omega arith))

-- A report that says of its findings, `raised` in some order, what there is to say: the most severe
-- first, and the status of the worst of them.
pub record Judges (report : HealthReport) (raised : List Diagnosis) (frames : ℕ) : Type 0 where
  pub complete : Perm report.findings raised
  pub sorted : Sorted report.findings
  pub top : greatest report.findings ≡ greatest raised
  pub judged : report.status ≡ verdict (worst report.findings) frames

assess_health-Judges :
    (inputs : HealthInputs)
    → Judges (assess_health inputs) (health_findings inputs) inputs.ingest.frames_received
unfolding assess_health
assess_health-Judges inputs = record {
  complete = sort-Perm (health_findings inputs);
  sorted = sort-Sorted (health_findings inputs);
  top = greatest-sort (health_findings inputs);
  judged = refl;
}

merge-Judges :
    (extra : List Diagnosis) (d : Diagnosis) (report : HealthReport) (raised : List Diagnosis)
    (frames : ℕ)
    → Judges report raised frames
    → Judges (merge (d ∷ extra) report) (raised ++ d ∷ extra) frames
merge-Judges extra d report raised frames j =
    let new = d ∷ extra in
    let all = report.findings ++ new in
    let top : greatest (sort all) ≡ max (greatest report.findings) (greatest new) =
      greatest-sort all ∙ greatest-append report.findings new in
    record {
      complete = Perm.trans (sort-Perm all) (Perm.append_right new j.complete);
      sorted = sort-Sorted all;
      top = top ∙ ap (λ n. max n (greatest new)) j.top ∙ sym (greatest-append raised new);
      judged =
          ap (worsen (worst new)) (j.judged ∙ verdict-worst report.findings frames)
          ∙ worsen-by_rank (greatest new) (greatest report.findings) frames
          ∙ ap (λ n. by_rank n frames) (sym top)
          ∙ sym (verdict-worst (sort all) frames);
    }

with_extra_findings-Judges :
    (extra : List Diagnosis) (report : HealthReport) (raised : List Diagnosis) (frames : ℕ)
    → Judges report raised frames
    → Judges (with_extra_findings extra report) (raised ++ extra) frames
unfolding with_extra_findings
with_extra_findings-Judges [] report raised frames j =
    subst (λ ds. Judges report ds frames) (sym (append-nil raised)) j
with_extra_findings-Judges (d ∷ extra) report raised frames j =
    merge-Judges extra d report raised frames j

-- The health report, whatever the counters: its findings are those of the four assessments, none
-- lost and none made up, the most severe first, and its status is the one of the worst of them,
-- although the assessments are merged one after the other.
pub health_report-Judges :
    (inputs : HealthInputs) (rf : RfSnapshot) (framing : FramingSnapshot)
    (history : HistorySnapshot)
    → Judges
        (health_report inputs rf framing history)
        (((health_findings inputs ++ assess_rf rf inputs.ingest.frames_received)
            ++ assess_framing framing)
          ++ assess_history history)
        inputs.ingest.frames_received
unfolding health_report
health_report-Judges inputs rf framing history =
    let frames = inputs.ingest.frames_received in
    with_extra_findings-Judges (assess_history history) _ _ frames (
      with_extra_findings-Judges (assess_framing framing) _ _ frames
        (with_extra_findings-Judges (assess_rf rf frames) _ _ frames (assess_health-Judges inputs)))
