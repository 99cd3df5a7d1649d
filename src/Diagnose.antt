-- ===== src/Diagnose.antt =====
-- The runtime health of crates/gateway/src/diagnose.rs: `assess_health`, `assess_rf`,
-- `assess_framing`, `assess_history` and `HealthReport::with_extra_findings`. Of a diagnosis its
-- code, as a number, and its severity are modelled; the texts are left out. Sums and products of
-- counters wrap at 2^64.
pub mod Order
pub mod Verdict
pub mod Problem
pub mod Tests
use chronus_gateway.Prelude.{
  ℕ, zero, suc, ◌+◌, ◌*◌, ◌%◌, ◌^◌, max, Bool, true, false, not, ◌&&◌, ◌||◌, Option, none, some,
  List, [], ◌∷◌, ◌++◌, ltb, leb, ◌==◌, if◌then◌else◌,
}
use chronus_gateway.Frames.Snapshot.{FramingSnapshot, Label, packets_label, tm_frames_label}
use chronus_gateway.Frames.Snapshot
use chronus_gateway.History.Snapshot.{HistorySnapshot}
use chronus_gateway.Rf.Build.{RfSnapshot}
use chronus_gateway.Ingest.{IngestSnapshot}
use chronus_gateway.Gateway.{GatewayMetrics}

pub data Severity : Type 0 where
  info : Severity
  warning : Severity
  error : Severity

pub record Diagnosis : Type 0 where
  pub code : ℕ
  pub severity : Severity

-- `Diagnosis::new`.
abbrev pub diagnosis : ℕ → Severity → Diagnosis
diagnosis code severity = record { code = code; severity = severity }

abbrev pub is_fatal : Diagnosis → Bool
is_fatal d = elim d.severity [ error ↦ true | _ ↦ false ]

-- `Ok` is `all_ok` here.
pub data OverallStatus : Type 0 where
  all_ok : OverallStatus
  waiting : OverallStatus
  attention : OverallStatus
  problem : OverallStatus

pub record HealthReport : Type 0 where
  pub status : OverallStatus
  pub findings : List Diagnosis

-- Without the addresses, which only the texts name.
pub record HealthInputs : Type 0 where
  pub ingest : IngestSnapshot
  pub gateway : GatewayMetrics
  pub tracking_enabled : Bool

-- The order of the severities.
abbrev pub rank : Severity → ℕ
rank info = 0
rank warning = 1
rank error = 2

abbrev pub of_rank : ℕ → Severity
of_rank zero = info
of_rank (suc zero) = warning
of_rank (suc (suc _)) = error

-- `iter().map(|d| d.severity).max()`, by the ranks.
abbrev pub greatest : List Diagnosis → ℕ
greatest [] = 0
greatest (d ∷ ds) = max (rank d.severity) (greatest ds)

abbrev pub worst : List Diagnosis → Option Severity
worst [] = none
worst (d ∷ ds) = some (of_rank (greatest (d ∷ ds)))

-- `sort_by_key(|d| Reverse(d.severity))`, which is stable.
abbrev pub insert : Diagnosis → List Diagnosis → List Diagnosis
insert d [] = d ∷ []
insert d (e ∷ es) =
    let rest = insert d es in
    if ltb (rank d.severity) (rank e.severity) then e ∷ rest else d ∷ e ∷ es

unfoldable pub sort : List Diagnosis → List Diagnosis
sort [] = []
sort (d ∷ ds) = insert d (sort ds)

abbrev pub add_u64 : ℕ → ℕ → ℕ
add_u64 a b = (a + b) % 2 ^ 64

abbrev pub mul_u64 : ℕ → ℕ → ℕ
mul_u64 a b = a * b % 2 ^ 64

-- `if test { findings.push(…) }`
abbrev pub raise_if : Bool → ℕ → Severity → List Diagnosis
raise_if test code severity = if test then diagnosis code severity ∷ [] else []

-- The findings of `assess_health`, in the order in which they are pushed.
unfoldable pub health_findings : HealthInputs → List Diagnosis
health_findings inputs =
    let ing = inputs.ingest in
    let gw = inputs.gateway in
    let parse_errors = gw.telemetry_parse_errors in
    let emitted = gw.telemetry_frames_emitted in
    raise_if (ing.frames_received == 0) 501 info
    ++ (if ltb 0 parse_errors && emitted == 0
        then diagnosis 502 error ∷ []
        else raise_if
            (ltb 0 parse_errors && ltb (add_u64 parse_errors emitted) (mul_u64 parse_errors 10)) 503
            warning)
    ++ raise_if (ltb 0 ing.oversized_dropped) 504 warning
    ++ raise_if (ltb 0 ing.recv_errors) 505 warning
    ++ (if not inputs.tracking_enabled
        then diagnosis 506 warning ∷ []
        else raise_if (ltb 0 gw.tracking_errors) 507 warning)
    ++ raise_if (leb 10 emitted && ltb emitted (mul_u64 gw.anomaly_frames 2)) 508 warning
    ++ raise_if (ltb 0 ing.frames_received && gw.ws_clients_connected == 0) 509 info
    ++ raise_if (ltb 0 gw.serialize_errors) 510 error

-- The match on the worst severity.
abbrev pub verdict : Option Severity → ℕ → OverallStatus
verdict (some error) frames_received = problem
verdict (some warning) frames_received = attention
verdict _ frames_received = if frames_received == 0 then waiting else all_ok

unfoldable pub assess_health : HealthInputs → HealthReport
assess_health inputs =
    let findings = sort (health_findings inputs) in
    record { status = verdict (worst findings) inputs.ingest.frames_received; findings = findings }

unfoldable pub assess_rf : RfSnapshot → ℕ → List Diagnosis
assess_rf rf frames_received =
    if not rf.enabled
    then []
    else raise_if (ltb 0 rf.samples_invalid) 512 warning
      ++ (if ltb 0 frames_received && rf.samples_received == 0
          then diagnosis 511 warning ∷ []
          else raise_if (leb 10 rf.frames_unmatched && ltb rf.frames_matched rf.frames_unmatched)
              511 warning)

abbrev pub is_tm_frames : Label → Bool
is_tm_frames tm_frames_label = true
is_tm_frames packets_label = false

unfoldable pub assess_framing : FramingSnapshot → List Diagnosis
assess_framing f =
    let bad = add_u64 f.frames_crc_error f.frames_invalid in
    let total = add_u64 (add_u64 f.frames_ok f.frames_crc_error) f.frames_invalid in
    if not (is_tm_frames f.mode) || f.datagrams == 0
    then []
    else if f.frames_ok == 0
    then diagnosis 513 error ∷ []
    else raise_if (ltb total (mul_u64 bad 10)) 513 warning
      ++ raise_if (ltb 0 f.vc_frame_gaps) 513 info

unfoldable pub assess_history : HistorySnapshot → List Diagnosis
assess_history h =
    raise_if (ltb 0 h.persist_errors || ltb 0 h.persist_dropped) 514 warning
    ++ raise_if (ltb 0 h.load_skipped) 514 info

-- The match on the worst severity of the extra findings.
abbrev pub worsen : Option Severity → OverallStatus → OverallStatus
worsen (some error) status = problem
worsen (some warning) all_ok = attention
worsen (some warning) waiting = attention
worsen _ status = status

abbrev pub merge : List Diagnosis → HealthReport → HealthReport
merge extra report = record {
  status = worsen (worst extra) report.status;
  findings = sort (report.findings ++ extra);
}

unfoldable pub with_extra_findings : List Diagnosis → HealthReport → HealthReport
with_extra_findings [] report = report
with_extra_findings (d ∷ extra) report = merge (d ∷ extra) report

-- `SharedGateway::health_report` of crates/gateway/src/state.rs, over the snapshots that it takes.
unfoldable pub health_report :
    HealthInputs → RfSnapshot → FramingSnapshot → HistorySnapshot → HealthReport
health_report inputs rf framing history = with_extra_findings (assess_history history) (
    with_extra_findings (assess_framing framing)
      (with_extra_findings (assess_rf rf inputs.ingest.frames_received) (assess_health inputs)))
