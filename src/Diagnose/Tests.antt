-- ===== src/Diagnose/Tests.antt =====
-- Runs of the health report of crates/gateway/src/diagnose.rs on small counters.
use chronus_gateway.Prelude.{◌≡◌, refl, true, [], ◌∷◌, ◌++◌}
use chronus_gateway.Frames.Snapshot.{FramingSnapshot, tm_frames_label}
use chronus_gateway.History.Snapshot.{HistorySnapshot}
use chronus_gateway.Rf.Build.{RfSnapshot}
use chronus_gateway.Gateway.{no_metrics}
use chronus_gateway.Diagnose.{
  info, warning, error, diagnosis, problem, HealthInputs, sort, health_findings, assess_health,
  assess_rf, assess_framing, assess_history, with_extra_findings, health_report,
}
use chronus_gateway.Diagnose.Verdict.{Judges, health_report-Judges}
use chronus_gateway.Diagnose.Problem.{is_problem, is_problem-health_report}

abbrev quiet_inputs : HealthInputs
quiet_inputs = record {
  ingest = record {
    frames_received = 20;
    bytes_received = 900;
    oversized_dropped = 0;
    recv_errors = 1;
  };
  gateway = record no_metrics { telemetry_frames_emitted = 12; ws_clients_connected = 1 };
  tracking_enabled = true;
}

abbrev rf : RfSnapshot
rf = record {
  enabled = true;
  samples_received = 0;
  samples_invalid = 0;
  samples_evicted = 0;
  frames_matched = 0;
  frames_unmatched = 12;
}

-- Transfer frames arrive, and all fail their CRC.
abbrev framing : FramingSnapshot
framing = record {
  mode = tm_frames_label;
  datagrams = 20;
  frames_ok = 0;
  frames_crc_error = 20;
  frames_invalid = 0;
  frames_other_spacecraft = 0;
  frames_vc_filtered = 0;
  frames_idle = 0;
  vc_frame_gaps = 0;
  mc_frame_gaps = 0;
  packets_extracted = 0;
  packets_idle = 0;
  packets_dropped = 0;
  bytes_discarded = 0;
}

abbrev history : HistorySnapshot
history = record {
  enabled = true;
  persistent = true;
  capacity = 10;
  len = 10;
  recorded = 12;
  evicted = 2;
  loaded = 0;
  load_skipped = 3;
  persisted = 12;
  persist_dropped = 0;
  persist_errors = 0;
}

reported : health_report quiet_inputs rf framing history ≡ record {
  status = problem;
  findings =
      diagnosis 513 error ∷ diagnosis 505 warning ∷ diagnosis 511 warning ∷ diagnosis 514 info ∷ [];
}
unfolding health_report with_extra_findings assess_health assess_rf assess_framing assess_history
    health_findings sort
reported = refl

health_report-Judges_example :
    Judges
      (health_report quiet_inputs rf framing history)
      (((health_findings quiet_inputs ++ assess_rf rf 20) ++ assess_framing framing)
        ++ assess_history history)
      20
health_report-Judges_example = health_report-Judges quiet_inputs rf framing history

is_problem-health_report_example :
    is_problem (health_report quiet_inputs rf framing history).status ≡ true
is_problem-health_report_example = is_problem-health_report quiet_inputs rf framing history
