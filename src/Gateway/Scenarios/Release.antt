-- ===== src/Gateway/Scenarios/Release.antt =====
-- internal/opsgateway/mockdata.go: `releaseRegressionScenario`.
mod Checks
mod Metrics
mod Findings
mod Items
use graph_ops.Base.{ℕ, zero, suc, String, List, [], ◌∷◌, ◌++◌}
use graph_ops.Base.Decimal.{padded}
use graph_ops.Base.Int.{pos}
use graph_ops.Base.Slice.{slice}
use graph_ops.Gateway.Types.{ScenarioData, VerificationResult}
use graph_ops.Gateway.Scenarios.Parts.{Arithmetic, bits}
use Checks.{before_checks, after_checks}
use Metrics.{release_baseline_metrics, alert_window_metrics, after_rollback_metrics}
use Findings.{release_comparisons, anomalies}
use Items.{change_items, log_items, dependency_items}
use Prim.Native.String.{◌++◌ as concat}

-- `suffix`: empty for the index 0.
unfoldable pub suffix_of : ℕ → String
suffix_of zero = ""
suffix_of (suc n) = concat "-" (padded 2 (suc n))

module _ (arithmetic : Arithmetic) where
  abbrev pub verification_before : VerificationResult
  verification_before = record {
    status = "not_recovered";
    error_rate = bits 4623170197477182669;
    p95_latency_ms = pos 980;
    window_minutes = pos 10;
    query_refs = slice ("promql:error_rate:order-api" ∷ "promql:p95_latency:order-api" ∷ []);
    signal_checks = slice before_checks;
    metrics = slice (release_baseline_metrics ++ alert_window_metrics);
    release_comparisons = slice (release_comparisons arithmetic);
    anomalies = slice anomalies;
    decision_basis =
        "0 of 2 recovery signals passed before rollback, and multiple user-impacting service metrics remain abnormal.";
    summary =
        "5xx, timeout rate, latency, GC pause, and slow query indicators are all above threshold before rollback.";
  }

  abbrev pub verification_after : VerificationResult
  verification_after = record {
    status = "recovered";
    error_rate = bits 4599075939470750515;
    p95_latency_ms = pos 118;
    window_minutes = pos 10;
    query_refs = slice ("promql:error_rate:order-api" ∷ "promql:p95_latency:order-api" ∷ []);
    signal_checks = slice after_checks;
    metrics = slice (release_baseline_metrics ++ alert_window_metrics ++ after_rollback_metrics);
    release_comparisons = slice (release_comparisons arithmetic);
    anomalies = slice anomalies;
    decision_basis =
        "2 of 2 recovery signals passed after rollback, and all tracked user, service, and storage indicators returned under threshold.";
    summary = "Historical anomalies during the alert window were mitigated after rollback.";
  }

  unfoldable pub release_regression_scenario : ℕ → ScenarioData
  unfolding suffix_of
  release_regression_scenario index =
      let suffix = suffix_of index in
      record {
        current_revision = concat "order-api@2026.04.17-0155" suffix;
        target_revision = concat "order-api@2026.04.17-0142" suffix;
        change_items = slice (change_items suffix);
        log_items = slice (log_items suffix);
        dependency_items = slice (dependency_items suffix);
        verification_before = verification_before;
        verification_after = verification_after;
      }
