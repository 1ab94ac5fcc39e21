-- ===== src/Gateway/Scenarios/Downstream.antt =====
-- internal/opsgateway/mockdata.go: `downstreamInventoryScenario`.
mod Checks
mod Metrics
mod Findings
mod Items
use graph_ops.Base.{ℕ, zero, suc, String, List, [], ◌∷◌, ◌++◌}
use graph_ops.Base.Decimal.{padded}
use graph_ops.Base.Int.{pos}
use graph_ops.Base.Slice.{slice}
use graph_ops.Gateway.Types.{ScenarioData, VerificationResult}
use graph_ops.Gateway.Scenarios.Parts.{Arithmetic, bits}
use Checks.{before_checks, after_checks}
use Metrics.{release_baseline_metrics, alert_window_metrics, after_rollback_metrics}
use Findings.{release_comparisons, anomalies}
use Items.{change_items, log_items, dependency_items}
use Prim.Native.String.{◌++◌ as concat}

module _ (arithmetic : Arithmetic) where
  abbrev pub verification_before : VerificationResult
  verification_before = record {
    status = "not_recovered";
    error_rate = bits 4621087282649523814;
    p95_latency_ms = pos 840;
    window_minutes = pos 10;
    query_refs = slice ("promql:error_rate:order-api" ∷ "promql:p95_latency:order-api" ∷ []);
    signal_checks = slice before_checks;
    metrics = slice (release_baseline_metrics ++ alert_window_metrics);
    release_comparisons = slice (release_comparisons arithmetic);
    anomalies = slice anomalies;
    decision_basis =
        "0 of 2 recovery signals passed because the downstream dependency is still degraded, and user/service/middleware indicators remain abnormal.";
    summary =
        "Order-api remains degraded while inventory-service and its storage path are still unhealthy.";
  }

  abbrev pub verification_after : VerificationResult
  verification_after = record {
    status = "not_recovered";
    error_rate = bits 4620805807672813158;
    p95_latency_ms = pos 801;
    window_minutes = pos 10;
    query_refs = slice ("promql:error_rate:order-api" ∷ "promql:p95_latency:order-api" ∷ []);
    signal_checks = slice after_checks;
    metrics = slice (release_baseline_metrics ++ alert_window_metrics ++ after_rollback_metrics);
    release_comparisons = slice (release_comparisons arithmetic);
    anomalies = slice anomalies;
    decision_basis =
        "0 of 2 recovery signals passed after rollback because the downstream dependency, cache layer, and queue backlog are still unhealthy.";
    summary =
        "Rolling back order-api does not address the downstream fault owner or the remaining middleware pressure.";
  }

  unfoldable pub downstream_inventory_scenario : ScenarioData
  downstream_inventory_scenario = record {
    current_revision = "order-api@2026.04.16-2210";
    target_revision = "order-api@2026.04.16-2150";
    change_items = slice change_items;
    log_items = slice log_items;
    dependency_items = slice dependency_items;
    verification_before = verification_before;
    verification_after = verification_after;
  }
