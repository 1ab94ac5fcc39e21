-- ===== src/Gateway/Telemetry.antt =====
-- internal/opsgateway/telemetry.go. The metrics live in the Prometheus client; here they are the
-- updates that the gateway makes, in order. The histogram of call durations is left out.
use graph_ops.Base.{String, Bool, List, [], ◌∷◌, ◌++◌}
use graph_ops.Base.Slice.{items}
use graph_ops.Base.Value.{Float64}
use graph_ops.Gateway.Types.{MetricObservation, MetricComparison, VerificationResult}
use graph_ops.Gateway.Redis.{first_non_empty}

-- `rollbackRequestsTotal` and `recoveryVerificationTotal` count; the gauges are set. Labels come
-- first; `observation_abnormal` is set to 1 or 0.
pub data Sample : Type 0 where
  rollback_requests : (result : String) → Sample
  recovery_verification : (status : String) → Sample
  observation_value : (service metric phase source_mode unit : String) → Float64 → Sample
  observation_abnormal : (service metric phase source_mode : String) → Bool → Sample
  comparison_delta_value : (service metric unit : String) → Float64 → Sample
  comparison_delta_ratio : (service metric : String) → Float64 → Sample

observe_metrics : String → List MetricObservation → List Sample
observe_metrics service [] = []
observe_metrics service (item ∷ rest) =
    let mode = first_non_empty (item.source_mode ∷ "simulated" ∷ []) in
    observation_value service item.key item.phase mode item.unit item.value
    ∷ observation_abnormal service item.key item.phase mode item.abnormal
    ∷ observe_metrics service rest

observe_comparisons : String → List MetricComparison → List Sample
observe_comparisons service [] = []
observe_comparisons service (item ∷ rest) =
    comparison_delta_value service item.key item.unit item.delta_value
    ∷ comparison_delta_ratio service item.key item.delta_ratio
    ∷ observe_comparisons service rest

-- `recordVerificationSnapshot`.
unfoldable pub verification_snapshot : String → VerificationResult → List Sample
unfolding observe_metrics observe_comparisons
verification_snapshot service result =
    observe_metrics service (items result.metrics)
    ++ observe_comparisons service (items result.release_comparisons)
