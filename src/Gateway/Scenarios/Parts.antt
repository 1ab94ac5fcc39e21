-- ===== src/Gateway/Scenarios/Parts.antt =====
-- internal/opsgateway/mockdata.go: `metricObservation`, `metricComparison`, `anomalyFinding`.
-- Arithmetic on `float64` is that of the processor: it is a parameter, on the bits.
use graph_ops.Base.{ℕ, ◌*◌, String, Bool, if◌then◌else◌, eqb}
use graph_ops.Base.Value.{Float64}
use graph_ops.Gateway.Types.{MetricObservation, MetricComparison, AnomalyFinding}
use Prim.Native.Nat.{◌%◌}

abbrev pub bits : ℕ → Float64
bits n = record { bits = n }

pub record Arithmetic : Type 0 where
  pub sub : Float64 → Float64 → Float64
  pub mul : Float64 → Float64 → Float64
  pub div : Float64 → Float64 → Float64

-- `x == 0` holds of both zeros, whose bits differ in the sign alone.
abbrev is_zero : Float64 → Bool
is_zero x = eqb ((x.bits * 2) % 18446744073709551616) 0

abbrev pub metric_observation :
    String → String → String → Float64 → String → String → Bool → String → MetricObservation
metric_observation key display_name phase value unit threshold abnormal summary = record {
  key = key;
  display_name = display_name;
  phase = phase;
  value = value;
  unit = unit;
  threshold = threshold;
  abnormal = abnormal;
  source_mode = "simulated";
  summary = summary;
}

-- The ratio is in per cent; 100 is `bits 4636737291354636288`.
abbrev delta_ratio : Arithmetic → Float64 → Float64 → Float64
delta_ratio arithmetic before_value delta =
    if is_zero before_value
    then bits 0
    else arithmetic.mul (arithmetic.div delta before_value) (bits 4636737291354636288)

abbrev pub metric_comparison :
    Arithmetic → String → String → Float64 → Float64 → String → String → MetricComparison
metric_comparison arithmetic key display_name before_value after_value unit summary =
    let delta = arithmetic.sub after_value before_value in
    record {
      key = key;
      display_name = display_name;
      before_value = before_value;
      after_value = after_value;
      delta_value = delta;
      delta_ratio = delta_ratio arithmetic before_value delta;
      unit = unit;
      summary = summary;
    }

abbrev pub anomaly_finding : String → String → String → String → AnomalyFinding
anomaly_finding metric_key severity description handling_suggestion = record {
  metric_key = metric_key;
  severity = severity;
  description = description;
  handling_suggestion = handling_suggestion;
  source_mode = "simulated";
}
