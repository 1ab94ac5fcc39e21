-- ===== src/Gateway/Types.antt =====
-- The data of internal/opsgateway/types.go. An `int` is a ℤ, a slice may be nil.
use mathlib.Core.Bool.{Bool}
use graph_ops.Base.{String}
use graph_ops.Base.Int.{ℤ}
use graph_ops.Base.Slice.{Slice}
use graph_ops.Base.Value.{Float64, Time}

pub record SignalCheck : Type 0 where
  pub name : String
  pub query_ref : String
  pub observed_value : Float64
  pub threshold : String
  pub passed : Bool
  pub summary : String

pub record MetricObservation : Type 0 where
  pub key : String
  pub display_name : String
  pub phase : String
  pub value : Float64
  pub unit : String
  pub threshold : String
  pub abnormal : Bool
  pub source_mode : String
  pub summary : String

pub record MetricComparison : Type 0 where
  pub key : String
  pub display_name : String
  pub before_value : Float64
  pub after_value : Float64
  pub delta_value : Float64
  pub delta_ratio : Float64
  pub unit : String
  pub summary : String

pub record AnomalyFinding : Type 0 where
  pub metric_key : String
  pub severity : String
  pub description : String
  pub handling_suggestion : String
  pub source_mode : String

pub record EvidenceItem : Type 0 where
  pub source_ref : String
  pub summary : String
  pub confidence : Float64

pub record QueryResponse : Type 0 where
  pub items : Slice EvidenceItem

pub record ActionReceipt : Type 0 where
  pub receipt_id : String
  pub idempotency_key : String
  pub action_type : String
  pub target_service : String
  pub executor : String
  pub from_revision : String
  pub to_revision : String
  pub status : String
  pub status_detail : String
  pub executed_at : Time
  pub verification_status : String

pub record RollbackResponse : Type 0 where
  pub receipt : ActionReceipt

pub record VerificationResult : Type 0 where
  pub status : String
  pub error_rate : Float64
  pub p95_latency_ms : ℤ
  pub window_minutes : ℤ
  pub query_refs : Slice String
  pub signal_checks : Slice SignalCheck
  pub metrics : Slice MetricObservation
  pub release_comparisons : Slice MetricComparison
  pub anomalies : Slice AnomalyFinding
  pub decision_basis : String
  pub summary : String

pub record ScenarioData : Type 0 where
  pub current_revision : String
  pub target_revision : String
  pub change_items : Slice EvidenceItem
  pub log_items : Slice EvidenceItem
  pub dependency_items : Slice EvidenceItem
  pub verification_before : VerificationResult
  pub verification_after : VerificationResult
