-- ===== src/Incident/Types.antt =====
-- The data of internal/incidentapi/types.go. A pointer or a map that may be nil is an
-- `Option`; an `int` or `int64` is a ℤ, in the range that the decoder accepts.
use mathlib.Core.Bool.{Bool}
use graph_ops.Base.{String, Option}
use graph_ops.Base.Int.{ℤ}
use graph_ops.Base.Map.{Map}
use graph_ops.Base.Slice.{Slice}
use graph_ops.Base.Value.{Float64, Time, Json}

pub record IncidentContext : Type 0 where
  pub cluster : String
  pub namespace : String
  pub environment : String
  pub alert_name : String
  pub alert_started_at : Time
  pub release_id : String
  pub release_version : String
  pub previous_version : String
  pub labels : Option (Map String)

pub record VerificationPolicy : Type 0 where
  pub window_minutes : ℤ
  pub max_error_rate : Float64
  pub max_p95_latency_ms : ℤ
  pub minimum_passing_signals : ℤ

pub record Evidence : Type 0 where
  pub evidence_id : String
  pub source_type : String
  pub source_ref : String
  pub summary : String
  pub confidence : Float64

pub record Hypothesis : Type 0 where
  pub hypothesis_id : String
  pub cause : String
  pub support_evidence_ids : Slice String
  pub confidence : Float64

pub record ActionPlan : Type 0 where
  pub action_type : String
  pub target_service : String
  pub current_revision : String
  pub target_revision : String
  pub reason : String
  pub risk_level : String
  pub evidence_ids : Slice String
  pub verification_policy : Option VerificationPolicy
  pub requires_approval : Bool

pub record AnalysisSnapshot : Type 0 where
  pub evidence : Slice Evidence
  pub hypotheses : Slice Hypothesis
  pub proposed_action : Option ActionPlan

pub record ApprovalDecision : Type 0 where
  pub status : String
  pub reviewer : String
  pub comment : String
  pub updated_at : Time

pub record ActionReceipt : Type 0 where
  pub receipt_id : String
  pub idempotency_key : String
  pub action_type : String
  pub target_service : String
  pub executor : String
  pub from_revision : String
  pub to_revision : String
  pub status : String
  pub status_detail : String
  pub executed_at : Time
  pub verification_status : String

pub record MetricObservation : Type 0 where
  pub key : String
  pub display_name : String
  pub phase : String
  pub value : Float64
  pub unit : String
  pub threshold : String
  pub abnormal : Bool
  pub source_mode : String
  pub summary : String

pub record MetricComparison : Type 0 where
  pub key : String
  pub display_name : String
  pub before_value : Float64
  pub after_value : Float64
  pub delta_value : Float64
  pub delta_ratio : Float64
  pub unit : String
  pub summary : String

pub record AnomalyFinding : Type 0 where
  pub metric_key : String
  pub severity : String
  pub description : String
  pub handling_suggestion : String
  pub source_mode : String

pub record FinalReport : Type 0 where
  pub summary : String
  pub root_cause : String
  pub recommended_action : String
  pub verification : String
  pub anomaly_summary : Slice String
  pub handling_suggestions : Slice String
  pub metrics : Slice MetricObservation
  pub release_comparisons : Slice MetricComparison
  pub anomalies : Slice AnomalyFinding
  pub action_receipt : Option ActionReceipt
  pub generated_at : Time

pub record Incident : Type 0 where
  pub id : String
  pub service_name : String
  pub severity : String
  pub alert_summary : String
  pub playbook_key : String
  pub context : Option IncidentContext
  pub status : String
  pub approval : Option ApprovalDecision
  pub analysis : Option AnalysisSnapshot
  pub report : Option FinalReport
  pub created_at : Time
  pub updated_at : Time

pub record IncidentEvent : Type 0 where
  pub id : ℤ
  pub incident_id : String
  pub event_type : String
  pub actor_type : String
  pub actor_name : String
  pub payload : Option (Map Json)
  pub created_at : Time

pub record AgentRun : Type 0 where
  pub id : ℤ
  pub incident_id : String
  pub node_name : String
  pub model_name : String
  pub prompt_version : String
  pub input : Option (Map Json)
  pub output : Option (Map Json)
  pub latency_ms : ℤ
  pub status : String
  pub checkpoint_id : String
  pub created_at : Time
