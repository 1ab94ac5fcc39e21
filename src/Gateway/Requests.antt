-- ===== src/Gateway/Requests.antt =====
-- The requests of internal/opsgateway/types.go. A pointer or a map that may be nil is an `Option`.
use graph_ops.Base.{String, Option}
use graph_ops.Base.Int.{ℤ}
use graph_ops.Base.Map.{Map}
use graph_ops.Base.Value.{Float64, Time}

pub record IncidentContext : Type 0 where
  pub cluster : String
  pub namespace : String
  pub environment : String
  pub alert_name : String
  pub alert_started_at : Time
  pub release_id : String
  pub release_version : String
  pub previous_version : String
  pub labels : Option (Map String)

pub record VerificationPolicy : Type 0 where
  pub window_minutes : ℤ
  pub max_error_rate : Float64
  pub max_p95_latency_ms : ℤ
  pub minimum_passing_signals : ℤ

pub record QueryRequest : Type 0 where
  pub incident_id : String
  pub service_name : String
  pub playbook_key : String
  pub incident_context : Option IncidentContext
  pub time_window_minutes : ℤ

pub record RollbackRequest : Type 0 where
  pub incident_id : String
  pub playbook_key : String
  pub incident_context : Option IncidentContext
  pub target_service : String
  pub current_revision : String
  pub target_revision : String
  pub risk_level : String
  pub idempotency_key : String
  pub requested_by : String
  pub verification_policy : Option VerificationPolicy

pub record VerifyRequest : Type 0 where
  pub incident_id : String
  pub service_name : String
  pub playbook_key : String
  pub incident_context : Option IncidentContext
  pub verification_policy : Option VerificationPolicy
