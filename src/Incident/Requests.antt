-- ===== src/Incident/Requests.antt =====
-- The requests of internal/incidentapi/types.go. A pointer or a map that may be nil is an
-- `Option`; an `int` or `int64` is a ℤ, in the range that the decoder accepts.
use graph_ops.Base.{String, Option}
use graph_ops.Base.Int.{ℤ}
use graph_ops.Base.Map.{Map}
use graph_ops.Base.Slice.{Slice}
use graph_ops.Base.Value.{Json}
use graph_ops.Incident.Types.{IncidentContext, Evidence, Hypothesis, ActionPlan, FinalReport}

pub record CreateIncidentRequest : Type 0 where
  pub service_name : String
  pub severity : String
  pub alert_summary : String
  pub playbook_key : String
  pub context : Option IncidentContext

pub record ListIncidentsRequest : Type 0 where
  pub service_name : String
  pub status : String
  pub limit : ℤ

pub record ReviewIncidentRequest : Type 0 where
  pub reviewer : String
  pub comment : String

pub record UpsertAnalysisRequest : Type 0 where
  pub evidence : Slice Evidence
  pub hypotheses : Slice Hypothesis
  pub proposed_action : Option ActionPlan

pub record UpsertReportRequest : Type 0 where
  pub report : Option FinalReport

pub record RecordIncidentEventRequest : Type 0 where
  pub event_type : String
  pub actor_type : String
  pub actor_name : String
  pub payload : Option (Map Json)

pub record RecordAgentRunRequest : Type 0 where
  pub node_name : String
  pub model_name : String
  pub prompt_version : String
  pub input : Option (Map Json)
  pub output : Option (Map Json)
  pub latency_ms : ℤ
  pub status : String
  pub checkpoint_id : String
