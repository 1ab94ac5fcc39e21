-- ===== src/Incident/Repository.antt =====
-- internal/incidentapi/repository.go: what the server needs of a store. `S` is the store's state;
-- an operation that writes returns the state that it leaves, also beside an error.
use graph_ops.Base.{String}
use graph_ops.Base.Result.{Result}
use graph_ops.Base.Slice.{Slice}
use graph_ops.Base.Value.{Clock}
use graph_ops.Incident.Types.{Incident, IncidentEvent, AgentRun}
use graph_ops.Incident.Requests.{
  CreateIncidentRequest, ListIncidentsRequest, ReviewIncidentRequest, UpsertAnalysisRequest,
  UpsertReportRequest, RecordIncidentEventRequest, RecordAgentRunRequest,
}

-- `errIncidentNotFound`, or an error with another text.
pub data StoreError : Type 0 where
  incident_not_found : StoreError
  failed : String → StoreError

abbrev pub Outcome : Type 0 → Type 0
Outcome A = Result StoreError A

pub record Repository (S : Type 0) : Type 0 where
  pub create_incident : CreateIncidentRequest → Clock → S → Outcome Incident × S
  pub get_incident : String → S → Outcome Incident
  pub list_incidents : ListIncidentsRequest → S → Outcome (Slice Incident)
  pub list_events : String → S → Outcome (Slice IncidentEvent)
  pub list_agent_runs : String → S → Outcome (Slice AgentRun)
  pub save_analysis : String → UpsertAnalysisRequest → Clock → S → Outcome Incident × S
  pub save_report : String → UpsertReportRequest → Clock → S → Outcome Incident × S
  pub review_incident : String → String → ReviewIncidentRequest → Clock → S → Outcome Incident × S
  pub record_event : String → RecordIncidentEventRequest → Clock → S → Outcome (Unit {0}) × S
  pub record_agent_run : String → RecordAgentRunRequest → Clock → S → Outcome (Unit {0}) × S
