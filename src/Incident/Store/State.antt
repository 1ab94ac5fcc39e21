-- ===== src/Incident/Store/State.antt =====
-- internal/incidentapi/store.go: the state of `MemoryStore`, `CreateIncident` and `GetIncident`.
use Prim.Native.String.{◌++◌ as concat}
use graph_ops.Base.{ℕ, String, none, some}
use graph_ops.Base.Decimal.{padded, signed_decimal}
use graph_ops.Base.Int.{next_u64}
use graph_ops.Base.Map
use graph_ops.Base.Map.{Map, get, put}
use graph_ops.Base.Result.{ok, err}
use graph_ops.Base.Slice.{Slice}
use graph_ops.Base.Value.{Time, Clock, unix_nano}
use graph_ops.Incident.Types.{Incident, IncidentEvent, AgentRun}
use graph_ops.Incident.Requests.{CreateIncidentRequest}
use graph_ops.Incident.Clone.{clone_incident_context, clone_incident}
use graph_ops.Incident.Repository.{Outcome, incident_not_found}

pub record MemoryStore : Type 0 where
  pub seq : ℕ
  pub event_seq : ℕ
  pub agent_run_seq : ℕ
  pub incidents : Map Incident
  pub events_by_incident : Map (Slice IncidentEvent)
  pub agent_runs_by_incident : Map (Slice AgentRun)

abbrev pub new_memory_store : MemoryStore
new_memory_store = record {
  seq = 0;
  event_seq = 0;
  agent_run_seq = 0;
  incidents = Map.empty;
  events_by_incident = Map.empty;
  agent_runs_by_incident = Map.empty;
}

-- `fmt.Sprintf("inc-%d-%06d", now.UnixNano(), seq)`
unfoldable pub incident_id : Time → ℕ → String
incident_id now seq =
    concat (concat "inc-" (signed_decimal (unix_nano now))) (concat "-" (padded 6 seq))

unfoldable pub new_incident : String → CreateIncidentRequest → Time → Incident
new_incident id req now = record {
  id = id;
  service_name = req.service_name;
  severity = req.severity;
  alert_summary = req.alert_summary;
  playbook_key = req.playbook_key;
  context = clone_incident_context req.context;
  status = "created";
  approval = none;
  analysis = none;
  report = none;
  created_at = now;
  updated_at = now;
}

unfoldable pub create_incident :
    CreateIncidentRequest → Clock → MemoryStore → Outcome Incident × MemoryStore
create_incident req clock s =
    let now = clock 0 in
    let seq = next_u64 s.seq in
    let id = incident_id now seq in
    let incident = new_incident id req now in
    (ok (clone_incident incident), record s { seq = seq; incidents = put s.incidents id incident })

unfoldable pub get_incident : String → MemoryStore → Outcome Incident
get_incident id s = elim (get s.incidents id) [
  | none ↦ err incident_not_found
  | some incident ↦ ok (clone_incident incident)
]
