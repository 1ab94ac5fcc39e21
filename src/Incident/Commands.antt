-- ===== src/Incident/Commands.antt =====
-- The writing calls of internal/incidentapi/store.go as commands, and runs of them: what a server
-- with any number of clients does to its store, in the order in which the mutex lets the calls in.
use graph_ops.Base.{String, List, [], ◌∷◌}
use graph_ops.Base.Value.{Clock}
use graph_ops.Incident.Requests.{
  CreateIncidentRequest, ReviewIncidentRequest, UpsertAnalysisRequest, UpsertReportRequest,
  RecordIncidentEventRequest, RecordAgentRunRequest,
}
use graph_ops.Incident.Store.{
  MemoryStore, create_incident, save_analysis, save_report, review_incident, record_event,
  record_agent_run,
}

-- What `handleApproveIncident` and `handleRejectIncident` pass to `ReviewIncident`.
pub data Decision : Type 0 where
  approve reject : Decision

abbrev pub decision_status : Decision → String
decision_status approve = "approved"
decision_status reject = "rejected"

pub data Command : Type 0 where
  create : CreateIncidentRequest → Command
  analyse : String → UpsertAnalysisRequest → Command
  report : String → UpsertReportRequest → Command
  review : String → Decision → ReviewIncidentRequest → Command
  event : String → RecordIncidentEventRequest → Command
  agent_run : String → RecordAgentRunRequest → Command

unfoldable pub execute_command : Command → Clock → MemoryStore → MemoryStore
execute_command (create req) clock s = (create_incident req clock s).1
execute_command (analyse id req) clock s = (save_analysis id req clock s).1
execute_command (report id req) clock s = (save_report id req clock s).1
execute_command (review id d req) clock s = (review_incident id (decision_status d) req clock s).1
execute_command (event id req) clock s = (record_event id req clock s).1
execute_command (agent_run id req) clock s = (record_agent_run id req clock s).1

unfoldable pub run_commands : List (Command × Clock) → MemoryStore → MemoryStore
run_commands [] s = s
run_commands ((c, clock) ∷ rest) s = run_commands rest (execute_command c clock s)
