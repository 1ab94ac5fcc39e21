-- ===== src/Incident/Api.antt =====
-- internal/incidentapi: the requests that write (`Routes` of server.go) and the memory store as the
-- repository of the server.
use graph_ops.Base.{String, List, [], ◌∷◌}
use graph_ops.Base.Value.{Clock}
use graph_ops.Incident.Types.{Incident}
use graph_ops.Incident.Requests.{
  CreateIncidentRequest, ReviewIncidentRequest, UpsertAnalysisRequest, UpsertReportRequest,
  RecordIncidentEventRequest, RecordAgentRunRequest,
}
use graph_ops.Incident.Repository.{Repository}
use graph_ops.Incident.Store.{
  MemoryStore, create_incident, get_incident, list_incidents, list_events, list_agent_runs,
  save_analysis, save_report, review_incident, record_event, record_agent_run,
}
use graph_ops.Incident.Server.{
  Response, Decoded, handle_create_incident, handle_approve_incident, handle_reject_incident,
  handle_save_analysis, handle_save_report, handle_record_event, handle_record_agent_run,
}

-- `MemoryStore` as a `Repository`; `range_order` is the order in which `range` visits a map.
abbrev pub memory_repository : (List Incident → List Incident) → Repository MemoryStore
memory_repository range_order = record {
  create_incident = create_incident;
  get_incident = get_incident;
  list_incidents = list_incidents range_order;
  list_events = list_events;
  list_agent_runs = list_agent_runs;
  save_analysis = save_analysis;
  save_report = save_report;
  review_incident = review_incident;
  record_event = record_event;
  record_agent_run = record_agent_run;
}

-- The requests that `Routes` passes to a handler that writes, with the body as it was decoded and
-- the incident's id where the path has one.
pub data Request : Type 0 where
  post_incident : Decoded CreateIncidentRequest → Request
  post_approve : String → Decoded ReviewIncidentRequest → Request
  post_reject : String → Decoded ReviewIncidentRequest → Request
  post_analysis : String → Decoded UpsertAnalysisRequest → Request
  post_report : String → Decoded UpsertReportRequest → Request
  post_event : String → Decoded RecordIncidentEventRequest → Request
  post_agent_run : String → Decoded RecordAgentRunRequest → Request

unfoldable pub serve : {S : Type 0} → Repository S → Request → Clock → S → Response × S
unfolding handle_approve_incident handle_reject_incident
serve store (post_incident body) clock s = handle_create_incident store body clock s
serve store (post_approve id body) clock s = handle_approve_incident store id body clock s
serve store (post_reject id body) clock s = handle_reject_incident store id body clock s
serve store (post_analysis id body) clock s = handle_save_analysis store id body clock s
serve store (post_report id body) clock s = handle_save_report store id body clock s
serve store (post_event id body) clock s = handle_record_event store id body clock s
serve store (post_agent_run id body) clock s = handle_record_agent_run store id body clock s

unfoldable pub serve_all : {S : Type 0} → Repository S → List (Request × Clock) → S → S
unfolding serve
serve_all store [] s = s
serve_all store ((request, clock) ∷ rest) s = serve_all store rest (serve store request clock s).1
