-- ===== src/Incident/Mysql/Writes.antt =====
-- internal/incidentapi/mysql_store.go: the methods that write.
use Prim.Native.String.{◌++◌ as concat}
use graph_ops.Base.{ℕ, suc, String, Option, none, some, List, [], ◌∷◌, if◌then◌else◌}
use graph_ops.Base.Action.{pure, fail, ◌>>=◌, ◌>>◌}
use graph_ops.Base.Decimal.{signed_decimal}
use graph_ops.Base.Slice.{items, copy}
use graph_ops.Base.Value.{Time, Clock, unix_nano}
use graph_ops.Incident.Types.{AnalysisSnapshot, Evidence, FinalReport, Incident}
use graph_ops.Incident.Requests.{
  CreateIncidentRequest, ReviewIncidentRequest, UpsertAnalysisRequest, UpsertReportRequest,
  RecordIncidentEventRequest, RecordAgentRunRequest,
}
use graph_ops.Incident.Repository.{failed}
use graph_ops.Incident.Store.{new_incident, needs_approval, receipt_status}
use graph_ops.Incident.Mysql.Database.{
  insert_incident, update_analysis, delete_evidence, insert_evidence, update_report, update_status,
  upsert_approval, insert_event, insert_agent_run, Statement, Database, Encoding,
}
use graph_ops.Incident.Mysql.Calls.{Method, check, marshal_json, rows_affected, transaction, exec}
use graph_ops.Incident.Mysql.Reads.{get_incident}

-- `fmt.Sprintf("inc-%d", now.UnixNano())`
unfoldable pub incident_id : Time → String
incident_id now = concat "inc-" (signed_decimal (unix_nano now))

unfoldable pub analysis_status : UpsertAnalysisRequest → String
analysis_status req =
    if needs_approval req.proposed_action then "waiting_for_approval" else "diagnosed"

unfoldable pub snapshot : UpsertAnalysisRequest → AnalysisSnapshot
snapshot req = record {
  evidence = copy req.evidence;
  hypotheses = copy req.hypotheses;
  proposed_action = req.proposed_action;
}

abbrev pub evidence_statement : String → Evidence → Time → Statement
evidence_statement id item now =
    insert_evidence id item.evidence_id item.source_type item.source_ref item.summary
      item.confidence now

module _ {D : Type 0} (db : Database D) where
  -- The loop over `req.Evidence`; `k` is the number of the next reading of the clock.
  unfoldable pub insert_items : String → List Evidence → ℕ → Clock → Method D (Unit {0})
  insert_items id [] k clock = pure tt
  insert_items id (item ∷ rest) k clock = do
    _ ← exec db (evidence_statement id item (clock k))
    insert_items id rest (suc k) clock

module _ {D : Type 0} (db : Database D) (encoding : Encoding) where
  unfoldable pub create_incident : CreateIncidentRequest → Clock → Method D Incident
  unfolding marshal_json incident_id new_incident
  create_incident req clock = do
    context_json ← check (marshal_json encoding.marshal_context (some req.context))
    let incident = new_incident (incident_id (clock 0)) req (clock 0)
    _ ← exec db (
        insert_incident incident.id incident.service_name incident.severity incident.alert_summary
          incident.playbook_key context_json incident.status incident.created_at
          incident.updated_at)
    pure incident

  unfoldable pub analysis_body : String → UpsertAnalysisRequest → Clock → Method D (Unit {0})
  unfolding analysis_status snapshot insert_items rows_affected
  analysis_body id req clock = do
    payload ← check (encoding.marshal_analysis (snapshot req))
    result ← exec db (update_analysis (analysis_status req) payload (clock 0) id)
    rows_affected result
    _ ← exec db (delete_evidence id)
    insert_items db id (items req.evidence) 1 clock

  unfoldable pub save_analysis : String → UpsertAnalysisRequest → Clock → Method D Incident
  unfolding analysis_body transaction get_incident
  save_analysis id req clock = do
    transaction db (analysis_body id req clock)
    get_incident db encoding id

  unfoldable pub update_and_get : String → FinalReport → Clock → Method D Incident
  unfolding rows_affected get_incident
  update_and_get id report clock = do
    payload ← check (encoding.marshal_report report)
    result ← exec db (update_report (receipt_status report.action_receipt) payload (clock 0) id)
    rows_affected result
    get_incident db encoding id

  unfoldable pub saved_report : String → Option FinalReport → Clock → Method D Incident
  unfolding update_and_get
  saved_report id none clock = fail (failed "report is required")
  saved_report id (some report) clock = update_and_get id report clock

  unfoldable pub save_report : String → UpsertReportRequest → Clock → Method D Incident
  unfolding saved_report
  save_report id req clock = saved_report id req.report clock

  unfoldable pub review_body : String → String → ReviewIncidentRequest → Clock → Method D (Unit {0})
  unfolding rows_affected
  review_body id status req clock = do
    result ← exec db (update_status status (clock 0) id)
    rows_affected result
    _ ← exec db (upsert_approval id status req.reviewer req.comment (clock 1))
    pure tt

  unfoldable pub review_incident :
      String → String → ReviewIncidentRequest → Clock → Method D Incident
  unfolding review_body transaction get_incident
  review_incident id status req clock = do
    transaction db (review_body id status req clock)
    get_incident db encoding id

  unfoldable pub record_event : String → RecordIncidentEventRequest → Clock → Method D (Unit {0})
  unfolding rows_affected
  record_event id req clock = do
    payload ← check (encoding.marshal_object req.payload)
    result ←
        exec db (insert_event id req.event_type req.actor_type req.actor_name payload (clock 0))
    rows_affected result

  unfoldable pub record_agent_run : String → RecordAgentRunRequest → Clock → Method D (Unit {0})
  unfolding rows_affected
  record_agent_run id req clock = do
    input ← check (encoding.marshal_object req.input)
    output ← check (encoding.marshal_object req.output)
    result ← exec db (
        insert_agent_run id req.node_name req.model_name req.prompt_version input output
          req.latency_ms req.status req.checkpoint_id (clock 0))
    rows_affected result
