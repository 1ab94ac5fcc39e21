-- ===== src/Incident/Examples.antt =====
-- internal/incidentapi: an incident from its creation to its report, as concrete data.
mod Calls
mod Web
mod Mysql
use mathlib.Core.List.Perm
use graph_ops.Base.{
  ◌≤◌, String, ◌≡◌, ◌≢◌, ◌↔◌, ◌⊎◌, refl, none, some, true, List, [], ◌∷◌, length, arith,
}
use graph_ops.Base.Int.{pos, next_u64}
use graph_ops.Base.Map.{get, values, copy_entries, put}
use graph_ops.Base.Result.{ok, err}
use graph_ops.Base.Slice.{nil_slice, slice}
use graph_ops.Base.Value.{Time, Clock}
use graph_ops.Incident.Types.{Incident, IncidentContext, FinalReport, ActionPlan, ActionReceipt}
use graph_ops.Incident.Requests.{
  CreateIncidentRequest, ListIncidentsRequest, ReviewIncidentRequest, UpsertAnalysisRequest,
  UpsertReportRequest, RecordIncidentEventRequest, RecordAgentRunRequest,
}
use graph_ops.Incident.Repository.{incident_not_found}
use graph_ops.Incident.Clone.{clone_incident, clone_incident_context}
use graph_ops.Incident.Contents.{
  SameFindings, SameContents, clone_incident-SameContents, clone_incident_idem,
}
use graph_ops.Incident.Store.{
  MemoryStore, new_memory_store, incident_id, new_incident, get_incident, save_analysis,
  save_report, review_incident, record_event, record_agent_run, list_events, list_agent_runs,
  list_incidents,
}
use graph_ops.Incident.Commands.{
  Command, create, analyse, report, review, event, agent_run, approve, execute_command,
  run_commands,
}
use graph_ops.Incident.Calls.{SameFor, execute_command-SameFor, unknown_incident, get-change}
use graph_ops.Incident.Invariant.{IsValid, incident_id-fresh, new_memory_store-IsValid}
use graph_ops.Incident.Runs.{run_commands-IsValid}
use graph_ops.Incident.Listings.{IsListing, list_incidents-IsListing}
use graph_ops.Base.Atoi.{atoi}
use graph_ops.Incident.Pages.{number, handle_list_incidents-IsListing}
use graph_ops.Incident.Server.{
  handle_list_incidents, incidents_body, handle_create_incident, handle_get_incident,
  handle_get_report, handle_save_report, handle_review_incident, incident_body, report_body,
}
use graph_ops.Incident.Api.{
  memory_repository, Request, post_incident, post_report, post_event, serve, serve_all,
}
use graph_ops.Incident.Serving.{IsServed, serve-IsServed, serve_all-run_commands, serve_all-IsValid}
use graph_ops.Incident.Exchanges.{handle_create_incident_iff}
use graph_ops.Incident.Outcomes.{IsReviewed, report-handle_save_report, get-handle_review_incident}

abbrev morning : Time
morning = record { nanos = pos 63800000000000000000 }

abbrev noon : Clock
noon n = morning

abbrev visit : List Incident → List Incident
visit xs = xs

abbrev checkout_context : IncidentContext
checkout_context = record {
  cluster = "prod-1";
  namespace = "shop";
  environment = "prod";
  alert_name = "HighErrorRate";
  alert_started_at = morning;
  release_id = "rel-42";
  release_version = "v2";
  previous_version = "v1";
  labels = some (("team", "payments") ∷ []);
}

abbrev checkout_request : CreateIncidentRequest
checkout_request = record {
  service_name = "checkout";
  severity = "critical";
  alert_summary = "5xx after release";
  playbook_key = "";
  context = some checkout_context;
}

abbrev incident_1 : Incident
unfolding new_incident clone_incident_context
incident_1 = new_incident "inc-1" checkout_request morning

abbrev incident_2 : Incident
unfolding new_incident clone_incident_context
incident_2 = new_incident "inc-2" checkout_request morning

abbrev two_incidents : MemoryStore
two_incidents = record new_memory_store {
  seq = 2;
  incidents = ("inc-1", incident_1) ∷ ("inc-2", incident_2) ∷ [];
}

abbrev first_id : String
first_id = incident_id morning 1

abbrev ann : ReviewIncidentRequest
ann = record { reviewer = "ann"; comment = "go" }

abbrev fix_plan : ActionPlan
fix_plan = record {
  action_type = "rollback";
  target_service = "checkout";
  current_revision = "v2";
  target_revision = "v1";
  reason = "regression";
  risk_level = "medium";
  evidence_ids = slice ("ev-1" ∷ []);
  verification_policy = none;
  requires_approval = true;
}

abbrev diagnosis : UpsertAnalysisRequest
diagnosis = record { evidence = nil_slice; hypotheses = nil_slice; proposed_action = some fix_plan }

abbrev recovery_receipt : ActionReceipt
recovery_receipt = record {
  receipt_id = "receipt-000001";
  idempotency_key = "key-1";
  action_type = "rollback";
  target_service = "checkout";
  executor = "orchestrator";
  from_revision = "v2";
  to_revision = "v1";
  status = "executed";
  status_detail = "";
  executed_at = morning;
  verification_status = "recovered";
}

abbrev recovery_report : FinalReport
recovery_report = record {
  summary = "rolled back";
  root_cause = "regression";
  recommended_action = "rollback";
  verification = "recovered";
  anomaly_summary = slice ("errors" ∷ []);
  handling_suggestions = slice [];
  metrics = nil_slice;
  release_comparisons = nil_slice;
  anomalies = nil_slice;
  action_receipt = some recovery_receipt;
  generated_at = morning;
}

abbrev recovery : UpsertReportRequest
recovery = record { report = some recovery_report }

abbrev note : RecordIncidentEventRequest
note = record { event_type = "created"; actor_type = "system"; actor_name = "api"; payload = none }

abbrev node_run : RecordAgentRunRequest
node_run = record {
  node_name = "triage";
  model_name = "qwen3:4b";
  prompt_version = "v1";
  input = none;
  output = none;
  latency_ms = pos 12;
  status = "ok";
  checkpoint_id = "";
}

abbrev story : List (Command × Clock)
story =
    (create checkout_request, noon)
    ∷ (event first_id note, noon)
    ∷ (agent_run first_id node_run, noon)
    ∷ (analyse first_id diagnosis, noon)
    ∷ (review first_id approve ann, noon)
    ∷ (report first_id recovery, noon)
    ∷ []

abbrev requests : List (Request × Clock)
requests =
    (post_incident (ok checkout_request), noon)
    ∷ (post_event first_id (ok note), noon)
    ∷ (post_report "other" (ok recovery), noon)
    ∷ (post_incident (err "EOF"), noon)
    ∷ []

known : get_incident "inc-1" two_incidents ≡ ok (clone_incident incident_1)
unfolding get_incident get
known = refl

other_unknown : get_incident "other" two_incidents ≡ err incident_not_found
unfolding get_incident get
other_unknown = refl
