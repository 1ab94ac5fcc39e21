-- ===== src/Incident/Server/Writes.antt =====
-- internal/incidentapi/server.go: the handlers that write.
use graph_ops.Base.{String, ◌==◌, Option, none, some, Bool, true, ◌||◌, if◌then◌else◌}
use graph_ops.Base.Result.{Result, ok, err}
use graph_ops.Base.Value.{Clock, is_zero_time}
use graph_ops.Incident.Types.{IncidentContext}
use graph_ops.Incident.Requests.{
  CreateIncidentRequest, ReviewIncidentRequest, UpsertAnalysisRequest, UpsertReportRequest,
  RecordIncidentEventRequest, RecordAgentRunRequest,
}
use graph_ops.Incident.Repository.{Repository, StoreError}
use graph_ops.Incident.Server.Replies.{
  Body, incident_body, recorded_body, Response, write_error, Decoded, respond, is_blank,
}
use Prim.Native.Nat.{ℕ}

unfoldable pub with_playbook : CreateIncidentRequest → CreateIncidentRequest
with_playbook req = record req {
  playbook_key = if req.playbook_key == "" then "release_config_regression" else req.playbook_key;
}

unfoldable pub lacks_fields : CreateIncidentRequest → Bool
lacks_fields req = req.service_name == "" || req.severity == "" || req.alert_summary == ""

unfoldable pub lacks_context : Option IncidentContext → Bool
lacks_context none = true
lacks_context (some c) =
    is_blank c.cluster
    || is_blank c.namespace
    || is_blank c.release_version
    || is_blank c.previous_version
    || is_zero_time c.alert_started_at

-- Passes the store's result on, with the state that the store leaves.
abbrev pub reply {ℓ} :
    {S : Type 0} {A : Type ℓ} → ℕ → (A → Body) → Result StoreError A × S → Response × S
reply status body (result, s) = (respond status body result, s)

module _ {S : Type 0} (store : Repository S) where
  create_checked : CreateIncidentRequest → Clock → S → Response × S
  create_checked req clock s =
      let created = reply 201 incident_body (store.create_incident req clock s) in
      if lacks_fields req
      then (write_error 400 "service_name, severity, and alert_summary are required", s)
      else if lacks_context req.context
      then (
        write_error 400
            "context with cluster, namespace, alert_started_at, release_version, and previous_version is required",
        s,
      )
      else created

  unfoldable pub handle_create_incident : Decoded CreateIncidentRequest → Clock → S → Response × S
  unfolding create_checked
  handle_create_incident (err message) clock s = (write_error 400 message, s)
  handle_create_incident (ok req) clock s = create_checked (with_playbook req) clock s

  unfoldable pub handle_review_incident :
      String → String → Decoded ReviewIncidentRequest → Clock → S → Response × S
  handle_review_incident id status (err message) clock s = (write_error 400 message, s)
  handle_review_incident id status (ok req) clock s =
      let reviewed = reply 200 incident_body (store.review_incident id status req clock s) in
      if is_blank req.reviewer then (write_error 400 "reviewer is required", s) else reviewed

  unfoldable pub handle_approve_incident :
      String → Decoded ReviewIncidentRequest → Clock → S → Response × S
  unfolding handle_review_incident
  handle_approve_incident id body clock s = handle_review_incident id "approved" body clock s

  unfoldable pub handle_reject_incident :
      String → Decoded ReviewIncidentRequest → Clock → S → Response × S
  unfolding handle_review_incident
  handle_reject_incident id body clock s = handle_review_incident id "rejected" body clock s

  unfoldable pub handle_save_analysis :
      String → Decoded UpsertAnalysisRequest → Clock → S → Response × S
  handle_save_analysis id (err message) clock s = (write_error 400 message, s)
  handle_save_analysis id (ok req) clock s =
      reply 200 incident_body (store.save_analysis id req clock s)

  unfoldable pub handle_save_report :
      String → Decoded UpsertReportRequest → Clock → S → Response × S
  handle_save_report id (err message) clock s = (write_error 400 message, s)
  handle_save_report id (ok req) clock s =
      reply 200 incident_body (store.save_report id req clock s)

  unfoldable pub handle_record_event :
      String → Decoded RecordIncidentEventRequest → Clock → S → Response × S
  handle_record_event id (err message) clock s = (write_error 400 message, s)
  handle_record_event id (ok req) clock s =
      let recorded = reply 201 (λ _. recorded_body) (store.record_event id req clock s) in
      if is_blank req.event_type || is_blank req.actor_type || is_blank req.actor_name
      then (write_error 400 "event_type, actor_type, actor_name are required", s)
      else recorded

  unfoldable pub handle_record_agent_run :
      String → Decoded RecordAgentRunRequest → Clock → S → Response × S
  handle_record_agent_run id (err message) clock s = (write_error 400 message, s)
  handle_record_agent_run id (ok req) clock s =
      let recorded = reply 201 (λ _. recorded_body) (store.record_agent_run id req clock s) in
      if is_blank req.node_name || is_blank req.model_name || is_blank req.prompt_version
      then (write_error 400 "node_name, model_name, prompt_version are required", s)
      else if is_blank req.status
      then (write_error 400 "status is required", s)
      else recorded
