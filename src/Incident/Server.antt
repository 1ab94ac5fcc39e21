-- ===== src/Incident/Server.antt =====
-- The handlers of internal/incidentapi/server.go, over any repository, passed on from their parts.
mod Replies
mod Reads
mod Writes
pub use Replies.{
  Body, error_body, incident_body, incidents_body, events_body, agent_runs_body, report_body,
  recorded_body, Response, write_error, Decoded, is_blank,
}
unfoldable pub use Replies.{write_store_error, respond}
unfoldable pub use Reads.{
  limit_of, list_within, handle_get_incident, handle_list_incidents, handle_list_incident_events,
  handle_list_incident_agent_runs, handle_get_report,
}
pub use Writes.{reply}
unfoldable pub use Writes.{
  with_playbook, lacks_fields, lacks_context, handle_create_incident, handle_review_incident,
  handle_approve_incident, handle_reject_incident, handle_save_analysis, handle_save_report,
  handle_record_event, handle_record_agent_run,
}
