-- ===== src/Incident/Store.antt =====
-- `MemoryStore` of internal/incidentapi/store.go, passed on from its parts. A method that writes
-- holds the mutex from its first access of a map to its return, so a call is one step;
-- `CreateIncident` alone takes its clock reading and its sequence number before it locks.
mod State
mod Listing
mod Changes
mod Journal
pub use State.{MemoryStore, new_memory_store}
unfoldable pub use State.{incident_id, new_incident, create_incident, get_incident}
pub use Listing.{newer, list_limit, truncate}
unfoldable pub use Listing.{is_selected, select, list_incidents}
pub use Changes.{needs_approval, receipt_status, report_status}
unfoldable pub use Changes.{
  with_analysis, with_report, with_review, modify, save_analysis, save_report, review_incident,
}
pub use Journal.{at_key, at_key-put_self, at_key-put_ne, listed}
unfoldable pub use Journal.{
  list_events, list_agent_runs, new_event, new_agent_run, record_event, record_agent_run,
}
