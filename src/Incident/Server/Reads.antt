-- ===== src/Incident/Server/Reads.antt =====
-- internal/incidentapi/server.go: the handlers that only read.
use graph_ops.Base.{String, ◌==◌, Option, none, some, if◌then◌else◌}
use graph_ops.Base.Atoi.{atoi}
use graph_ops.Base.Int.{ℤ, pos}
use graph_ops.Base.Result.{ok, err}
use graph_ops.Base.Text.{trim_space}
use graph_ops.Incident.Types.{Incident, FinalReport}
use graph_ops.Incident.Requests.{ListIncidentsRequest}
use graph_ops.Incident.Repository.{Repository, Outcome}
use graph_ops.Incident.Server.Replies.{
  incident_body, incidents_body, events_body, agent_runs_body, report_body, Response, write_error,
  write_store_error, respond,
}

-- The limit of a query: 0 where none is given.
unfoldable pub limit_of : String → Option ℤ
limit_of raw = if raw == "" then some (pos 0) else atoi raw

report_or_error : Option FinalReport → Response
report_or_error none = write_error 404 "report not found"
report_or_error (some report) = record { status = 200; body = report_body report }

report_reply : Outcome Incident → Response
unfolding report_or_error write_store_error
report_reply (err e) = write_store_error e
report_reply (ok incident) = report_or_error incident.report

module _ {S : Type 0} (store : Repository S) where
  unfoldable pub handle_get_incident : String → S → Response
  unfolding respond
  handle_get_incident id s = respond 200 incident_body (store.get_incident id s)

  unfoldable pub list_within : String → String → Option ℤ → S → Response
  unfolding respond
  list_within service_name status none s = write_error 400 "limit must be an integer"
  list_within service_name status (some limit) s =
      let req : ListIncidentsRequest = record {
        service_name = trim_space service_name;
        status = trim_space status;
        limit = limit;
      } in
      respond 200 incidents_body (store.list_incidents req s)

  -- The query parameters are given as `Get` returns them, "" for one that is missing.
  unfoldable pub handle_list_incidents : (service_name status limit : String) → S → Response
  unfolding list_within limit_of
  handle_list_incidents service_name status limit s =
      list_within service_name status (limit_of (trim_space limit)) s

  unfoldable pub handle_list_incident_events : String → S → Response
  unfolding respond
  handle_list_incident_events id s = respond 200 events_body (store.list_events id s)

  unfoldable pub handle_list_incident_agent_runs : String → S → Response
  unfolding respond
  handle_list_incident_agent_runs id s = respond 200 agent_runs_body (store.list_agent_runs id s)

  unfoldable pub handle_get_report : String → S → Response
  unfolding report_reply
  handle_get_report id s = report_reply (store.get_incident id s)
