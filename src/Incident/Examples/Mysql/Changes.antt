-- ===== src/Incident/Examples/Mysql/Changes.antt =====
-- internal/incidentapi/mysql_store.go: calls on the small database, and what they do to its tables.
use graph_ops.Base.{String, refl, List, [], ◌∷◌, none, some}
use graph_ops.Base.Slice.{items}
use graph_ops.Incident.Examples.{recovery, ann, note, node_run, noon, morning}
use graph_ops.Incident.Types.{Incident}
use graph_ops.Base.Int.{pos}
use graph_ops.Incident.Mysql.Reads.{list_incidents, list_events, list_agent_runs}
use graph_ops.Incident.Mysql.Writes.{
  save_analysis, save_report, review_incident, record_event, record_agent_run,
}
use graph_ops.Incident.Mysql.Bodies.{Analysed, Reviewed}
use graph_ops.Incident.Mysql.Rules.{IsAtomic}
use graph_ops.Incident.Requests.{ListIncidentsRequest}
use graph_ops.Incident.Mysql.Listing.{IsSelected}
use graph_ops.Incident.Mysql.Database.{EventColumns}
use graph_ops.Incident.Mysql.Tables.{Tables, events_of, agent_runs_of}
use graph_ops.Incident.Mysql.Found.{IsFound}
use graph_ops.Incident.Mysql.Atomic.{Leaves, save_analysis-IsAtomic, review_incident-IsAtomic}
use graph_ops.Incident.Mysql.Single.{
  Reported, EventRecorded, AgentRunRecorded, save_report-IsAtomic, history-IsAtomic,
}
use graph_ops.Incident.Mysql.Outcomes.{Refuses, unknown_incident-Refuses}
use graph_ops.Incident.Mysql.Reading.{AllMade, Reads}
use graph_ops.Incident.Mysql.Queries.{IsEventOf, IsAgentRunOf, list_incidents-Reads, history-Reads}
use graph_ops.Incident.Examples.Mysql.{
  as_written, Server, server, server_laws, plain, two_findings, stored_row, stored,
}

save_analysis-IsAtomic_example :
    Leaves as_written server server_laws plain "inc-7"
      (Analysed as_written plain "inc-7" noon two_findings stored.0)
      stored.0
      (save_analysis server plain "inc-7" two_findings noon stored).0
      (save_analysis server plain "inc-7" two_findings noon stored).1
save_analysis-IsAtomic_example =
    save_analysis-IsAtomic as_written server server_laws plain "inc-7" two_findings noon stored

review_incident-IsAtomic_example :
    Leaves as_written server server_laws plain "inc-7"
      (Reviewed as_written plain "inc-7" noon "approved" ann stored.0)
      stored.0
      (review_incident server plain "inc-7" "approved" ann noon stored).0
      (review_incident server plain "inc-7" "approved" ann noon stored).1
review_incident-IsAtomic_example =
    review_incident-IsAtomic as_written server server_laws plain "inc-7" "approved" ann noon stored

save_report-IsAtomic_example :
    Leaves as_written server server_laws plain "inc-7"
      (Reported as_written plain "inc-7" noon recovery.report stored.0)
      stored.0
      (save_report server plain "inc-7" recovery noon stored).0
      (save_report server plain "inc-7" recovery noon stored).1
save_report-IsAtomic_example =
    save_report-IsAtomic as_written server server_laws plain "inc-7" noon recovery stored

history-IsAtomic_example :
    IsAtomic
      (EventRecorded as_written plain "inc-7" noon note stored.0)
      stored.0
      (record_event server plain "inc-7" note noon stored).0
      (record_event server plain "inc-7" note noon stored).1.0
    × IsAtomic
        (AgentRunRecorded as_written plain "inc-7" noon node_run stored.0)
        stored.0
        (record_agent_run server plain "inc-7" node_run noon stored).0
        (record_agent_run server plain "inc-7" node_run noon stored).1.0
history-IsAtomic_example =
    history-IsAtomic as_written server server_laws plain "inc-7" noon note node_run stored

unknown_incident-Refuses_example :
    Refuses server_laws.tables (save_analysis server plain "other" two_findings noon) stored
    × Refuses server_laws.tables (save_report server plain "other" recovery noon) stored
    × Refuses server_laws.tables (review_incident server plain "other" "approved" ann noon) stored
    × Refuses server_laws.tables (record_event server plain "other" note noon) stored
    × Refuses server_laws.tables (record_agent_run server plain "other" node_run noon) stored
unknown_incident-Refuses_example =
    unknown_incident-Refuses as_written server server_laws plain "other" noon stored two_findings
      recovery "approved" ann note node_run refl

-- Three incidents, of which two are of the service that is asked for.
abbrev three_rows : Server
three_rows =
    let t : Tables = record stored.0 {
      incidents =
          stored_row
          ∷ record stored_row { id = "inc-8"; service_name = "billing" }
          ∷ record stored_row { id = "inc-9"; created_at = noon 0 }
          ∷ [];
    } in
    (t, t)

abbrev of_checkout : ListIncidentsRequest
of_checkout = record { service_name = "checkout"; status = ""; limit = pos 10 }

list_incidents-Reads_example :
    Reads server_laws.tables three_rows.0 (list_incidents server plain of_checkout) (λ listed.
      (ids : List String) × IsSelected as_written (some "checkout") none 10 three_rows.0 ids
      × AllMade (λ id. IsFound as_written plain id three_rows.0) ids (items listed))
list_incidents-Reads_example =
    list_incidents-Reads as_written server server_laws plain three_rows.0 of_checkout

-- The tables with two events of the incident and one of another.
abbrev with_history : Server
with_history =
    let row : EventColumns = record {
      id = pos 2;
      incident_id = "inc-7";
      event_type = "note";
      actor_type = "human";
      actor_name = "ann";
      payload_json = "";
      created_at = morning;
    } in
    let t : Tables = record stored.0 {
      events =
          row ∷ record row { id = pos 3; incident_id = "other" } ∷ record row { id = pos 1 } ∷ [];
    } in
    (t, t)

history-Reads_example :
    Reads server_laws.tables with_history.0 (list_events server plain "inc-7") (λ listed.
      ((incident : Incident) × IsFound as_written plain "inc-7" with_history.0 incident)
      × AllMade (IsEventOf plain) (events_of as_written "inc-7" with_history.0) (items listed))
    × Reads server_laws.tables with_history.0 (list_agent_runs server plain "inc-7") (λ listed.
      ((incident : Incident) × IsFound as_written plain "inc-7" with_history.0 incident)
      × AllMade
          (IsAgentRunOf plain)
          (agent_runs_of as_written "inc-7" with_history.0)
          (items listed))
history-Reads_example = history-Reads as_written server server_laws plain with_history.0 "inc-7"
