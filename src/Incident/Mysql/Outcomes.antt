-- ===== src/Incident/Mysql/Outcomes.antt =====
-- internal/incidentapi/mysql_store.go: what the methods do about an incident that is not there.
use graph_ops.Base.{String, ◌≡◌, false}
use graph_ops.Base.Result.{Result, err}
use graph_ops.Base.Value.{Clock}
use graph_ops.Incident.Requests.{
  ReviewIncidentRequest, UpsertAnalysisRequest, UpsertReportRequest, RecordIncidentEventRequest,
  RecordAgentRunRequest,
}
use graph_ops.Incident.Repository.{StoreError}
use graph_ops.Incident.Mysql.Database.{Database, Encoding}
use graph_ops.Incident.Mysql.Calls.{Method}
use graph_ops.Incident.Mysql.Writes.{
  save_analysis, review_incident, save_report, record_event, record_agent_run,
}
use graph_ops.Incident.Mysql.Tables.{Tables, Storage, knows}
use graph_ops.Incident.Mysql.Server.{Behaves}
use graph_ops.Incident.Mysql.Atomic.{save_analysis-IsAtomic, review_incident-IsAtomic}
use graph_ops.Incident.Mysql.Single.{
  save_report-IsAtomic, record_event-IsAtomic, record_agent_run-IsAtomic,
}
use graph_ops.Incident.Mysql.Rules.{IsAtomic, nothing, all}

-- The call fails and leaves the tables as they were.
abbrev pub Refuses : {D : Type 0} {A : Type 0} → (D → Tables) → Method D A → D → Type 0
Refuses tables m d = (e : StoreError) × ((m d).0 ≡ err e) × (tables (m d).1 ≡ tables d)

IsAtomic-refused :
    {A : Type 0} (Applied : Tables → Type 0) (before t' : Tables) (r : Result StoreError A)
    → IsAtomic Applied before r t'
    → ¬ Applied t'
    → (e : StoreError) × (r ≡ err e) × (t' ≡ before)
IsAtomic-refused Applied before t' r (nothing e eq same) never = (e, eq, same)
IsAtomic-refused Applied before t' r (all applied) never = absurd (never applied)

module _ {D : Type 0} (storage : Storage) (db : Database D) (laws : Behaves storage db)
    (encoding : Encoding) (id : String) (clock : Clock) where
  -- About an incident that is not in the tables, each of the five methods that change one or add to
  -- its history returns an error and leaves the tables as they were.
  pub unknown_incident-Refuses :
      (d : D) (analysis : UpsertAnalysisRequest) (report : UpsertReportRequest) (status : String)
      (review : ReviewIncidentRequest) (event : RecordIncidentEventRequest)
      (run : RecordAgentRunRequest)
      → knows storage id (laws.tables d) ≡ false
      → Refuses laws.tables (save_analysis db encoding id analysis clock) d
        × Refuses laws.tables (save_report db encoding id report clock) d
        × Refuses laws.tables (review_incident db encoding id status review clock) d
        × Refuses laws.tables (record_event db encoding id event clock) d
        × Refuses laws.tables (record_agent_run db encoding id run clock) d
  unknown_incident-Refuses d analysis report status review event run unknown = (
    IsAtomic-refused _ _ _ _ (save_analysis-IsAtomic storage db laws encoding id analysis clock d).0
        (λ (payload, marshalled, known, rows). cc),
    IsAtomic-refused _ _ _ _ (save_report-IsAtomic storage db laws encoding id clock report d).0
        (λ (saved, payload, given, marshalled, known, rows). cc),
    IsAtomic-refused _ _ _ _
        (review_incident-IsAtomic storage db laws encoding id status review clock d).0
        (λ (known, rows). cc),
    IsAtomic-refused _ _ _ _ (record_event-IsAtomic storage db laws encoding id clock event d)
        (λ (n, payload, marshalled, known, rows). cc),
    IsAtomic-refused _ _ _ _ (record_agent_run-IsAtomic storage db laws encoding id clock run d)
        (λ (n, input, output, is_input, is_output, known, rows). cc),
  )
