-- ===== src/Incident/Mysql/ReadBack.antt =====
-- internal/incidentapi/mysql_store.go: what a successful call of a method gives back.
use graph_ops.Base.{String, ◌≡◌, refl, sym, ap, ◌∙◌, some, true}
use graph_ops.Base.Result.{Result, ok}
use graph_ops.Base.Value.{Clock}
use graph_ops.Incident.Types.{Incident, FinalReport}
use graph_ops.Incident.Requests.{ReviewIncidentRequest, UpsertAnalysisRequest, UpsertReportRequest}
use graph_ops.Incident.Repository.{StoreError}
use graph_ops.Incident.Store.{receipt_status}
use graph_ops.Incident.Mysql.Database.{IncidentColumns, Database, Encoding}
use graph_ops.Incident.Mysql.Reads.{decode_column, to_incident}
use graph_ops.Incident.Mysql.Writes.{
  analysis_status, snapshot, save_analysis, review_incident, save_report,
}
use graph_ops.Incident.Mysql.Tables.{
  Tables, Storage, update_incident, is_incident, is_approval_of, knows, set_analysis, set_report,
  set_status, approval_row,
}
use graph_ops.Incident.Mysql.Server.{decisions, Behaves}
use graph_ops.Incident.Mysql.Atomic.{save_analysis-IsAtomic, review_incident-IsAtomic}
use graph_ops.Incident.Mysql.Single.{save_report-IsAtomic}
use graph_ops.Base.Rows.{find_row, find_row-updated, find_row-upsert}
use graph_ops.Incident.Mysql.Found.{IsFound}
use graph_ops.Incident.Mysql.Rules.{IsAtomic, nothing, all}

pub IsAtomic-applied :
    {A : Type 0} (Applied : Tables → Type 0) (before t' : Tables) (r : Result StoreError A) (a : A)
    → IsAtomic Applied before r t'
    → r ≡ ok a
    → Applied t'
IsAtomic-applied Applied before t' r a (nothing e eq same) h = cc
IsAtomic-applied Applied before t' r a (all applied) h = applied

module _ {D : Type 0} (storage : Storage) (db : Database D) (laws : Behaves storage db)
    (encoding : Encoding) (id : String) (clock : Clock) where
  -- An incident that is found after an UPDATE of it is made of the changed row.
  found_updated :
      (change : IncidentColumns → IncidentColumns) (t t' : Tables) (incident : Incident)
      → ((row : IncidentColumns) → (change row).id ≡ row.id)
      → knows storage id t ≡ true
      → t'.incidents ≡ (update_incident storage id change t).incidents
      → (found : IsFound storage encoding id t' incident)
      → (row : IncidentColumns) × (find_row (is_incident storage id) t.incidents ≡ some row)
        × (found.row ≡ change row)
  found_updated change t t' incident keeps known rows found =
      let (row, was, now) =
        find_row-updated (is_incident storage id) change t.incidents
          (λ row. ap (λ i. storage.same i id) (keeps row)) known in
      let here : find_row (is_incident storage id) t'.incidents ≡ some (change row) = rw rows now in
      let same : some found.row ≡ some (change row) = sym found.found ∙ here in (row, was, cc)

  -- A successful `SaveAnalysis` gives back an incident with the status of the request and the time of
  -- the call, whose analysis is the request's, as it was encoded, stored and decoded.
  pub save_analysis_gives :
      (req : UpsertAnalysisRequest) (d : D) (incident : Incident)
      → (save_analysis db encoding id req clock d).0 ≡ ok incident
      → (payload : String) × (encoding.marshal_analysis (snapshot req) ≡ ok payload)
        × (decode_column encoding.unmarshal_analysis (some (storage.json payload))
            ≡ ok incident.analysis)
        × (incident.status ≡ analysis_status req)
        × (incident.updated_at ≡ storage.datetime (clock 0))
  unfolding to_incident
  save_analysis_gives req d incident h =
      let (atomic, returned) = save_analysis-IsAtomic storage db laws encoding id req clock d in
      let (payload, marshalled, known, rows) = IsAtomic-applied _ _ _ _ incident atomic h in
      let found : IsFound storage encoding id
          (laws.tables (save_analysis db encoding id req clock d).1) incident =
        returned incident h in
      let (row, was, now) =
        found_updated (set_analysis storage (analysis_status req) payload (clock 0)) (laws.tables d)
          _ incident (λ row. refl) known (ap (λ t. t.incidents) rows) found in
      (
        payload,
        marshalled,
        sym (ap (λ r. decode_column encoding.unmarshal_analysis r.analysis_json) now)
            ∙ found.decodes_analysis
            ∙ sym (ap (λ i. ok i.analysis) found.assembled),
        ap (λ i. i.status) found.assembled ∙ ap (λ r. r.status) now,
        ap (λ i. i.updated_at) found.assembled ∙ ap (λ r. r.updated_at) now,
      )

  -- A successful `SaveReport` was given a report, and gives back an incident with that report, as it
  -- was encoded, stored and decoded, the status that its receipt asks for and the time of the call.
  pub save_report_gives :
      (req : UpsertReportRequest) (d : D) (incident : Incident)
      → (save_report db encoding id req clock d).0 ≡ ok incident
      → (report : FinalReport) × (payload : String) × (req.report ≡ some report)
        × (encoding.marshal_report report ≡ ok payload)
        × (decode_column encoding.unmarshal_report (some (storage.json payload))
            ≡ ok incident.report)
        × (incident.status ≡ receipt_status report.action_receipt)
        × (incident.updated_at ≡ storage.datetime (clock 0))
  unfolding to_incident
  save_report_gives req d incident h =
      let (atomic, returned) = save_report-IsAtomic storage db laws encoding id clock req d in
      let (report, payload, given, marshalled, known, rows) =
        IsAtomic-applied _ _ _ _ incident atomic h in
      let found : IsFound storage encoding id
          (laws.tables (save_report db encoding id req clock d).1) incident =
        returned incident h in
      let (row, was, now) =
        found_updated (set_report storage (receipt_status report.action_receipt) payload (clock 0))
          (laws.tables d) _ incident (λ row. refl) known (ap (λ t. t.incidents) rows) found in
      (
        report,
        payload,
        given,
        marshalled,
        sym (ap (λ r. decode_column encoding.unmarshal_report r.report_json) now)
            ∙ found.decodes_report
            ∙ sym (ap (λ i. ok i.report) found.assembled),
        ap (λ i. i.status) found.assembled ∙ ap (λ r. r.status) now,
        ap (λ i. i.updated_at) found.assembled ∙ ap (λ r. r.updated_at) now,
      )

  -- A successful `ReviewIncident` gives back an incident in the status of the decision, with the time
  -- of the call and the reviewer's decision, if the collation takes the id for itself.
  pub review_incident_gives :
      (status : String) (req : ReviewIncidentRequest) (d : D) (incident : Incident)
      → storage.same id id ≡ true
      → (review_incident db encoding id status req clock d).0 ≡ ok incident
      → (incident.status ≡ status)
        × (incident.updated_at ≡ storage.datetime (clock 0))
        × (incident.approval
            ≡ some (approval_row storage id status req.reviewer req.comment (clock 1)).decision)
  unfolding to_incident
  review_incident_gives status req d incident reflexive h =
      let (atomic, returned) =
        review_incident-IsAtomic storage db laws encoding id status req clock d in
      let (known, rows) = IsAtomic-applied _ _ _ _ incident atomic h in
      let found : IsFound storage encoding id
          (laws.tables (review_incident db encoding id status req clock d).1) incident =
        returned incident h in
      let (row, was, now) =
        found_updated (set_status storage status (clock 0)) (laws.tables d) _ incident (λ row. refl)
          known (ap (λ t. t.incidents) rows) found in
      (
        ap (λ i. i.status) found.assembled ∙ ap (λ r. r.status) now,
        ap (λ i. i.updated_at) found.assembled ∙ ap (λ r. r.updated_at) now,
        ap (λ i. i.approval) found.assembled
            ∙ ap (λ t. decisions (find_row (is_approval_of storage id) t.approvals)) rows
            ∙ ap decisions (
                find_row-upsert (is_approval_of storage id)
                  (approval_row storage id status req.reviewer req.comment (clock 1))
                  (laws.tables d).approvals reflexive),
      )
