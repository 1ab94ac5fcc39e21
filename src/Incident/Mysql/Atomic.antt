-- ===== src/Incident/Mysql/Atomic.antt =====
-- Each writing call of internal/incidentapi/mysql_store.go changes all that it is to change, or
-- nothing.
use graph_ops.Base.{String, ◌≡◌, refl, sym, ◌∙◌}
use graph_ops.Base.Action.{proceed}
use graph_ops.Base.Result.{Result, ok, err}
use graph_ops.Base.Value.{Clock}
use graph_ops.Incident.Types.{Incident}
use graph_ops.Incident.Requests.{ReviewIncidentRequest, UpsertAnalysisRequest}
use graph_ops.Incident.Repository.{StoreError}
use graph_ops.Incident.Mysql.Database.{Database, Encoding}
use graph_ops.Incident.Mysql.Calls.{transaction}
use graph_ops.Incident.Mysql.Reads.{get_incident}
use graph_ops.Incident.Mysql.Writes.{analysis_body, save_analysis, review_body, review_incident}
use graph_ops.Incident.Mysql.Tables.{Tables, Storage}
use graph_ops.Incident.Mysql.Server.{Behaves}
use graph_ops.Incident.Mysql.Bodies.{Analysed, Reviewed, analysis_body-rows, review_body-rows}
use graph_ops.Incident.Mysql.Found.{IsFound, get_incident-IsFound}
use graph_ops.Incident.Mysql.Rules.{IsAtomic, nothing, all, transaction_rule}

module _ {D : Type 0} (storage : Storage) (db : Database D) (laws : Behaves storage db)
    (encoding : Encoding) (id : String) where
  -- What a writing method has done, and what it gives back: the incident that is then in the tables.
  abbrev pub Leaves : (Tables → Type 0) → Tables → Result StoreError Incident → D → Type 0
  Leaves Applied before r d' =
      IsAtomic Applied before r (laws.tables d')
      × ((incident : Incident)
          → r ≡ ok incident
          → IsFound storage encoding id (laws.tables d') incident)

  pub get_applied :
      (Applied : Tables → Type 0) (before : Tables) (d : D)
      → Applied (laws.tables d)
      → Leaves Applied before (get_incident db encoding id d).0 (get_incident db encoding id d).1
  get_applied Applied before d applied =
      let (same, found) = get_incident-IsFound storage db laws encoding id d in
      (all (rw same applied), λ incident h. rw same (found incident h))

  transaction-Leaves :
      (Applied : Tables → Type 0) (before : Tables) (out : Result StoreError (Unit {0}) × D)
      → IsAtomic Applied before out.0 (laws.tables out.1)
      → (out.0 ≡ ok tt → Applied (laws.tables out.1))
      → Leaves Applied before
          (proceed (λ _. get_incident db encoding id) out).0
          (proceed (λ _. get_incident db encoding id) out).1
  transaction-Leaves Applied before (ok _, d) atomic applied =
      get_applied Applied before d (applied refl)
  transaction-Leaves Applied before (err e, d) (nothing e' eq same) applied =
      (nothing e refl same, λ incident h. cc)
  transaction-Leaves Applied before (err e, d) (all done) applied = (all done, λ incident h. cc)

  -- The transaction of `SaveAnalysis`.
  pub analysis_transaction :
      (req : UpsertAnalysisRequest) (clock : Clock) (d : D)
      → let out = transaction db (analysis_body db encoding id req clock) d in
        IsAtomic
          (Analysed storage encoding id clock req (laws.tables d))
          (laws.tables d)
          out.0
          (laws.tables out.1)
        × (out.0 ≡ ok tt
            → Analysed storage encoding id clock req (laws.tables d) (laws.tables out.1))
  analysis_transaction req clock d =
      transaction_rule storage db laws (Analysed storage encoding id clock req (laws.tables d))
        (analysis_body db encoding id req clock) d
        (λ d₁ kept same.
          let (kept', rows) = analysis_body-rows storage db laws encoding id clock req d₁ in
          (kept' ∙ kept, λ h. rw (sym same) (rows h)))

  -- `SaveAnalysis` leaves the status, the analysis and the time in the incident and exactly the
  -- request's evidence under it, of an incident that is there; or it returns an error and leaves the
  -- tables as they were. (An error may also be returned after all of the change has been made.) If
  -- it gives back an incident, that is the one then in the tables.
  pub save_analysis-IsAtomic :
      (req : UpsertAnalysisRequest) (clock : Clock) (d : D)
      → Leaves
          (Analysed storage encoding id clock req (laws.tables d))
          (laws.tables d)
          (save_analysis db encoding id req clock d).0
          (save_analysis db encoding id req clock d).1
  unfolding save_analysis
  save_analysis-IsAtomic req clock d =
      let (atomic, applied) = analysis_transaction req clock d in
      transaction-Leaves _ _ (transaction db (analysis_body db encoding id req clock) d) atomic
        applied

  -- `ReviewIncident` leaves the status and the time in the incident and the decision as its only
  -- approval, of an incident that is there; or it returns an error and leaves the tables as they
  -- were. (An error may also be returned after all of the change has been made.) If it gives back
  -- an incident, that is the one then in the tables.
  pub review_incident-IsAtomic :
      (status : String) (req : ReviewIncidentRequest) (clock : Clock) (d : D)
      → Leaves
          (Reviewed storage encoding id clock status req (laws.tables d))
          (laws.tables d)
          (review_incident db encoding id status req clock d).0
          (review_incident db encoding id status req clock d).1
  unfolding review_incident
  review_incident-IsAtomic status req clock d =
      let (atomic, applied) =
        transaction_rule storage db laws
          (Reviewed storage encoding id clock status req (laws.tables d))
          (review_body db encoding id status req clock) d
          (λ d₁ kept same.
            let (kept', rows) = review_body-rows storage db laws encoding id clock status req d₁ in
            (kept' ∙ kept, λ h. rw (sym same) (rows h))) in
      transaction-Leaves _ _ (transaction db (review_body db encoding id status req clock) d) atomic
        applied
