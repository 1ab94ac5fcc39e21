-- ===== src/Incident/Mysql/Found.antt =====
-- internal/incidentapi/mysql_store.go: what `GetIncident` finds, under the hypotheses on the
-- database.
use graph_ops.Base.{String, ◌≡◌, refl, sym, ap, ◌∙◌, Option, none, some}
use graph_ops.Base.Action.{or_fail, ◌>>=◌}
use graph_ops.Base.Result.{Result, ok, err}
use graph_ops.Base.Rows.{find_row}
use graph_ops.Incident.Types.{
  IncidentContext, AnalysisSnapshot, ApprovalDecision, FinalReport, Incident,
}
use graph_ops.Incident.Repository.{StoreError, incident_not_found}
use graph_ops.Incident.Mysql.Database.{IncidentColumns, Database, Encoding}
use graph_ops.Incident.Mysql.Calls.{Method}
use graph_ops.Incident.Mysql.Reads.{decode_column, to_incident, get_incident}
use graph_ops.Incident.Mysql.Tables.{Tables, Storage, is_incident, is_approval_of}
use graph_ops.Incident.Mysql.Server.{decisions, Behaves}
use graph_ops.Incident.Mysql.Rules.{check_rule, call_rule}

-- The incident is made of a row with the id, of its decoded columns and of the decision about it.
pub record IsFound (storage : Storage) (encoding : Encoding) (id : String) (t : Tables)
    (incident : Incident) : Type 0 where
  pub row : IncidentColumns
  pub context : Option IncidentContext
  pub analysis : Option AnalysisSnapshot
  pub report : Option FinalReport
  pub found : find_row (is_incident storage id) t.incidents ≡ some row
  pub decodes_context : decode_column encoding.unmarshal_context row.context_json ≡ ok context
  pub decodes_analysis : decode_column encoding.unmarshal_analysis row.analysis_json ≡ ok analysis
  pub decodes_report : decode_column encoding.unmarshal_report row.report_json ≡ ok report
  pub assembled :
      incident
      ≡ to_incident row context analysis report
          (decisions (find_row (is_approval_of storage id) t.approvals))

found_rule {ℓ} :
    {D B : Type 0} (Q : Result StoreError B → D → Type ℓ) (found : Option IncidentColumns)
    (f : IncidentColumns → Method D B) (d : D)
    → Q (err incident_not_found) d
    → ((row : IncidentColumns) → found ≡ some row → Q (f row d).0 (f row d).1)
    → Q
        ((or_fail found incident_not_found >>= f) d).0
        ((or_fail found incident_not_found >>= f) d).1
found_rule Q none f d no_row one_row = no_row
found_rule Q (some row) f d no_row one_row = one_row row refl

-- The same row and columns, with the decision that is in the tables.
assembled-approval :
    (storage : Storage) (id : String) (t t₁ : Tables) (make : Option ApprovalDecision → Incident)
    (approval : Option ApprovalDecision) (incident : Incident)
    → approval ≡ decisions (find_row (is_approval_of storage id) t₁.approvals)
    → t₁ ≡ t
    → ◌≡◌ {A = Result StoreError Incident} (ok (make approval)) (ok incident)
    → incident ≡ make (decisions (find_row (is_approval_of storage id) t.approvals))
assembled-approval storage id t t₁ make approval incident is_approval same made =
    let is_made : make approval ≡ incident = cc in
    sym is_made
    ∙ ap make
        (is_approval ∙ ap (λ t. decisions (find_row (is_approval_of storage id) t.approvals)) same)

module _ {D : Type 0} (storage : Storage) (db : Database D) (laws : Behaves storage db)
    (encoding : Encoding) where
  -- A read changes no table, and what it gives is in the tables.
  pub get_incident-IsFound :
      (id : String) (d : D)
      → (laws.tables (get_incident db encoding id d).1 ≡ laws.tables d)
        × ((incident : Incident)
            → (get_incident db encoding id d).0 ≡ ok incident
            → IsFound storage encoding id (laws.tables d) incident)
  unfolding get_incident
  get_incident-IsFound id d =
      let Q : Result StoreError Incident → D → Type 0 = λ r d'.
        (laws.tables d' ≡ laws.tables d)
        × ((incident : Incident)
            → r ≡ ok incident
            → IsFound storage encoding id (laws.tables d) incident) in
      call_rule Q (db.select_incident id) _ d
        (λ e d₁ eq. ((laws.select_incident id d d₁ (err e) eq).0, λ i h. cc))
        (λ column d₁ eq.
          let (same, selected) = laws.select_incident id d d₁ (ok column) eq in
          found_rule Q column _ d₁ (same, λ i h. cc)
            (λ row is_row.
              check_rule Q (decode_column encoding.unmarshal_context row.context_json) _ d₁
                (λ e h. (same, λ i h. cc))
                (λ context decodes_context.
                  check_rule Q (decode_column encoding.unmarshal_analysis row.analysis_json) _ d₁
                    (λ e h. (same, λ i h. cc))
                    (λ analysis decodes_analysis.
                      check_rule Q (decode_column encoding.unmarshal_report row.report_json) _ d₁
                        (λ e h. (same, λ i h. cc))
                        (λ report decodes_report.
                          call_rule Q (db.select_approval id) _ d₁
                            (λ e d₂ eq₂.
                              ((laws.select_approval id d₁ d₂ (err e) eq₂).0 ∙ same, λ i h. cc))
                            (λ approval d₂ eq₂.
                              let (same₂, selected₂) =
                                laws.select_approval id d₁ d₂ (ok approval) eq₂ in
                              (
                                same₂ ∙ same,
                                λ i h. record {
                                  row = row;
                                  context = context;
                                  analysis = analysis;
                                  report = report;
                                  found = sym (selected column refl) ∙ is_row;
                                  decodes_context = decodes_context;
                                  decodes_analysis = decodes_analysis;
                                  decodes_report = decodes_report;
                                  assembled =
                                      assembled-approval storage id (laws.tables d) (laws.tables d₁)
                                        (to_incident row context analysis report) approval i
                                        (selected₂ approval refl) same h;
                                },
                              )))))))
