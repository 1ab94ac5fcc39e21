-- ===== src/Incident/Mysql/RoundTrip.antt =====
-- internal/incidentapi/mysql_store.go: `GetIncident` after `CreateIncident`.
use mathlib.Core.Path.{subst}
use graph_ops.Base.{
  Bool-cases, inl, inr, String, ◌≡◌, sym, ap, ◌∙◌, some, true, false, Option, none, [], ◌∷◌, ◌++◌,
}
use graph_ops.Base.Result.{Result, ok}
use graph_ops.Base.Rows.{any_row}
use graph_ops.Base.Value.{Clock}
use graph_ops.Incident.Types.{IncidentContext, AnalysisSnapshot, Incident, FinalReport}
use graph_ops.Incident.Requests.{CreateIncidentRequest}
use graph_ops.Incident.Store.{new_incident}
use graph_ops.Incident.Mysql.ReadBack.{IsAtomic-applied}
use graph_ops.Incident.Mysql.Database.{Database, Encoding}
use graph_ops.Incident.Mysql.Reads.{get_incident, decode_column, to_incident}
use graph_ops.Incident.Mysql.Writes.{create_incident, incident_id}
use graph_ops.Incident.Mysql.Tables.{Tables, Storage, is_incident, is_approval_of, knows}
use graph_ops.Incident.Mysql.Server.{decisions, Behaves}
use graph_ops.Base.Rows.{find_row, find_row-append, find_row-none}
use graph_ops.Incident.Mysql.Found.{IsFound, get_incident-IsFound}
use graph_ops.Incident.Mysql.Created.{created_id, created_row, create_incident-IsAtomic}

module _ (storage : Storage) (encoding : Encoding) (req : CreateIncidentRequest)
    (clock : Clock) where
  -- What is found after the row has been added, when no approval is about the id.
  found_created :
      (payload : String) (t t' : Tables) (found : Incident)
      → storage.same (created_id storage encoding req clock) (created_id storage encoding req clock)
        ≡ true
      → (any_row (is_approval_of storage (created_id storage encoding req clock)) t.approvals ≡ true
          → knows storage (created_id storage encoding req clock) t ≡ true)
      → knows storage (created_id storage encoding req clock) t ≡ false
      → t' ≡ record t {
        incidents = t.incidents ++ created_row storage encoding req clock payload ∷ [];
      }
      → IsFound storage encoding (created_id storage encoding req clock) t' found
      → (context : Option IncidentContext) × (decode_column encoding.unmarshal_context
            (some (storage.json payload))
          ≡ ok context)
        × (found ≡ record (new_incident (created_id storage encoding req clock) req (clock 0)) {
          context = context;
          created_at = storage.datetime (clock 0);
          updated_at = storage.datetime (clock 0);
        })
  unfolding new_incident to_incident decode_column
  found_created payload t t' found reflexive refers is_new rows f =
      let here : find_row (is_incident storage (created_id storage encoding req clock)) t'.incidents
          ≡ some (created_row storage encoding req clock payload) =
        ap (λ t. find_row (is_incident storage (created_id storage encoding req clock)) t.incidents)
          rows
        ∙ find_row-append (is_incident storage (created_id storage encoding req clock)) t.incidents
            (created_row storage encoding req clock payload) is_new reflexive in
      let same : some f.row ≡ some (created_row storage encoding req clock payload) =
        sym f.found ∙ here in
      let is_row : f.row ≡ created_row storage encoding req clock payload = cc in
      let no_analysis : ◌≡◌ {A = Result String (Option AnalysisSnapshot)} (ok none)
          (ok f.analysis) =
        sym (ap (λ r. decode_column encoding.unmarshal_analysis r.analysis_json) is_row)
        ∙ f.decodes_analysis in
      let no_report : ◌≡◌ {A = Result String (Option FinalReport)} (ok none) (ok f.report) =
        sym (ap (λ r. decode_column encoding.unmarshal_report r.report_json) is_row)
        ∙ f.decodes_report in
      let no_approval : any_row (is_approval_of storage (created_id storage encoding req clock))
            t.approvals
          ≡ false =
        elim (Bool-cases
          (any_row (is_approval_of storage (created_id storage encoding req clock)) t.approvals)) [
            | inl one ↦ let known = refers one in cc
            | inr none_such ↦ none_such
          ] in
      let approval : decisions
            (find_row (is_approval_of storage (created_id storage encoding req clock)) t'.approvals)
          ≡ none =
        ap
          (λ t.
            decisions (
              find_row (is_approval_of storage (created_id storage encoding req clock))
                t.approvals))
          rows
        ∙ ap decisions (
            find_row-none (is_approval_of storage (created_id storage encoding req clock))
              t.approvals no_approval) in
      let analysis : f.analysis ≡ none = cc in
      let report : f.report ≡ none = cc in
      (
        f.context,
        sym (ap (λ r. decode_column encoding.unmarshal_context r.context_json) is_row)
            ∙ f.decodes_context,
        f.assembled ∙ rw (is_row, analysis, report, approval),
      )

module _ {D : Type 0} (storage : Storage) (db : Database D) (laws : Behaves storage db)
    (encoding : Encoding) (req : CreateIncidentRequest) (clock : Clock) where
  -- After a successful `CreateIncident`, a `GetIncident` of the id that succeeds gives the created
  -- incident, with its times and its context as the columns keep them, if the collation takes the id
  -- for itself and there was no approval under the id without an incident.
  pub create_incident-get_incident :
      (d : D) (incident found : Incident)
      → storage.same (incident_id (clock 0)) (incident_id (clock 0)) ≡ true
      → (any_row (is_approval_of storage (incident_id (clock 0))) (laws.tables d).approvals ≡ true
          → knows storage (incident_id (clock 0)) (laws.tables d) ≡ true)
      → (create_incident db encoding req clock d).0 ≡ ok incident
      → (get_incident db encoding incident.id (create_incident db encoding req clock d).1).0
        ≡ ok found
      → (payload : String) × (context : Option IncidentContext) × (encoding.marshal_context
            req.context
          ≡ ok payload)
        × (decode_column encoding.unmarshal_context (some (storage.json payload)) ≡ ok context)
        × (found ≡ record incident {
          context = context;
          created_at = storage.datetime incident.created_at;
          updated_at = storage.datetime incident.updated_at;
        })
  unfolding new_incident to_incident decode_column
  create_incident-get_incident d incident found reflexive refers created got =
      let (atomic, given) = create_incident-IsAtomic storage db laws encoding req clock d in
      let (payload, is_payload, is_new, rows) = IsAtomic-applied _ _ _ _ incident atomic created in
      let made = given incident created in
      let same_id : incident.id ≡ incident_id (clock 0) = ap (λ i. i.id) made in
      let read =
        subst
          (λ i.
            (get_incident db encoding i (create_incident db encoding req clock d).1).0 ≡ ok found)
          same_id got in
      let (same, is_found) =
        get_incident-IsFound storage db laws encoding (incident_id (clock 0))
          (create_incident db encoding req clock d).1 in
      let (context, decoded, is) =
        found_created storage encoding req clock payload (laws.tables d) _ found reflexive refers
          is_new rows (is_found found read) in
      (
        payload,
        context,
        is_payload,
        decoded,
        is
            ∙ sym (
                ap {A = Incident} {B = Incident}
                  (λ i. record i {
                    context = context;
                    created_at = storage.datetime i.created_at;
                    updated_at = storage.datetime i.updated_at;
                  })
                  made),
      )
