-- ===== src/Incident/Mysql/Created.antt =====
-- internal/incidentapi/mysql_store.go: what `CreateIncident` adds to the tables.
use mathlib.Core.Path.{subst}
use graph_ops.Base.{Bool, ℕ, String, ◌≡◌, refl, some, true, false, not, Option, none, [], ◌∷◌, ◌++◌}
use graph_ops.Base.Result.{Result, ok, err}
use graph_ops.Base.Value.{Clock}
use graph_ops.Incident.Types.{Incident}
use graph_ops.Incident.Requests.{CreateIncidentRequest}
use graph_ops.Incident.Repository.{StoreError, failed}
use graph_ops.Incident.Store.{new_incident}
use graph_ops.Incident.Mysql.Database.{IncidentColumns, Database, Encoding, insert_incident}
use graph_ops.Incident.Mysql.Calls.{marshal_json}
use graph_ops.Incident.Mysql.Writes.{create_incident, incident_id}
use graph_ops.Incident.Mysql.Tables.{Tables, Storage, knows, perform}
use graph_ops.Incident.Mysql.Server.{Behaves}
use graph_ops.Incident.Mysql.Rules.{
  not_or_all, check_rule, exec_rule, IsAtomic, nothing, all, insert_if-some,
}

not-true : (b : Bool) → not b ≡ true → b ≡ false
not-true true h = cc
not-true false h = refl

marshal_json-some :
    {V : Type 0} (marshal : V → Result String String) (v : V) (column : Option String)
    → marshal_json marshal (some v) ≡ ok column
    → (payload : String) × (marshal v ≡ ok payload) × (column ≡ some payload)
unfolding marshal_json
marshal_json-some marshal v column h = go (marshal v) refl h
  where
    go :
        (r : Result String String)
        → marshal v ≡ r
        → (elim r [ ok payload ↦ ok (some payload) | err e ↦ err e ]) ≡ ok column
        → (payload : String) × (marshal v ≡ ok payload) × (column ≡ some payload)
    go (ok payload) eq h = (payload, eq, cc)
    go (err e) eq h = cc

module _ (storage : Storage) (encoding : Encoding) (req : CreateIncidentRequest)
    (clock : Clock) where
  abbrev pub created_id : String
  created_id = incident_id (clock 0)

  -- The row of a new incident; its context is a JSON text even where the request has none.
  abbrev pub created_row : String → IncidentColumns
  created_row payload = record {
    id = created_id;
    service_name = req.service_name;
    severity = req.severity;
    alert_summary = req.alert_summary;
    playbook_key = some req.playbook_key;
    context_json = some (storage.json payload);
    status = "created";
    analysis_json = none;
    report_json = none;
    created_at = storage.datetime (clock 0);
    updated_at = storage.datetime (clock 0);
  }

  -- The tables with one more incident, whose id was not in use.
  abbrev pub Created : Tables → Tables → Type 0
  Created t t' =
      (payload : String) × (encoding.marshal_context req.context ≡ ok payload)
      × (knows storage created_id t ≡ false)
      × (t' ≡ record t { incidents = t.incidents ++ created_row payload ∷ [] })

  incident_inserted :
      (n : ℕ) (payload : String) (t t' : Tables)
      → perform storage n
          (insert_incident created_id req.service_name req.severity req.alert_summary
            req.playbook_key
            (some payload)
            "created"
            (clock 0)
            (clock 0))
          t
        ≡ some t'
      → (knows storage created_id t ≡ false)
        × (t' ≡ record t { incidents = t.incidents ++ created_row payload ∷ [] })
  unfolding perform
  incident_inserted n payload t t' h =
      let (is_new, rows) = insert_if-some (not (knows storage created_id t)) _ t' h in
      (not-true _ is_new, rows)

module _ {D : Type 0} (storage : Storage) (db : Database D) (laws : Behaves storage db)
    (encoding : Encoding) (req : CreateIncidentRequest) (clock : Clock) where
  -- `CreateIncident` adds one row and gives back its incident, or it fails and adds none.
  pub create_incident-IsAtomic :
      (d : D)
      → IsAtomic
          (Created storage encoding req clock (laws.tables d))
          (laws.tables d)
          (create_incident db encoding req clock d).0
          (laws.tables (create_incident db encoding req clock d).1)
        × ((incident : Incident)
            → (create_incident db encoding req clock d).0 ≡ ok incident
            → incident ≡ new_incident (incident_id (clock 0)) req (clock 0))
  unfolding create_incident new_incident
  create_incident-IsAtomic d =
      let Q : Result StoreError Incident → D → Type 0 = λ r d'.
        IsAtomic (Created storage encoding req clock (laws.tables d)) (laws.tables d) r
          (laws.tables d')
        × ((incident : Incident)
            → r ≡ ok incident
            → incident ≡ new_incident (incident_id (clock 0)) req (clock 0)) in
      check_rule Q (marshal_json encoding.marshal_context (some req.context)) _ d
        (λ e h. (nothing _ refl refl, λ i h. cc))
        (λ column marshalled.
          let (payload, is_payload, is_column) =
            marshal_json-some encoding.marshal_context req.context column marshalled in
          let done : (d' : D)
              → (n : ℕ)
              → perform storage n
                  (insert_incident (incident_id (clock 0)) req.service_name req.severity
                    req.alert_summary req.playbook_key column "created" (clock 0) (clock 0))
                  (laws.tables d)
                ≡ some (laws.tables d')
              → Created storage encoding req clock (laws.tables d) (laws.tables d') =
            λ d' n performed.
              let (is_new, rows) =
                incident_inserted storage encoding req clock n payload (laws.tables d)
                  (laws.tables d')
                  (subst
                    (λ c.
                      perform storage n
                        (insert_incident (incident_id (clock 0)) req.service_name req.severity
                          req.alert_summary req.playbook_key c "created" (clock 0) (clock 0))
                        (laws.tables d)
                      ≡ some (laws.tables d'))
                    is_column performed) in
              (payload, is_payload, is_new, rows) in
          exec_rule storage db laws Q
            (insert_incident (incident_id (clock 0)) req.service_name req.severity req.alert_summary
              req.playbook_key column "created" (clock 0) (clock 0))
            _ d
            (λ e d' kept unknown. (
              not_or_all _ _ _ (failed e) unknown (λ (n, performed). all (done d' n performed)),
              λ i h. cc,
            ))
            (λ a d' n kept performed counted. (all (done d' n performed), λ i h. cc)))
