-- ===== src/Incident/Mysql/Single.antt =====
-- internal/incidentapi/mysql_store.go: what the methods that execute a single statement make of the
-- tables.
use graph_ops.Base.{ℕ, Bool-cases, inl, inr, suc, String, ◌≡◌, refl, ◌∙◌, some, true, Option, none}
use graph_ops.Base.Result.{Result, ok, err}
use graph_ops.Base.Value.{Clock}
use graph_ops.Incident.Types.{Incident, FinalReport}
use graph_ops.Incident.Requests.{
  UpsertReportRequest, RecordIncidentEventRequest, RecordAgentRunRequest,
}
use graph_ops.Incident.Repository.{StoreError, failed}
use graph_ops.Incident.Store.{receipt_status}
use graph_ops.Incident.Mysql.Database.{
  Database, Encoding, update_report, insert_event, insert_agent_run,
}
use graph_ops.Incident.Mysql.Writes.{
  save_report, saved_report, update_and_get, record_event, record_agent_run,
}
use graph_ops.Incident.Mysql.Tables.{perform, Tables, Storage, update_incident, knows, set_report}
use graph_ops.Incident.Mysql.Server.{Behaves}
use graph_ops.Incident.Mysql.Effects.{
  with_event, with_agent_run, event_inserted, agent_run_inserted, update_incident-unknown,
  report_updated-knows, report_updated,
}
use graph_ops.Incident.Mysql.Atomic.{Leaves, get_applied}
use graph_ops.Incident.Mysql.Rules.{
  not_or_all, check_rule, exec_rule, rows_rule, last_rule, IsAtomic, nothing, all,
}
use graph_ops.Base.Int.{ℤ, pos}

module _ (storage : Storage) (encoding : Encoding) (id : String) (clock : Clock) where
  -- The tables with a saved report, of an incident that is there.
  abbrev pub Reported : Option FinalReport → Tables → Tables → Type 0
  Reported report t t' =
      (saved : FinalReport) × (payload : String) × (report ≡ some saved)
      × (encoding.marshal_report saved ≡ ok payload)
      × (knows storage id t ≡ true)
      × (t'
          ≡ update_incident storage id
              (set_report storage (receipt_status saved.action_receipt) payload (clock 0)) t)

  -- The tables with one more event, of an incident that is there.
  abbrev pub EventRecorded : RecordIncidentEventRequest → Tables → Tables → Type 0
  EventRecorded req t t' =
      (n : ℤ) × (payload : String) × (encoding.marshal_object req.payload ≡ ok payload)
      × (knows storage id t ≡ true)
      × (t' ≡ with_event storage n id req payload (clock 0) t)

  -- The tables with one more run, of an incident that is there.
  abbrev pub AgentRunRecorded : RecordAgentRunRequest → Tables → Tables → Type 0
  AgentRunRecorded req t t' =
      (n : ℤ) × (input output : String) × (encoding.marshal_object req.input ≡ ok input)
      × (encoding.marshal_object req.output ≡ ok output)
      × (knows storage id t ≡ true)
      × (t' ≡ with_agent_run storage n id req input output (clock 0) t)

module _ {D : Type 0} (storage : Storage) (db : Database D) (laws : Behaves storage db)
    (encoding : Encoding) (id : String) (clock : Clock) where
  -- An UPDATE that fails after it has been executed has changed what it was to change, or nothing.
  updated_or_same :
      (report : FinalReport) (payload : String) (e : StoreError) (t t' : Tables)
      → encoding.marshal_report report ≡ ok payload
      → t'
        ≡ update_incident storage id
            (set_report storage (receipt_status report.action_receipt) payload (clock 0))
            t
      → IsAtomic {A = Incident} (Reported storage encoding id clock (some report) t) t (err e) t'
  updated_or_same report payload e t t' marshalled updated =
      elim (Bool-cases (knows storage id t)) [
        | inl known ↦ all (report, payload, refl, marshalled, known, updated)
        | inr unknown ↦ nothing e refl (updated ∙ update_incident-unknown storage id _ t unknown)
      ]

  -- `SaveReport` leaves the report, the status that its receipt asks for and the time in an incident
  -- that is there; or it returns an error and leaves the tables as they were, as it always does
  -- without a report. (An error may also be returned after the change has been made.) If it gives
  -- back an incident, that is the one then in the tables.
  pub save_report-IsAtomic :
      (req : UpsertReportRequest) (d : D)
      → Leaves storage db laws encoding id
          (Reported storage encoding id clock req.report (laws.tables d))
          (laws.tables d)
          (save_report db encoding id req clock d).0
          (save_report db encoding id req clock d).1
  unfolding save_report saved_report update_and_get
  save_report-IsAtomic req d = go req.report
    where
      go :
          (report : Option FinalReport)
          → Leaves storage db laws encoding id
              (Reported storage encoding id clock report (laws.tables d))
              (laws.tables d)
              (saved_report db encoding id report clock d).0
              (saved_report db encoding id report clock d).1
      go none = (nothing _ refl refl, λ i h. cc)
      go (some report) =
          let Q : Result StoreError Incident → D → Type 0 =
            Leaves storage db laws encoding id
              (Reported storage encoding id clock (some report) (laws.tables d)) (laws.tables d) in
          check_rule Q (encoding.marshal_report report) _ d
            (λ e h. (nothing _ refl refl, λ i h. cc))
            (λ payload marshalled.
              exec_rule storage db laws Q
                (update_report (receipt_status report.action_receipt) payload (clock 0) id) _ d
                (λ e d' kept unknown. (
                  not_or_all _ _ _ (failed e) unknown (λ (n, performed).
                      updated_or_same report payload (failed e) _ _ marshalled (
                        report_updated storage n _ payload (clock 0) id (laws.tables d)
                          (laws.tables d') performed)),
                  λ i h. cc,
                ))
                (λ a d' n kept performed counted.
                  let updated =
                    report_updated storage n _ payload (clock 0) id (laws.tables d) (laws.tables d')
                      performed in
                  rows_rule Q a _ d'
                    (λ e. (updated_or_same report payload e _ _ marshalled updated, λ i h. cc))
                    (λ k found. get_applied storage db laws encoding id _ _ d' (
                      report,
                      payload,
                      refl,
                      marshalled,
                      report_updated-knows storage _ payload (clock 0) id (laws.tables d) k
                          (counted (suc k) found),
                      updated,
                    ))))

  pub record_event-IsAtomic :
      (req : RecordIncidentEventRequest) (d : D)
      → IsAtomic
          (EventRecorded storage encoding id clock req (laws.tables d))
          (laws.tables d)
          (record_event db encoding id req clock d).0
          (laws.tables (record_event db encoding id req clock d).1)
  unfolding record_event
  record_event-IsAtomic req d =
      let Q : Result StoreError (Unit {0}) → D → Type 0 = λ r d'.
        IsAtomic (EventRecorded storage encoding id clock req (laws.tables d)) (laws.tables d) r
          (laws.tables d') in
      check_rule Q (encoding.marshal_object req.payload) _ d (λ e h. nothing _ refl refl)
        (λ payload marshalled.
          let done : (d' : D)
              → (n : ℕ)
              → perform storage n
                  (insert_event id req.event_type req.actor_type req.actor_name payload (clock 0))
                  (laws.tables d)
                ≡ some (laws.tables d')
              → EventRecorded storage encoding id clock req (laws.tables d) (laws.tables d') =
            λ d' n performed.
              let (known, inserted) =
                event_inserted storage n id req payload (clock 0) (laws.tables d) (laws.tables d')
                  performed in
              (pos n, payload, marshalled, known, inserted) in
          exec_rule storage db laws Q
            (insert_event id req.event_type req.actor_type req.actor_name payload (clock 0)) _ d
            (λ e d' kept unknown.
              not_or_all _ _ _ (failed e) unknown (λ (n, performed). all (done d' n performed)))
            (λ a d' n kept performed counted.
              last_rule Q a d' (λ e. all (done d' n performed)) (all (done d' n performed))))

  pub record_agent_run-IsAtomic :
      (req : RecordAgentRunRequest) (d : D)
      → IsAtomic
          (AgentRunRecorded storage encoding id clock req (laws.tables d))
          (laws.tables d)
          (record_agent_run db encoding id req clock d).0
          (laws.tables (record_agent_run db encoding id req clock d).1)
  unfolding record_agent_run
  record_agent_run-IsAtomic req d =
      let Q : Result StoreError (Unit {0}) → D → Type 0 = λ r d'.
        IsAtomic (AgentRunRecorded storage encoding id clock req (laws.tables d)) (laws.tables d) r
          (laws.tables d') in
      check_rule Q (encoding.marshal_object req.input) _ d (λ e h. nothing _ refl refl)
        (λ input is_input.
          check_rule Q (encoding.marshal_object req.output) _ d (λ e h. nothing _ refl refl)
            (λ output is_output.
              let done : (d' : D)
                  → (n : ℕ)
                  → perform storage n
                      (insert_agent_run id req.node_name req.model_name req.prompt_version input
                        output req.latency_ms req.status req.checkpoint_id (clock 0))
                      (laws.tables d)
                    ≡ some (laws.tables d')
                  → AgentRunRecorded storage encoding id clock req (laws.tables d)
                      (laws.tables d') =
                λ d' n performed.
                  let (known, inserted) =
                    agent_run_inserted storage n id req input output (clock 0) (laws.tables d)
                      (laws.tables d') performed in
                  (pos n, input, output, is_input, is_output, known, inserted) in
              exec_rule storage db laws Q
                (insert_agent_run id req.node_name req.model_name req.prompt_version input output
                  req.latency_ms req.status req.checkpoint_id (clock 0))
                _ d
                (λ e d' kept unknown.
                  not_or_all _ _ _ (failed e) unknown (λ (n, performed). all (done d' n performed)))
                (λ a d' n kept performed counted.
                  last_rule Q a d' (λ e. all (done d' n performed)) (all (done d' n performed)))))

  -- `RecordEvent` and `RecordAgentRun` each add one row with the request's fields to the history of
  -- an incident that is there, or they return an error and leave the tables as they were. (An error
  -- may also be returned after the row has been added.)
  pub history-IsAtomic :
      (event : RecordIncidentEventRequest) (run : RecordAgentRunRequest) (d : D)
      → IsAtomic
          (EventRecorded storage encoding id clock event (laws.tables d))
          (laws.tables d)
          (record_event db encoding id event clock d).0
          (laws.tables (record_event db encoding id event clock d).1)
        × IsAtomic
            (AgentRunRecorded storage encoding id clock run (laws.tables d))
            (laws.tables d)
            (record_agent_run db encoding id run clock d).0
            (laws.tables (record_agent_run db encoding id run clock d).1)
  history-IsAtomic event run d = (record_event-IsAtomic event d, record_agent_run-IsAtomic run d)
