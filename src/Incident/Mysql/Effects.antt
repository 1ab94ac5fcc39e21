-- ===== src/Incident/Mysql/Effects.antt =====
-- internal/incidentapi/mysql_store.go: what the statements of its writing methods make of the
-- tables, under the hypotheses on the database.
use graph_ops.Base.{ℕ, suc, ◌≤◌, String, ◌≡◌, true, false, some, not, List, [], ◌∷◌, ◌++◌}
use mathlib.Core.List.{append_assoc}
use graph_ops.Base.Int.{ℤ, pos}
use graph_ops.Base.Rows.{keep_rows, upsert_row, update_rows-none}
use graph_ops.Base.Slice.{items}
use graph_ops.Base.Value.{Time, Clock}
use graph_ops.Incident.Types.{Evidence}
use graph_ops.Incident.Requests.{
  ReviewIncidentRequest, UpsertAnalysisRequest, RecordIncidentEventRequest, RecordAgentRunRequest,
}
use graph_ops.Incident.Mysql.Database.{
  IncidentColumns, delete_evidence, update_analysis, update_status, update_report, upsert_approval,
  insert_event, insert_agent_run,
}
use graph_ops.Incident.Mysql.Writes.{analysis_status, evidence_statement}
use graph_ops.Incident.Mysql.Tables.{
  Tables, Storage, EvidenceRow, is_evidence_of, is_approval_of, knows, set_analysis, set_report,
  set_status, approval_row, perform, most_affected, update_incident,
}
use graph_ops.Incident.Mysql.Rules.{insert_if-some, count_rows-any}

module _ (storage : Storage) where
  -- The rows of a list of evidence; `k` is the number of the first reading of the clock.
  abbrev pub evidence_rows : String → List Evidence → ℕ → Clock → List EvidenceRow
  evidence_rows id [] k clock = []
  evidence_rows id (item ∷ rest) k clock =
      record {
        incident_id = id;
        evidence_id = item.evidence_id;
        source_type = item.source_type;
        source_ref = item.source_ref;
        summary = item.summary;
        confidence = item.confidence;
        created_at = storage.datetime (clock k);
      }
      ∷ evidence_rows id rest (suc k) clock

  abbrev pub with_evidence : Tables → List EvidenceRow → Tables
  with_evidence t rows = record t { evidence = t.evidence ++ rows }

  abbrev pub without_evidence : String → Tables → Tables
  without_evidence id t = record t {
    evidence = keep_rows (λ row. not (is_evidence_of storage id row)) t.evidence;
  }

  -- The tables after an analysis has been saved with the text `payload`: the incident has the status,
  -- the analysis and the time, and its evidence is that of the request.
  abbrev pub analysed : String → UpsertAnalysisRequest → Clock → String → Tables → Tables
  analysed id req clock payload t =
      with_evidence
        (without_evidence id (
          update_incident storage id (set_analysis storage (analysis_status req) payload (clock 0))
            t))
        (evidence_rows id (items req.evidence) 1 clock)

  abbrev pub with_approval : String → String → String → String → Time → Tables → Tables
  with_approval id status reviewer comment now t = record t {
    approvals =
        upsert_row (is_approval_of storage id) (approval_row storage id status reviewer comment now)
          t.approvals;
  }

  -- The tables after a review: the incident has the status and the time, and there is one decision.
  abbrev pub reviewed : String → String → ReviewIncidentRequest → Clock → Tables → Tables
  reviewed id status req clock t =
      with_approval id status req.reviewer req.comment (clock 1)
        (update_incident storage id (set_status storage status (clock 0)) t)

  pub with_evidence-cons :
      (t t' t'' : Tables) (row : EvidenceRow) (rows : List EvidenceRow)
      → t' ≡ with_evidence t (row ∷ [])
      → t'' ≡ with_evidence t' rows
      → t'' ≡ with_evidence t (row ∷ rows)
  with_evidence-cons t t' t'' row rows first rest = rw (rest, first, append_assoc)

  pub evidence_inserted :
      (n : ℕ) (id : String) (item : Evidence) (k : ℕ) (clock : Clock) (t t' : Tables)
      → perform storage n (evidence_statement id item (clock k)) t ≡ some t'
      → (knows storage id t ≡ true) × (t' ≡ with_evidence t (evidence_rows id (item ∷ []) k clock))
  unfolding perform
  evidence_inserted n id item k clock t t' h = insert_if-some (knows storage id t) _ t' h

  pub evidence_deleted :
      (n : ℕ) (id : String) (t t' : Tables)
      → perform storage n (delete_evidence id) t ≡ some t'
      → t' ≡ without_evidence id t
  unfolding perform
  evidence_deleted n id t t' h = cc

  pub analysis_updated :
      (n : ℕ) (status payload : String) (now : Time) (id : String) (t t' : Tables)
      → perform storage n (update_analysis status payload now id) t ≡ some t'
      → t' ≡ update_incident storage id (set_analysis storage status payload now) t
  unfolding perform
  analysis_updated n status payload now id t t' h = cc

  pub status_updated :
      (n : ℕ) (status : String) (now : Time) (id : String) (t t' : Tables)
      → perform storage n (update_status status now id) t ≡ some t'
      → t' ≡ update_incident storage id (set_status storage status now) t
  unfolding perform
  status_updated n status now id t t' h = cc

  pub approval_upserted :
      (n : ℕ) (id status reviewer comment : String) (now : Time) (t t' : Tables)
      → perform storage n (upsert_approval id status reviewer comment now) t ≡ some t'
      → (knows storage id t ≡ true) × (t' ≡ with_approval id status reviewer comment now t)
  unfolding perform
  approval_upserted n id status reviewer comment now t t' h =
      insert_if-some (knows storage id t) _ t' h

  -- An UPDATE that has found a row: there is such an incident.
  pub analysis_updated-knows :
      (status payload : String) (now : Time) (id : String) (t : Tables) (k : ℕ)
      → suc k ≤ most_affected storage (update_analysis status payload now id) t
      → knows storage id t ≡ true
  unfolding most_affected
  analysis_updated-knows status payload now id t k h = count_rows-any _ t.incidents k h

  pub report_updated-knows :
      (status payload : String) (now : Time) (id : String) (t : Tables) (k : ℕ)
      → suc k ≤ most_affected storage (update_report status payload now id) t
      → knows storage id t ≡ true
  unfolding most_affected
  report_updated-knows status payload now id t k h = count_rows-any _ t.incidents k h

  pub status_updated-knows :
      (status : String) (now : Time) (id : String) (t : Tables) (k : ℕ)
      → suc k ≤ most_affected storage (update_status status now id) t
      → knows storage id t ≡ true
  unfolding most_affected
  status_updated-knows status now id t k h = count_rows-any _ t.incidents k h

  pub report_updated :
      (n : ℕ) (status payload : String) (now : Time) (id : String) (t t' : Tables)
      → perform storage n (update_report status payload now id) t ≡ some t'
      → t' ≡ update_incident storage id (set_report storage status payload now) t
  unfolding perform
  report_updated n status payload now id t t' h = cc

  -- The tables with one more event or run, of an incident that is there.
  abbrev pub with_event : ℤ → String → RecordIncidentEventRequest → String → Time → Tables → Tables
  with_event n id req payload now t = record t {
    events =
        t.events
        ++ record {
          id = n;
          incident_id = id;
          event_type = req.event_type;
          actor_type = req.actor_type;
          actor_name = req.actor_name;
          payload_json = storage.json payload;
          created_at = storage.datetime now;
        }
          ∷ [];
  }

  abbrev pub with_agent_run :
      ℤ → String → RecordAgentRunRequest → String → String → Time → Tables → Tables
  with_agent_run n id req input output now t = record t {
    agent_runs =
        t.agent_runs
        ++ record {
          id = n;
          incident_id = id;
          node_name = req.node_name;
          model_name = req.model_name;
          prompt_version = req.prompt_version;
          input_json = storage.json input;
          output_json = storage.json output;
          latency_ms = req.latency_ms;
          status = req.status;
          checkpoint_id = req.checkpoint_id;
          created_at = storage.datetime now;
        }
          ∷ [];
  }

  pub event_inserted :
      (n : ℕ) (id : String) (req : RecordIncidentEventRequest) (payload : String) (now : Time)
      (t t' : Tables)
      → perform storage n
          (insert_event id req.event_type req.actor_type req.actor_name payload now)
          t
        ≡ some t'
      → (knows storage id t ≡ true) × (t' ≡ with_event (pos n) id req payload now t)
  unfolding perform
  event_inserted n id req payload now t t' h = insert_if-some (knows storage id t) _ t' h

  pub agent_run_inserted :
      (n : ℕ) (id : String) (req : RecordAgentRunRequest) (input output : String) (now : Time)
      (t t' : Tables)
      → perform storage n
          (insert_agent_run id req.node_name req.model_name req.prompt_version input output
            req.latency_ms req.status req.checkpoint_id now)
          t
        ≡ some t'
      → (knows storage id t ≡ true) × (t' ≡ with_agent_run (pos n) id req input output now t)
  unfolding perform
  agent_run_inserted n id req input output now t t' h = insert_if-some (knows storage id t) _ t' h

  -- An UPDATE of an incident that is not there changes nothing.
  pub update_incident-unknown :
      (id : String) (change : IncidentColumns → IncidentColumns) (t : Tables)
      → knows storage id t ≡ false
      → update_incident storage id change t ≡ t
  update_incident-unknown id change t h = rw (update_rows-none _ change t.incidents h)
