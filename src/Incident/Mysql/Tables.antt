-- ===== src/Incident/Mysql/Tables.antt =====
-- What internal/incidentapi/mysql_store.go relies on of its database, as hypotheses: the tables of
-- sql/migrations/001_init.sql and what the store's statements do to them.
use graph_ops.Base.{ℕ, String, Option, none, some, Bool, true, false, not, List, [], ◌∷◌, ◌++◌}
use graph_ops.Base.Int.{pos, ltb_ℤ}
use graph_ops.Base.Sort.{sort_by}
use graph_ops.Base.Rows.{any_row, keep_rows, update_rows, upsert_row, count_rows}
use graph_ops.Base.Value.{Float64, Time}
use graph_ops.Incident.Types.{ApprovalDecision}
use graph_ops.Incident.Mysql.Database.{
  IncidentColumns, EventColumns, AgentRunColumns, Statement, insert_incident, update_analysis,
  delete_evidence, insert_evidence, update_report, update_status, upsert_approval, insert_event,
  insert_agent_run,
}

pub record ApprovalRow : Type 0 where
  pub incident_id : String
  pub decision : ApprovalDecision

pub record EvidenceRow : Type 0 where
  pub incident_id : String
  pub evidence_id : String
  pub source_type : String
  pub source_ref : String
  pub summary : String
  pub confidence : Float64
  pub created_at : Time

-- The tables, each in the order of insertion. `playbook_key` is `COALESCE(playbook_key,
-- scenario_key, '')`.
pub record Tables : Type 0 where
  pub incidents : List IncidentColumns
  pub approvals : List ApprovalRow
  pub evidence : List EvidenceRow
  pub events : List EventColumns
  pub agent_runs : List AgentRunColumns

-- What columns make of what is written: `same` is the equality of the collation, which may take
-- upper and lower case for one; a JSON column lays its text out anew; `DATETIME(6)` keeps
-- microseconds.
pub record Storage : Type 0 where
  pub same : String → String → Bool
  pub json : String → String
  pub datetime : Time → Time

-- A row that would violate a foreign key or a key is refused.
abbrev pub insert_if {ℓ} : {A : Type ℓ} → Bool → A → Option A
insert_if true a = some a
insert_if false a = none

module _ (storage : Storage) where
  abbrev pub is_incident : String → IncidentColumns → Bool
  is_incident id row = storage.same row.id id

  abbrev pub is_approval_of : String → ApprovalRow → Bool
  is_approval_of id row = storage.same row.incident_id id

  abbrev pub is_evidence_of : String → EvidenceRow → Bool
  is_evidence_of id row = storage.same row.incident_id id

  -- The rows of an incident's history, by their numbers.
  abbrev pub events_of : String → Tables → List EventColumns
  events_of id t =
      sort_by (λ a b. ltb_ℤ a.id b.id) (keep_rows (λ row. storage.same row.incident_id id) t.events)

  abbrev pub agent_runs_of : String → Tables → List AgentRunColumns
  agent_runs_of id t =
      sort_by (λ a b. ltb_ℤ a.id b.id)
        (keep_rows (λ row. storage.same row.incident_id id) t.agent_runs)

  abbrev pub knows : String → Tables → Bool
  knows id t = any_row (is_incident id) t.incidents

  abbrev pub stored_json : Option String → Option String
  stored_json none = none
  stored_json (some s) = some (storage.json s)

  -- The incidents that an UPDATE by id changes.
  abbrev pub update_incident : String → (IncidentColumns → IncidentColumns) → Tables → Tables
  update_incident id change t = record t {
    incidents = update_rows (is_incident id) change t.incidents;
  }

  abbrev pub set_analysis : String → String → Time → IncidentColumns → IncidentColumns
  set_analysis status analysis now row = record row {
    status = status;
    analysis_json = some (storage.json analysis);
    updated_at = storage.datetime now;
  }

  abbrev pub set_report : String → String → Time → IncidentColumns → IncidentColumns
  set_report status report now row = record row {
    status = status;
    report_json = some (storage.json report);
    updated_at = storage.datetime now;
  }

  abbrev pub set_status : String → Time → IncidentColumns → IncidentColumns
  set_status status now row = record row { status = status; updated_at = storage.datetime now }

  abbrev pub approval_row : String → String → String → String → Time → ApprovalRow
  approval_row id status reviewer comment now = record {
    incident_id = id;
    decision = record {
      status = status;
      reviewer = reviewer;
      comment = comment;
      updated_at = storage.datetime now;
    };
  }

  -- A statement that succeeds, on the tables: none where a key or a foreign key is violated. `n` is
  -- the number that `AUTO_INCREMENT` gives to a new row.
  unfoldable pub perform : ℕ → Statement → Tables → Option Tables
  perform n (insert_incident id service severity summary playbook context status created updated)
        t =
      insert_if (not (knows id t)) (record t {
        incidents =
            t.incidents
            ++ record {
              id = id;
              service_name = service;
              severity = severity;
              alert_summary = summary;
              playbook_key = some playbook;
              context_json = stored_json context;
              status = status;
              analysis_json = none;
              report_json = none;
              created_at = storage.datetime created;
              updated_at = storage.datetime updated;
            }
              ∷ [];
      })
  perform n (update_analysis status analysis now id) t =
      some (update_incident id (set_analysis status analysis now) t)
  perform n (delete_evidence id) t =
      some (record t { evidence = keep_rows (λ row. not (is_evidence_of id row)) t.evidence })
  perform n (insert_evidence id evidence_id type' ref summary confidence now) t =
      insert_if (knows id t) (record t {
        evidence =
            t.evidence
            ++ record {
              incident_id = id;
              evidence_id = evidence_id;
              source_type = type';
              source_ref = ref;
              summary = summary;
              confidence = confidence;
              created_at = storage.datetime now;
            }
              ∷ [];
      })
  perform n (update_report status report now id) t =
      some (update_incident id (set_report status report now) t)
  perform n (update_status status now id) t = some (update_incident id (set_status status now) t)
  perform n (upsert_approval id status reviewer comment now) t = insert_if (knows id t) (record t {
    approvals =
        upsert_row (is_approval_of id) (approval_row id status reviewer comment now) t.approvals;
  })
  perform n (insert_event id type' actor_type actor_name payload now) t =
      insert_if (knows id t) (record t {
        events =
            t.events
            ++ record {
              id = pos n;
              incident_id = id;
              event_type = type';
              actor_type = actor_type;
              actor_name = actor_name;
              payload_json = storage.json payload;
              created_at = storage.datetime now;
            }
              ∷ [];
      })
  perform n (insert_agent_run id node model prompt input output latency status checkpoint now) t =
      insert_if (knows id t) (record t {
        agent_runs =
            t.agent_runs
            ++ record {
              id = pos n;
              incident_id = id;
              node_name = node;
              model_name = model;
              prompt_version = prompt;
              input_json = storage.json input;
              output_json = storage.json output;
              latency_ms = latency;
              status = status;
              checkpoint_id = checkpoint;
              created_at = storage.datetime now;
            }
              ∷ [];
      })

  -- The most rows that `RowsAffected` can report: an UPDATE counts those of the rows found that it
  -- changes, a DELETE the rows that it removes, and ON DUPLICATE KEY UPDATE counts 1 for a new row, 2
  -- for a row that it changes.
  unfoldable pub most_affected : Statement → Tables → ℕ
  most_affected (update_analysis status analysis now id) t = count_rows (is_incident id) t.incidents
  most_affected (update_report status report now id) t = count_rows (is_incident id) t.incidents
  most_affected (update_status status now id) t = count_rows (is_incident id) t.incidents
  most_affected (delete_evidence id) t = count_rows (is_evidence_of id) t.evidence
  most_affected (upsert_approval id status reviewer comment now) t = 2
  most_affected _ t = 1
