-- ===== src/Incident/Examples/Mysql.antt =====
-- internal/incidentapi/mysql_store.go: a small database that behaves as the store relies on.
mod Changes
mod Results
mod Success
use mathlib.Core.Path.{subst}
use graph_ops.Base.Sort.{sort_by, take}
use graph_ops.Incident.Mysql.Listing.{
  listing_text, listing_arguments, is_newer, asked_rows, IsSelected, sorted-IsSelected,
}
use graph_ops.Incident.Mysql.Database.{Argument, text, integer}
use graph_ops.Base.{
  ℕ, ◌≤◌, String, ◌==◌, ◌≡◌, ◌⊎◌, refl, sym, ap, ◌∙◌, inl, Option, none, some, true, false, List,
  [], ◌∷◌, ◌++◌, arith, map, if◌then◌else◌,
}
use graph_ops.Base.Result.{Result, ok, err}
use graph_ops.Base.Rows.{find_row, update_rows, upsert_row, keep_rows, count_rows}
use graph_ops.Base.Slice.{nil_slice, slice, items}
use graph_ops.Base.Value.{Clock, Float64, unix_nano}
use graph_ops.Incident.Examples.{
  checkout_context, checkout_request, diagnosis, fix_plan, recovery, recovery_report, ann, note,
  node_run, noon, morning,
}
use graph_ops.Incident.Types.{Evidence, AnalysisSnapshot, Incident}
use graph_ops.Incident.Requests.{UpsertAnalysisRequest, ListIncidentsRequest}
use graph_ops.Incident.Mysql.Database.{Database, Encoding, Statement, Rows, IncidentColumns}
use graph_ops.Incident.Mysql.Tables.{
  Tables, Storage, is_incident, is_approval_of, events_of, agent_runs_of, perform, most_affected,
}
use graph_ops.Incident.Store.{receipt_status, new_incident}
use graph_ops.Incident.Mysql.RoundTrip.{create_incident-get_incident}
use graph_ops.Incident.Types.{IncidentContext}
use graph_ops.Base.Int.{pos, to_int64}
use graph_ops.Base.Decimal.{signed_decimal}
use graph_ops.Incident.Types.{FinalReport}
use graph_ops.Incident.Mysql.Calls.{marshal_json, transaction, rows_affected}
use graph_ops.Incident.Mysql.Reads.{
  decode_text, decode_column, to_incident, get_incident, list_incidents, list_events,
  list_agent_runs,
}
use graph_ops.Incident.Mysql.Writes.{
  incident_id, create_incident, analysis_status, snapshot, insert_items, analysis_body,
  save_analysis, save_report, saved_report, update_and_get, review_body, review_incident,
  record_event, record_agent_run,
}
use graph_ops.Incident.Mysql.Bodies.{Analysed, Reviewed}
use graph_ops.Incident.Mysql.Rules.{IsAtomic}
use graph_ops.Incident.Mysql.Found.{IsFound}
use graph_ops.Incident.Mysql.Atomic.{Leaves, save_analysis-IsAtomic, review_incident-IsAtomic}
use graph_ops.Incident.Mysql.Single.{
  Reported, EventRecorded, AgentRunRecorded, save_report-IsAtomic, history-IsAtomic,
}
use graph_ops.Incident.Mysql.Outcomes.{Refuses, unknown_incident-Refuses}
use graph_ops.Incident.Mysql.ReadBack.{
  save_analysis_gives, save_report_gives, review_incident_gives,
}
use graph_ops.Incident.Mysql.Server.{Behaves, decisions}

abbrev as_written : Storage
as_written = record { same = λ a b. a == b; json = λ s. s; datetime = λ t. t }

-- The tables now, and at the beginning of the transaction.
abbrev Server : Type 0
Server = Tables × Tables

abbrev after_exec : Option Tables → ℕ → Server → Result String (Result String ℕ) × Server
after_exec none found d = (err "constraint", d)
after_exec (some t) found (before, saved) = (ok (ok found), (t, saved))

abbrev execute : Statement → Server → Result String (Result String ℕ) × Server
execute s d = after_exec (perform as_written 7 s d.0) (most_affected as_written s d.0) d

abbrev listed : Option String → Option String → ℕ → Tables → List String
listed service status limit t =
    map (λ row. row.id) (take limit (sort_by is_newer (asked_rows as_written service status t)))

-- A query for ids is told by its arguments, and one with one filter by its text.
abbrev answer_query : String → List Argument → Tables → List String
answer_query query (integer (pos n) ∷ []) t = listed none none n t
answer_query query (text a ∷ integer (pos n) ∷ []) t =
    if query == listing_text (some "") none
    then listed (some a) none n t
    else listed none (some a) n t
answer_query query (text a ∷ text b ∷ integer (pos n) ∷ []) t = listed (some a) (some b) n t
answer_query query _ t = []

abbrev server : Database Server
server = record {
  begin_tx = λ (t, saved). (ok tt, (t, t));
  commit = λ d. (ok tt, d);
  rollback = λ (t, saved). (saved, saved);
  exec = execute;
  select_incident = λ id d. (ok (find_row (is_incident as_written id) d.0.incidents), d);
  select_approval =
      λ id d. (ok (decisions (find_row (is_approval_of as_written id) d.0.approvals)), d);
  query_ids = λ query arguments d.
      (ok (record { read = answer_query query arguments d.0; failure = none }), d);
  select_events = λ id d. (ok (record { read = events_of as_written id d.0; failure = none }), d);
  select_agent_runs =
      λ id d. (ok (record { read = agent_runs_of as_written id d.0; failure = none }), d);
}

execute-ok :
    (s : Statement) (d d' : Server) (affected : Result String ℕ)
    → ◌≡◌ {A = Result String (Result String ℕ) × Server} (execute s d) (ok affected, d')
    → (d'.1 ≡ d.1)
      × ((n : ℕ) × (perform as_written n s d.0 ≡ some d'.0))
      × ((k : ℕ) → affected ≡ ok k → k ≤ most_affected as_written s d.0)
execute-ok s d d' affected h = go (perform as_written 7 s d.0) refl h
  where
    go :
        (t : Option Tables)
        → perform as_written 7 s d.0 ≡ t
        → ◌≡◌ {A = Result String (Result String ℕ) × Server}
            (after_exec t (most_affected as_written s d.0) d)
            (ok affected, d')
        → (d'.1 ≡ d.1)
          × ((n : ℕ) × (perform as_written n s d.0 ≡ some d'.0))
          × ((k : ℕ) → affected ≡ ok k → k ≤ most_affected as_written s d.0)
    go none eq out =
        let never : ◌≡◌ {A = Result String (Result String ℕ)} (err "constraint") (ok affected) =
          ap {A = Result String (Result String ℕ) × Server} (λ o. o.0) out in
        cc
    go (some t) eq out =
        let rows : t ≡ d'.0 = ap {A = Result String (Result String ℕ) × Server} (λ o. o.1.0) out in
        let saved : d.1 ≡ d'.1 =
          ap {A = Result String (Result String ℕ) × Server} (λ o. o.1.1) out in
        let number : ◌≡◌ {A = Result String (Result String ℕ)}
            (ok (ok (most_affected as_written s d.0))) (ok affected) =
          ap {A = Result String (Result String ℕ) × Server} (λ o. o.0) out in
        (
          sym saved,
          (7, eq ∙ ap some rows),
          λ k counted. let same : most_affected as_written s d.0 ≡ k = cc in omega arith,
        )

execute-err :
    (s : Statement) (d d' : Server) (e : String)
    → ◌≡◌ {A = Result String (Result String ℕ) × Server} (execute s d) (err e, d')
    → (d'.1 ≡ d.1) × ((d'.0 ≡ d.0) ⊎ ((n : ℕ) × (perform as_written n s d.0 ≡ some d'.0)))
execute-err s d d' e h = go (perform as_written 7 s d.0) h
  where
    go :
        (t : Option Tables)
        → ◌≡◌ {A = Result String (Result String ℕ) × Server}
            (after_exec t (most_affected as_written s d.0) d)
            (err e, d')
        → (d'.1 ≡ d.1) × ((d'.0 ≡ d.0) ⊎ ((n : ℕ) × (perform as_written n s d.0 ≡ some d'.0)))
    go none out =
        let same : d ≡ d' = ap {A = Result String (Result String ℕ) × Server} (λ o. o.1) out in
        (ap {A = Server} (λ o. o.1) (sym same), inl (ap {A = Server} (λ o. o.0) (sym same)))
    go (some t) out =
        let never : ◌≡◌ {A = Result String (Result String ℕ)}
            (ok (ok (most_affected as_written s d.0))) (err e) =
          ap {A = Result String (Result String ℕ) × Server} (λ o. o.0) out in
        cc

-- What a call that gives `r` and leaves the state leaves of the tables.
same_tables :
    {A : Type 0} (d d' : Server) (r r' : Result String A)
    → ◌≡◌ {A = Result String A × Server} (r, d) (r', d')
    → d'.0 ≡ d.0
same_tables {A} d d' r r' h =
    let same : d ≡ d' = ap {A = Result String A × Server} (λ o. o.1) h in
    ap {A = Server} (λ o. o.0) (sym same)

gives :
    {A : Type 0} (d d' : Server) (a : A) (r : Result String A)
    → ◌≡◌ {A = Result String A × Server} (ok a, d) (r, d')
    → (b : A) → r ≡ ok b
    → b ≡ a
gives {A} d d' a r h b given =
    let value : ok a ≡ r = ap {A = Result String A × Server} (λ o. o.0) h in cc

answer_query-IsSelected :
    (service status : Option String) (limit : ℕ) (t : Tables)
    → IsSelected as_written service status limit t
        (answer_query (listing_text service status) (listing_arguments service status limit) t)
answer_query-IsSelected none none limit t = sorted-IsSelected as_written none none limit t
answer_query-IsSelected (some a) none limit t = sorted-IsSelected as_written (some a) none limit t
answer_query-IsSelected none (some b) limit t = sorted-IsSelected as_written none (some b) limit t
answer_query-IsSelected (some a) (some b) limit t =
    sorted-IsSelected as_written (some a) (some b) limit t

abbrev server_laws : Behaves as_written server
server_laws = record {
  tables = λ d. d.0;
  saved = λ d. d.1;
  begin_tx = λ d d' r h.
      let now : d.0 ≡ d'.0 = ap {A = Result String (Unit {0}) × Server} (λ o. o.1.0) h in
      let kept : d.0 ≡ d'.1 = ap {A = Result String (Unit {0}) × Server} (λ o. o.1.1) h in
      (sym now, sym kept);
  exec_ok = execute-ok;
  exec_err = execute-err;
  commit_ok = λ d d' h. same_tables d d' _ _ h;
  commit_err = λ d d' e h. inl (same_tables d d' _ _ h);
  rollback = λ d. refl;
  select_incident = λ id d d' r h. (same_tables d d' _ r h, gives d d' _ r h);
  select_approval = λ id d d' r h. (same_tables d d' _ r h, gives d d' _ r h);
  query_ids = λ query arguments d d' r h. same_tables d d' _ r h;
  list_ids = λ service status limit d d' r h rows given complete.
      subst (IsSelected as_written service status limit d.0)
        (ap (λ rows. rows.read) (sym (gives d d' _ r h rows given)))
        (answer_query-IsSelected service status limit d.0);
  select_events = λ id d d' r h. (
    same_tables d d' _ r h,
    λ rows given complete. ap (λ rows. rows.read) (gives d d' _ r h rows given),
  );
  select_agent_runs = λ id d d' r h. (
    same_tables d d' _ r h,
    λ rows given complete. ap (λ rows. rows.read) (gives d d' _ r h rows given),
  );
}

-- An encoding that tells apart what the calls below store.
abbrev plain : Encoding
plain = record {
  marshal_context = λ c. ok "context";
  marshal_analysis = λ a. ok "analysis";
  marshal_report = λ r. ok "report";
  marshal_object = λ o. ok "object";
  unmarshal_context = λ s. ok checkout_context;
  unmarshal_analysis = λ s.
      ok (record { evidence = nil_slice; hypotheses = nil_slice; proposed_action = some fix_plan });
  unmarshal_report = λ s. ok recovery_report;
  unmarshal_object = λ s. ok none;
}

abbrev logs : Evidence
logs = record {
  evidence_id = "ev-1";
  source_type = "log";
  source_ref = "loki";
  summary = "timeouts";
  confidence = record { bits = 0 };
}

abbrev two_findings : UpsertAnalysisRequest
two_findings = record diagnosis {
  evidence = slice (logs ∷ record logs { evidence_id = "ev-2" } ∷ []);
}

abbrev stored_row : IncidentColumns
stored_row = record {
  id = "inc-7";
  service_name = "checkout";
  severity = "critical";
  alert_summary = "5xx after release";
  playbook_key = some "";
  context_json = some "context";
  status = "created";
  analysis_json = none;
  report_json = none;
  created_at = morning;
  updated_at = morning;
}

abbrev stored : Server
stored =
    let t : Tables = record {
      incidents = stored_row ∷ [];
      approvals = [];
      evidence = [];
      events = [];
      agent_runs = [];
    } in
    (t, t)
