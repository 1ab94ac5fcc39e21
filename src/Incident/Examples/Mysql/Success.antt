-- ===== src/Incident/Examples/Mysql/Success.antt =====
-- internal/incidentapi/mysql_store.go: the small database answers, so that an analysis is saved.
use graph_ops.Base.{
  ℕ, String, ◌≡◌, ◌≢◌, refl, ap, ◌∙◌, Bool, false, not, Option, none, some, List, [], ◌∷◌, arith,
}
use graph_ops.Base.Result.{Result, ok}
use graph_ops.Base.Rows.{any_row, keep_rows, count_rows}
use graph_ops.Incident.Mysql.Database.{
  IncidentColumns, Statement, insert_incident, update_analysis, delete_evidence, insert_evidence,
  update_report, update_status, upsert_approval, insert_event, insert_agent_run,
}
use graph_ops.Incident.Mysql.Reads.{get_incident}
use graph_ops.Incident.Mysql.Writes.{analysis_status, save_analysis}
use graph_ops.Incident.Mysql.Tables.{
  Tables, perform, most_affected, is_incident, is_evidence_of, update_incident, set_analysis,
}
use graph_ops.Incident.Mysql.Effects.{
  analysed, evidence_deleted, analysis_updated, report_updated, status_updated,
  update_incident-unknown,
}
use graph_ops.Incident.Mysql.Answers.{Answers}
use graph_ops.Incident.Mysql.Success.{save_analysis_saves}
use graph_ops.Incident.Examples.{noon}
use graph_ops.Incident.Examples.Mysql.{
  as_written, Server, after_exec, execute, server, server_laws, plain, two_findings, stored,
}

-- Rows of which none is counted.
count_rows-zero :
    {A : Type 0} (p : A → Bool) (xs : List A) → count_rows p xs ≡ 0 → any_row p xs ≡ false
count_rows-zero p [] h = refl
count_rows-zero p (x ∷ xs) h = ground (arith, count_rows-zero p xs)

keep_rows-all :
    {A : Type 0} (p : A → Bool) (xs : List A)
    → any_row p xs ≡ false
    → keep_rows (λ x. not (p x)) xs ≡ xs
keep_rows-all p [] h = refl
keep_rows-all p (x ∷ xs) h = ground (arith, keep_rows-all p xs)

update_none :
    (id : String) (change : IncidentColumns → IncidentColumns) (t : Tables)
    → count_rows (is_incident as_written id) t.incidents ≡ 0
    → update_incident as_written id change t ≡ t
update_none id change t h =
    update_incident-unknown as_written id change t (count_rows-zero _ t.incidents h)

-- A statement for which this database reports no row has changed nothing.
nothing_counted :
    (s : Statement) (t t' : Tables)
    → perform as_written 7 s t ≡ some t'
    → most_affected as_written s t ≡ 0
    → t' ≡ t
unfolding perform most_affected
nothing_counted (update_analysis status analysis now id) t t' h e =
    analysis_updated as_written 7 status analysis now id t t' h ∙ update_none id _ t e
nothing_counted (update_report status report now id) t t' h e =
    report_updated as_written 7 status report now id t t' h ∙ update_none id _ t e
nothing_counted (update_status status now id) t t' h e =
    status_updated as_written 7 status now id t t' h ∙ update_none id _ t e
nothing_counted (delete_evidence id) t t' h e =
    evidence_deleted as_written 7 id t t' h
    ∙ ap (λ rows. record t { evidence = rows })
        (keep_rows-all (is_evidence_of as_written id) t.evidence (count_rows-zero _ t.evidence e))
nothing_counted
      (insert_incident id service severity summary playbook context status created updated) t t' h
      e =
    absurd (omega arith)
nothing_counted (insert_evidence id evidence_id type' ref summary confidence now) t t' h e =
    absurd (omega arith)
nothing_counted (upsert_approval id status reviewer comment now) t t' h e = absurd (omega arith)
nothing_counted (insert_event id type' actor_type actor_name payload now) t t' h e =
    absurd (omega arith)
nothing_counted (insert_agent_run id node model prompt input output latency status checkpoint now) t
      t' h e =
    absurd (omega arith)

execute-answers :
    (s : Statement) (d : Server)
    → ((n : ℕ) → (t : Tables) × (perform as_written n s d.0 ≡ some t))
    → (k : ℕ) × (d' : Server) × ◌≡◌ {A = Result String (Result String ℕ) × Server}
        (execute s d)
        (ok (ok k), d')
      × (k ≡ 0 → d'.0 ≡ d.0)
execute-answers s d allowed =
    let (t, performed) = allowed 7 in
    (
      most_affected as_written s d.0,
      (t, d.1),
      ap {A = Option Tables} {B = Result String (Result String ℕ) × Server}
          (λ o. after_exec o (most_affected as_written s d.0) d) performed,
      nothing_counted s d.0 t performed,
    )

-- The columns of this database take every text.
abbrev TakesAll : Statement → Type 0
TakesAll s = Unit

abbrev server_answers : Answers as_written server server_laws TakesAll
server_answers = record {
  begin_tx = λ (t, saved). ((t, t), refl);
  commit = λ d. (d, refl);
  exec = λ s d fits. execute-answers s d;
}

differs :
    update_incident as_written "inc-7"
      (set_analysis as_written (analysis_status two_findings) "analysis" (noon 0))
      stored.0
    ≢ stored.0
differs h =
    let never : ◌≡◌ {A = Option String} (some "analysis") none =
      ap {A = Tables} (λ t. analysis_of t.incidents) h in
    cc
  where
    analysis_of : List IncidentColumns → Option String
    analysis_of [] = none
    analysis_of (row ∷ rows) = row.analysis_json

save_analysis_saves_example :
    (d : Server) × (d.0 ≡ analysed as_written "inc-7" two_findings noon "analysis" stored.0)
    × (save_analysis server plain "inc-7" two_findings noon stored
        ≡ get_incident server plain "inc-7" d)
    × ((save_analysis server plain "inc-7" two_findings noon stored).1.0
        ≡ analysed as_written "inc-7" two_findings noon "analysis" stored.0)
save_analysis_saves_example =
    save_analysis_saves as_written server server_laws plain TakesAll server_answers "inc-7"
      two_findings noon stored "analysis" refl tt tt (tt, (tt, tt)) differs
