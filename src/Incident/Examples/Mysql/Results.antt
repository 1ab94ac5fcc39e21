-- ===== src/Incident/Examples/Mysql/Results.antt =====
-- internal/incidentapi/mysql_store.go: calls on the small database, and what they give back.
use graph_ops.Base.{String, ◌≡◌, refl, Option, none, some, true, []}
use graph_ops.Base.Result.{ok}
use graph_ops.Base.Slice.{nil_slice}
use graph_ops.Base.Value.{unix_nano}
use graph_ops.Incident.Examples.{
  checkout_context, checkout_request, fix_plan, recovery, recovery_report, ann, noon, morning,
}
use graph_ops.Incident.Types.{Incident}
use graph_ops.Incident.Mysql.Tables.{Tables, perform, most_affected}
use graph_ops.Incident.Store.{receipt_status, new_incident}
use graph_ops.Incident.Mysql.RoundTrip.{create_incident-get_incident}
use graph_ops.Incident.Types.{IncidentContext}
use graph_ops.Base.Int.{to_int64}
use graph_ops.Base.Decimal.{signed_decimal}
use graph_ops.Incident.Types.{FinalReport}
use graph_ops.Incident.Mysql.Calls.{marshal_json, transaction, rows_affected}
use graph_ops.Incident.Mysql.Reads.{decode_text, decode_column, to_incident, get_incident}
use graph_ops.Incident.Mysql.Writes.{
  incident_id, create_incident, analysis_status, snapshot, insert_items, analysis_body,
  save_analysis, save_report, saved_report, update_and_get, review_body, review_incident,
}
use graph_ops.Incident.Mysql.ReadBack.{
  save_analysis_gives, save_report_gives, review_incident_gives,
}
use graph_ops.Incident.Examples.Mysql.{
  as_written, Server, server, server_laws, plain, two_findings, stored,
}

abbrev diagnosed : Incident
diagnosed = record {
  id = "inc-7";
  service_name = "checkout";
  severity = "critical";
  alert_summary = "5xx after release";
  playbook_key = "";
  context = some checkout_context;
  status = "waiting_for_approval";
  approval = none;
  analysis =
      some
        (record { evidence = nil_slice; hypotheses = nil_slice; proposed_action = some fix_plan });
  report = none;
  created_at = morning;
  updated_at = morning;
}

diagnosed_lem : (save_analysis server plain "inc-7" two_findings noon stored).0 ≡ ok diagnosed
unfolding save_analysis transaction analysis_body analysis_status snapshot insert_items
    rows_affected get_incident decode_column to_incident perform most_affected decode_text
diagnosed_lem = refl

save_analysis_gives_example :
    (payload : String) × (plain.marshal_analysis (snapshot two_findings) ≡ ok payload)
    × (decode_column plain.unmarshal_analysis (some payload) ≡ ok diagnosed.analysis)
    × (diagnosed.status ≡ analysis_status two_findings)
    × (diagnosed.updated_at ≡ morning)
save_analysis_gives_example =
    save_analysis_gives as_written server server_laws plain "inc-7" noon two_findings stored
      diagnosed diagnosed_lem

abbrev reported : Incident
reported = record diagnosed {
  status = receipt_status recovery_report.action_receipt;
  analysis = none;
  report = some recovery_report;
}

reported_lem : (save_report server plain "inc-7" recovery noon stored).0 ≡ ok reported
unfolding save_report saved_report update_and_get rows_affected get_incident decode_column
    to_incident perform most_affected decode_text
reported_lem = refl

save_report_gives_example :
    (report : FinalReport) × (payload : String) × (recovery.report ≡ some report)
    × (plain.marshal_report report ≡ ok payload)
    × (decode_column plain.unmarshal_report (some payload) ≡ ok reported.report)
    × (reported.status ≡ receipt_status report.action_receipt)
    × (reported.updated_at ≡ morning)
save_report_gives_example =
    save_report_gives as_written server server_laws plain "inc-7" noon recovery stored reported
      reported_lem

abbrev approved : Incident
approved = record diagnosed {
  status = "approved";
  analysis = none;
  approval =
      some (record { status = "approved"; reviewer = "ann"; comment = "go"; updated_at = morning });
}

approved_lem : (review_incident server plain "inc-7" "approved" ann noon stored).0 ≡ ok approved
unfolding review_incident review_body transaction rows_affected get_incident decode_column
    to_incident perform most_affected decode_text
approved_lem = refl

review_incident_gives_example :
    (approved.status ≡ "approved")
    × (approved.updated_at ≡ morning)
    × (approved.approval
        ≡ some (record {
          status = "approved";
          reviewer = "ann";
          comment = "go";
          updated_at = morning;
        }))
review_incident_gives_example =
    review_incident_gives as_written server server_laws plain "inc-7" noon "approved" ann stored
      approved refl approved_lem

abbrev empty_server : Server
empty_server =
    let t : Tables = record {
      incidents = [];
      approvals = [];
      evidence = [];
      events = [];
      agent_runs = [];
    } in
    (t, t)

abbrev new_id : String
new_id = incident_id (noon 0)

abbrev created : Incident
created = new_incident new_id checkout_request morning

abbrev found_again : Incident
found_again = record {
  id = new_id;
  service_name = "checkout";
  severity = "critical";
  alert_summary = "5xx after release";
  playbook_key = "";
  context = some checkout_context;
  status = "created";
  approval = none;
  analysis = none;
  report = none;
  created_at = morning;
  updated_at = morning;
}

new_id-same : as_written.same new_id new_id ≡ true
unfolding incident_id signed_decimal unix_nano to_int64
new_id-same = refl

created_lem : (create_incident server plain checkout_request noon empty_server).0 ≡ ok created
unfolding create_incident marshal_json new_incident perform most_affected
created_lem = refl

found_again_lem :
    (get_incident server plain created.id
      (create_incident server plain checkout_request noon empty_server).1).0
    ≡ ok found_again
unfolding create_incident marshal_json new_incident perform most_affected incident_id get_incident
    decode_column decode_text to_incident signed_decimal unix_nano to_int64
found_again_lem = refl

create_incident-get_incident_example :
    (payload : String) × (context : Option IncidentContext) × (plain.marshal_context
        checkout_request.context
      ≡ ok payload)
    × (decode_column plain.unmarshal_context (some payload) ≡ ok context)
    × (found_again ≡ record created {
      context = context;
      created_at = created.created_at;
      updated_at = created.updated_at;
    })
create_incident-get_incident_example =
    create_incident-get_incident as_written server server_laws plain checkout_request noon
      empty_server created found_again new_id-same (λ h. h) created_lem found_again_lem
