-- ===== src/Incident/Store/Changes.antt =====
-- internal/incidentapi/store.go: `SaveAnalysis`, `SaveReport` and `ReviewIncident`.
use graph_ops.Base.{String, ◌==◌, Option, none, some, Bool, false, if◌then◌else◌}
use graph_ops.Base.Map.{get, put}
use graph_ops.Base.Result.{ok, err}
use graph_ops.Base.Slice.{copy}
use graph_ops.Base.Value.{Time, Clock}
use graph_ops.Incident.Types.{ActionPlan, ActionReceipt, FinalReport, Incident}
use graph_ops.Incident.Requests.{ReviewIncidentRequest, UpsertAnalysisRequest, UpsertReportRequest}
use graph_ops.Incident.Clone.{clone_incident}
use graph_ops.Incident.Repository.{Outcome, incident_not_found}
use graph_ops.Incident.Store.State.{MemoryStore}

abbrev pub needs_approval : Option ActionPlan → Bool
needs_approval none = false
needs_approval (some action) = action.requires_approval

unfoldable pub with_analysis : UpsertAnalysisRequest → Time → Incident → Incident
with_analysis req now incident = record incident {
  analysis = some (record {
    evidence = copy req.evidence;
    hypotheses = copy req.hypotheses;
    proposed_action = req.proposed_action;
  });
  status = if needs_approval req.proposed_action then "waiting_for_approval" else "diagnosed";
  updated_at = now;
}

abbrev pub receipt_status : Option ActionReceipt → String
receipt_status none = "diagnosed"
receipt_status (some receipt) =
    if receipt.verification_status == "recovered" then "recovered" else "report_ready"

-- The `switch` of `SaveReport`.
abbrev pub report_status : Option FinalReport → String
report_status none = "diagnosed"
report_status (some report) = receipt_status report.action_receipt

unfoldable pub with_report : UpsertReportRequest → Time → Incident → Incident
with_report req now incident = record incident {
  report = req.report;
  status = report_status req.report;
  updated_at = now;
}

-- The `switch` of `ReviewIncident`: another status leaves the incident's own as it was.
abbrev reviewed_status : String → String → String
reviewed_status status before =
    if status == "approved" then "approved" else if status == "rejected" then "rejected" else before

unfoldable pub with_review : String → ReviewIncidentRequest → Clock → Incident → Incident
with_review status req clock incident = record incident {
  approval = some (record {
    status = status;
    reviewer = req.reviewer;
    comment = req.comment;
    updated_at = clock 0;
  });
  status = reviewed_status status incident.status;
  updated_at = clock 1;
}

-- Looks an incident up, changes it in place and returns a copy.
unfoldable pub modify :
    String → (Incident → Incident) → MemoryStore → Outcome Incident × MemoryStore
modify id change s = elim (get s.incidents id) [
  | none ↦ (err incident_not_found, s)
  | some incident ↦ (
    ok (clone_incident (change incident)),
    record s { incidents = put s.incidents id (change incident) },
  )
]

unfoldable pub save_analysis :
    String → UpsertAnalysisRequest → Clock → MemoryStore → Outcome Incident × MemoryStore
save_analysis id req clock s = modify id (with_analysis req (clock 0)) s

unfoldable pub save_report :
    String → UpsertReportRequest → Clock → MemoryStore → Outcome Incident × MemoryStore
save_report id req clock s = modify id (with_report req (clock 0)) s

unfoldable pub review_incident :
    String → String → ReviewIncidentRequest → Clock → MemoryStore → Outcome Incident × MemoryStore
review_incident id status req clock s = modify id (with_review status req clock) s
