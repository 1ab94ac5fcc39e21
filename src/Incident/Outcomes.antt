-- ===== src/Incident/Outcomes.antt =====
-- What the requests of the orchestrator and of a reviewer to internal/incidentapi/server.go leave in
-- the memory store, as a client reads it.
use graph_ops.Base.{
  arith, String, ◌≡◌, ◌≢◌, refl, ◌∙◌, inl, inr, none, some, List, Option-cases, eq-false_of_ne,
}
use graph_ops.Base.Map.{get}
use graph_ops.Base.Result.{ok}
use graph_ops.Base.Text.{trim_space}
use graph_ops.Base.Value.{Clock}
use graph_ops.Incident.Types.{Incident, FinalReport, ApprovalDecision}
use graph_ops.Incident.Requests.{ReviewIncidentRequest, UpsertAnalysisRequest, UpsertReportRequest}
use graph_ops.Base.Slice.{nil_slice}
use graph_ops.Incident.Clone.{clone_incident, copied_report}
use graph_ops.Incident.Contents.{SameFindings, clone_report-SameReport}
use graph_ops.Incident.Store.{
  MemoryStore, get_incident, save_report, review_incident, modify, with_report, with_review,
}
use graph_ops.Incident.Commands.{Decision, approve, reject, decision_status}
use graph_ops.Incident.Server.{
  handle_get_incident, handle_get_report, handle_save_report, handle_review_incident, respond,
  incident_body, report_body,
}
use graph_ops.Incident.Api.{memory_repository}
use graph_ops.Incident.Calls.{get-change}

-- A change of a known incident returns a copy of the changed incident.
modify_known :
    (id : String) (change : Incident → Incident) (s : MemoryStore) (shown : Incident)
    → get_incident id s ≡ ok shown
    → (i : Incident) × (shown ≡ clone_incident i)
      × ((modify id change s).0 ≡ ok (clone_incident (change i)))
unfolding get_incident
modify_known id change s shown h = elim (Option-cases (get s.incidents id)) [
  | inl missing ↦ absurd (ground arith)
  | inr (i, found) ↦ (i, ground arith, unfold modify in rw (found, modify))
]

abbrev no_analysis : UpsertAnalysisRequest
no_analysis = record { evidence = nil_slice; hypotheses = nil_slice; proposed_action = none }

abbrev no_report : UpsertReportRequest
no_report = record { report = none }

abbrev no_review : ReviewIncidentRequest
no_review = record { reviewer = ""; comment = "" }

-- A report that is saved for a known incident is the one that is returned for it, with the same
-- contents: only an empty slice comes out nil.
pub report-handle_save_report :
    (range_order : List Incident → List Incident) (id : String) (report : FinalReport)
    (clock : Clock) (s : MemoryStore) (shown : Incident)
    → get_incident id s ≡ ok shown
    → let store = memory_repository range_order in
      let saved = handle_save_report store id (ok (record { report = some report })) clock s in
      (returned : FinalReport) × (handle_get_report store id saved.1
        ≡ record { status = 200; body = report_body returned })
      × SameFindings returned report
report-handle_save_report range_order id report clock s shown known =
    let req : UpsertReportRequest = record { report = some report } in
    let (i, same, saved) = modify_known id (with_report req (clock 0)) s shown known in
    let read : get_incident id (save_report id req clock s).1
        ≡ ok (clone_incident (with_report req (clock 0) i)) =
      (get-change id "" no_analysis req no_review clock s).1 ∙ (unfold save_report in saved) in
    (
      copied_report report,
      unfold handle_get_report handle_save_report in
          rw read (unfold clone_incident with_report in refl),
      clone_report-SameReport (some report),
    )

-- What a review of an incident leaves of it, with the two readings of the clock.
pub record IsReviewed (d : Decision) (req : ReviewIncidentRequest) (clock : Clock)
    (before after_review : Incident) : Type 0 where
  pub status : after_review.status ≡ decision_status d
  pub approval :
      (a : ApprovalDecision) × (after_review.approval ≡ some a)
      × (a.status ≡ decision_status d)
      × (a.reviewer ≡ req.reviewer)
      × (a.comment ≡ req.comment)
      × (a.updated_at ≡ clock 0)
  pub time : after_review.updated_at ≡ clock 1
  pub rest : after_review ≡ record before {
    status = after_review.status;
    approval = after_review.approval;
    updated_at = after_review.updated_at;
  }

with_review-IsReviewed :
    (d : Decision) (req : ReviewIncidentRequest) (clock : Clock) (i : Incident)
    → IsReviewed d req clock
        (clone_incident i)
        (clone_incident (with_review (decision_status d) req clock i))
unfolding clone_incident with_review
with_review-IsReviewed approve req clock i = record {
  status = refl;
  approval = (_, refl, refl, refl, refl, refl);
  time = refl;
  rest = refl;
}
with_review-IsReviewed reject req clock i = record {
  status = refl;
  approval = (_, refl, refl, refl, refl, refl);
  time = refl;
  rest = refl;
}

-- A review of a known incident by a reviewer whose name is not blank is answered with the incident,
-- which a GET then returns as well: it has the status of the decision, the reviewer's name and
-- comment with the first reading of the clock, and the second reading as the time of its update; all
-- else of it is as it was read before.
pub get-handle_review_incident :
    (range_order : List Incident → List Incident) (id : String) (d : Decision)
    (req : ReviewIncidentRequest) (clock : Clock) (s : MemoryStore) (shown : Incident)
    → trim_space req.reviewer ≢ ""
    → get_incident id s ≡ ok shown
    → let store = memory_repository range_order in
      let (answer, after_review) =
        handle_review_incident store id (decision_status d) (ok req) clock s in
      (i : Incident) × (answer ≡ record { status = 200; body = incident_body i })
      × (handle_get_incident store id after_review
          ≡ record { status = 200; body = incident_body i })
      × IsReviewed d req clock shown i
get-handle_review_incident range_order id d req clock s shown named known =
    let status = decision_status d in
    let (i, same, reviewed) = modify_known id (with_review status req clock) s shown known in
    let answered : (review_incident id status req clock s).0
        ≡ ok (clone_incident (with_review status req clock i)) =
      unfold review_incident in reviewed in
    let read : get_incident id (review_incident id status req clock s).1
        ≡ ok (clone_incident (with_review status req clock i)) =
      (get-change id status no_analysis no_report req clock s).2 ∙ answered in
    (
      clone_incident (with_review status req clock i),
      unfold handle_review_incident respond in
          rw (eq-false_of_ne (trim_space req.reviewer) "" named, answered),
      unfold handle_review_incident handle_get_incident respond in
          rw (eq-false_of_ne (trim_space req.reviewer) "" named, read),
      unfold clone_incident in rw same (with_review-IsReviewed d req clock i),
    )
