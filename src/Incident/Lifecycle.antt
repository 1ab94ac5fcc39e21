-- ===== src/Incident/Lifecycle.antt =====
-- What the status of an incident says about the rest of it (internal/incidentapi/store.go).
use graph_ops.Base.{
  String, ◌==◌, ◌≡◌, ◌≢◌, refl, ap, ◌⊎◌, inl, inr, true, false, Option, none, some, eq_iff,
  Bool-cases, if◌then◌else◌,
}
use graph_ops.Base.Value.{Time, Clock}
use graph_ops.Incident.Types.{
  ActionPlan, ActionReceipt, AnalysisSnapshot, ApprovalDecision, FinalReport, Incident,
}
use graph_ops.Incident.Requests.{
  CreateIncidentRequest, ReviewIncidentRequest, UpsertAnalysisRequest, UpsertReportRequest,
}
use graph_ops.Incident.Store.{
  needs_approval, receipt_status, report_status, new_incident, with_analysis, with_report,
  with_review,
}
use graph_ops.Incident.Commands.{Decision, approve, reject, decision_status}

-- The proposed action of an incident, and the receipt that its report carries.
abbrev plan_of : Option AnalysisSnapshot → Option ActionPlan
plan_of none = none
plan_of (some analysis) = analysis.proposed_action

abbrev receipt_of : Option FinalReport → Option ActionReceipt
receipt_of none = none
receipt_of (some report) = report.action_receipt

-- No plan waits for an approval, or the report came without a receipt of an action.
abbrev NeedsNothing : Option ActionPlan → Option ActionReceipt → Type 0
NeedsNothing none receipt = Unit
NeedsNothing (some plan) receipt = (plan.requires_approval ≡ false) ⊎ (receipt ≡ none)

abbrev IsUntouched : Incident → Type 0
IsUntouched i = (i.approval ≡ none) × (i.analysis ≡ none) × (i.report ≡ none)

abbrev AwaitsApproval : Incident → Type 0
AwaitsApproval i =
    (plan : ActionPlan) × (plan_of i.analysis ≡ some plan) × (plan.requires_approval ≡ true)

abbrev IsDecided : String → Incident → Type 0
IsDecided status i = (d : ApprovalDecision) × (i.approval ≡ some d) × (d.status ≡ status)

abbrev HasReceipt : (String → Type 0) → Incident → Type 0
HasReceipt P i =
    (receipt : ActionReceipt) × (receipt_of i.report ≡ some receipt) × P receipt.verification_status

abbrev Fits : String → Incident → Type 0
Fits status i =
    if status == "created"
    then IsUntouched i
    else if status == "waiting_for_approval"
    then AwaitsApproval i
    else if status == "approved"
    then IsDecided "approved" i
    else if status == "rejected"
    then IsDecided "rejected" i
    else if status == "recovered"
    then HasReceipt (λ v. v ≡ "recovered") i
    else if status == "report_ready"
    then HasReceipt (λ v. v ≢ "recovered") i
    else if status == "diagnosed"
    then NeedsNothing (plan_of i.analysis) (receipt_of i.report)
    else ⊥

-- The status is one of the seven, and the incident holds what the status claims.
abbrev pub IsConsistent : Incident → Type 0
IsConsistent i = Fits i.status i

pub new_incident-IsConsistent :
    (id : String) (req : CreateIncidentRequest) (now : Time)
    → IsConsistent (new_incident id req now)
unfolding new_incident
new_incident-IsConsistent id req now = (refl, refl, refl)

analysis-Fits :
    (plan : Option ActionPlan) (i : Incident)
    → plan_of i.analysis ≡ plan
    → Fits (if needs_approval plan then "waiting_for_approval" else "diagnosed") i
analysis-Fits none i e = rw e tt
analysis-Fits (some plan) i e = elim (Bool-cases plan.requires_approval) [
  | inl needed ↦ rw needed (plan, e, needed)
  | inr free ↦ rw free (rw e (inl free))
]

pub with_analysis-IsConsistent :
    (req : UpsertAnalysisRequest) (now : Time) (i : Incident)
    → IsConsistent (with_analysis req now i)
unfolding with_analysis
with_analysis-IsConsistent req now i =
    analysis-Fits req.proposed_action (with_analysis req now i) refl

NeedsNothing-none :
    (plan : Option ActionPlan) (receipt : Option ActionReceipt)
    → receipt ≡ none
    → NeedsNothing plan receipt
NeedsNothing-none none receipt e = tt
NeedsNothing-none (some plan) receipt e = inr e

receipt-Fits :
    (receipt : Option ActionReceipt) (i : Incident)
    → receipt_of i.report ≡ receipt
    → Fits (receipt_status receipt) i
receipt-Fits none i e = NeedsNothing-none (plan_of i.analysis) (receipt_of i.report) e
receipt-Fits (some c) i e = elim (Bool-cases (c.verification_status == "recovered")) [
  | inl hit ↦ rw hit (c, e, (eq_iff _ _).0 hit)
  | inr miss ↦ rw miss (c, e, λ p. cc ((eq_iff c.verification_status "recovered").1 p))
]

report-Fits : (r : Option FinalReport) (i : Incident) → i.report ≡ r → Fits (report_status r) i
report-Fits none i e = receipt-Fits none i (ap receipt_of e)
report-Fits (some r) i e = receipt-Fits r.action_receipt i (ap receipt_of e)

pub with_report-IsConsistent :
    (req : UpsertReportRequest) (now : Time) (i : Incident) → IsConsistent (with_report req now i)
unfolding with_report
with_report-IsConsistent req now i = report-Fits req.report (with_report req now i) refl

pub with_review-IsConsistent :
    (d : Decision) (req : ReviewIncidentRequest) (clock : Clock) (i : Incident)
    → IsConsistent (with_review (decision_status d) req clock i)
unfolding with_review
with_review-IsConsistent approve req clock i = (_, refl, refl)
with_review-IsConsistent reject req clock i = (_, refl, refl)
