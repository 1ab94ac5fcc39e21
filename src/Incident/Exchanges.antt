-- ===== src/Incident/Exchanges.antt =====
-- What a client of internal/incidentapi/server.go reads after it has written, over the memory store.
use mathlib.Core.Option.{some-injective}
use graph_ops.Base.{
  ℕ, String, Bool, true, false, ◌≡◌, ◌≢◌, ◌↔◌, refl, Option, none, some, List, arith, if◌then◌else◌,
  ne_of_eq-false, eq-false_of_ne,
}
use graph_ops.Base.Result.{ok}
use graph_ops.Base.Text.{trim_space}
use graph_ops.Base.Value.{Clock, is_zero_time}
use graph_ops.Incident.Types.{Incident, IncidentContext}
use graph_ops.Incident.Requests.{CreateIncidentRequest}
use graph_ops.Incident.Store.{MemoryStore, create_incident}
use graph_ops.Incident.Server.{
  Response, handle_create_incident, lacks_fields, lacks_context, with_playbook, respond, reply,
  write_error, incident_body,
}
use graph_ops.Incident.Api.{memory_repository}

-- What a request must hold for an incident to be created.
pub record IsComplete (c : IncidentContext) : Type 0 where
  pub cluster : trim_space c.cluster ≢ ""
  pub namespace : trim_space c.namespace ≢ ""
  pub release_version : trim_space c.release_version ≢ ""
  pub previous_version : trim_space c.previous_version ≢ ""
  pub alert_started_at : is_zero_time c.alert_started_at ≡ false

pub record IsAccepted (req : CreateIncidentRequest) : Type 0 where
  pub service_name : req.service_name ≢ ""
  pub severity : req.severity ≢ ""
  pub alert_summary : req.alert_summary ≢ ""
  pub context : (c : IncidentContext) × (req.context ≡ some c) × IsComplete c

lacks_fields_iff :
    (req : CreateIncidentRequest)
    → (lacks_fields req ≡ false)
      ↔ ((req.service_name ≢ "") × (req.severity ≢ "") × (req.alert_summary ≢ ""))
unfolding lacks_fields
lacks_fields_iff req = (
  (λ h. (
    ne_of_eq-false req.service_name "" (ground arith),
    ne_of_eq-false req.severity "" (ground arith),
    ne_of_eq-false req.alert_summary "" (ground arith),
  )),
  λ h. rw (
    eq-false_of_ne req.service_name "" h.0,
    eq-false_of_ne req.severity "" h.1,
    eq-false_of_ne req.alert_summary "" h.2,
  ),
)

complete_context :
    (c d : IncidentContext)
    → ◌≡◌ {A = Option IncidentContext} (some c) (some d)
    → IsComplete d
    → lacks_context (some c) ≡ false
unfolding lacks_context
complete_context c d same h = rw (some-injective c d same) (
    rw (
      eq-false_of_ne (trim_space d.cluster) "" h.cluster,
      eq-false_of_ne (trim_space d.namespace) "" h.namespace,
      eq-false_of_ne (trim_space d.release_version) "" h.release_version,
      eq-false_of_ne (trim_space d.previous_version) "" h.previous_version,
      h.alert_started_at,
    ))

lacks_context_iff :
    (o : Option IncidentContext)
    → (lacks_context o ≡ false) ↔ ((c : IncidentContext) × (o ≡ some c) × IsComplete c)
unfolding lacks_context
lacks_context_iff none = ((λ h. cc), λ h. cc (h.1))
lacks_context_iff (some c) = (
  (λ h. (
    c,
    refl,
    record {
      cluster = ne_of_eq-false (trim_space c.cluster) "" (ground arith);
      namespace = ne_of_eq-false (trim_space c.namespace) "" (ground arith);
      release_version = ne_of_eq-false (trim_space c.release_version) "" (ground arith);
      previous_version = ne_of_eq-false (trim_space c.previous_version) "" (ground arith);
      alert_started_at = ground arith;
    },
  )),
  λ (d, same, h). complete_context c d same h,
)

IsAccepted-iff :
    (req : CreateIncidentRequest)
    → IsAccepted req ↔ ((lacks_fields req ≡ false) × (lacks_context req.context ≡ false))
IsAccepted-iff req = (
  (λ a. (
    (lacks_fields_iff req).1 (a.service_name, a.severity, a.alert_summary),
    (lacks_context_iff req.context).1 a.context,
  )),
  λ (fields, context).
      let (service_name, severity, alert_summary) = (lacks_fields_iff req).0 fields in
      record {
        service_name = service_name;
        severity = severity;
        alert_summary = alert_summary;
        context = (lacks_context_iff req.context).0 context;
      },
)

-- The status behind two guards that refuse with status 400, one after the other.
abbrev two_guards : Bool → Bool → String → String → MemoryStore → Response × MemoryStore → ℕ
two_guards first second m n s created =
    let out =
      if first
      then (write_error 400 m, s)
      else if second
      then (write_error 400 n, s)
      else created in
    out.0.status

past_guards_iff :
    (first second : Bool) (m n : String) (s : MemoryStore) (created : Response × MemoryStore)
    → created.0.status ≡ 201
    → (two_guards first second m n s created ≡ 201) ↔ ((first ≡ false) × (second ≡ false))
past_guards_iff true second m n s created h = ((λ e. absurd (omega arith)), λ e. cc)
past_guards_iff false true m n s created h = ((λ e. absurd (omega arith)), λ e. cc)
past_guards_iff false false m n s created h = ((λ e. (refl, refl)), λ e. h)

-- A request to create an incident is answered with status 201 exactly if its service name, severity
-- and alert summary are not empty and it has a context, in which the alert's time is not zero and
-- the cluster, the namespace and both versions are not blank.
pub handle_create_incident_iff :
    (range_order : List Incident → List Incident) (req : CreateIncidentRequest) (clock : Clock)
    (s : MemoryStore)
    → ((handle_create_incident (memory_repository range_order) (ok req) clock s).0.status ≡ 201)
      ↔ IsAccepted req
unfolding handle_create_incident create_incident respond with_playbook lacks_fields
handle_create_incident_iff range_order req clock s =
    let (accept, accepted) = IsAccepted-iff req in
    let (passes, passed) =
      past_guards_iff (lacks_fields req) (lacks_context req.context)
        "service_name, severity, and alert_summary are required"
        "context with cluster, namespace, alert_started_at, release_version, and previous_version is required"
        s (reply 201 incident_body (create_incident (with_playbook req) clock s)) refl in
    ((λ h. accepted (passes h)), λ a. passed (accept a))
