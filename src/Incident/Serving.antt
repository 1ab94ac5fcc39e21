-- ===== src/Incident/Serving.antt =====
-- What requests to internal/incidentapi/server.go do to the memory store of store.go.
use graph_ops.Base.{
  ℕ, ◌^◌, ◌<◌, ◌≤◌, suc, String, Bool, ◌||◌, ◌≡◌, refl, ◌∙◌, ap, inl, inr, if◌then◌else◌, List, [],
  ◌∷◌, length, arith, Bool-cases, Option-cases,
}
use graph_ops.Base.Map.{get}
use graph_ops.Base.Result.{ok, err}
use graph_ops.Base.Value.{Clock}
use graph_ops.Incident.Types.{Incident}
use graph_ops.Incident.Requests.{
  CreateIncidentRequest, RecordIncidentEventRequest, RecordAgentRunRequest,
}
use graph_ops.Incident.Store.{
  MemoryStore, new_memory_store, modify, create_incident, save_analysis, save_report,
  review_incident, record_event, record_agent_run,
}
use graph_ops.Incident.Commands.{
  Command, create, analyse, report, review, event, agent_run, approve, reject, execute_command,
  run_commands,
}
use graph_ops.Incident.Invariant.{IsValid}
use graph_ops.Incident.Runs.{run_commands-IsValid}
use graph_ops.Incident.Server.{
  Response, is_blank, handle_create_incident, handle_review_incident, handle_approve_incident,
  handle_reject_incident, handle_save_analysis, handle_save_report, handle_record_event,
  handle_record_agent_run, lacks_fields, lacks_context, with_playbook, respond, reply, write_error,
  write_store_error, incident_body, recorded_body,
}
use graph_ops.Incident.Api.{
  memory_repository, Request, post_incident, post_approve, post_reject, post_analysis, post_report,
  post_event, post_agent_run, serve, serve_all,
}

-- A request is refused, is about an unknown incident, or is one command of the store.
pub data IsServed (clock : Clock) (s : MemoryStore) (out : Response × MemoryStore) : Type 0 where
  refused : out.0.status ≡ 400 → out.1 ≡ s → IsServed clock s out
  unknown : out.0 ≡ write_error 404 "incident not found" → out.1 ≡ s → IsServed clock s out
  executed :
      (c : Command) → out.0.status < 300 → out.1 ≡ execute_command c clock s → IsServed clock s out

modify-IsServed :
    (n : ℕ) (id : String) (change : Incident → Incident) (c : Command) (clock : Clock)
    (s : MemoryStore)
    → n < 300
    → (modify id change s).1 ≡ execute_command c clock s
    → IsServed clock s (reply n incident_body (modify id change s))
unfolding respond
modify-IsServed n id change c clock s small same = elim (Option-cases (get s.incidents id)) [
  | inl missing ↦
      unknown (unfold modify in rw (missing, modify, write_store_error))
        (unfold modify in rw (missing, modify))
  | inr (incident, found) ↦ executed c (unfold modify in rw (found, modify) small) same
]

create-IsServed :
    (req : CreateIncidentRequest) (clock : Clock) (s : MemoryStore)
    → IsServed clock s (reply 201 incident_body (create_incident req clock s))
unfolding respond execute_command create_incident
create-IsServed req clock s = executed (create req) (omega arith) refl

event-IsServed :
    (id : String) (req : RecordIncidentEventRequest) (clock : Clock) (s : MemoryStore)
    → IsServed clock s (reply 201 (λ _. recorded_body) (record_event id req clock s))
unfolding respond execute_command
event-IsServed id req clock s = elim (Option-cases (get s.incidents id)) [
  | inl missing ↦
      unknown (unfold record_event in rw (missing, record_event))
        (unfold record_event in rw (missing, record_event))
  | inr (incident, found) ↦
      executed (event id req) (unfold record_event in rw (found, record_event) (omega arith)) refl
]

agent_run-IsServed :
    (id : String) (req : RecordAgentRunRequest) (clock : Clock) (s : MemoryStore)
    → IsServed clock s (reply 201 (λ _. recorded_body) (record_agent_run id req clock s))
unfolding respond execute_command
agent_run-IsServed id req clock s = elim (Option-cases (get s.incidents id)) [
  | inl missing ↦
      unknown (unfold record_agent_run in rw (missing, record_agent_run))
        (unfold record_agent_run in rw (missing, record_agent_run))
  | inr (incident, found) ↦
      executed (agent_run id req)
        (unfold record_agent_run in rw (found, record_agent_run) (omega arith)) refl
]

-- A guard: the handler refuses, or goes on.
guard-IsServed :
    (test : Bool) (message : String) (clock : Clock) (s : MemoryStore)
    (after_guard : Response × MemoryStore)
    → IsServed clock s after_guard
    → IsServed clock s (if test then (write_error 400 message, s) else after_guard)
guard-IsServed test message clock s after_guard h = elim (Bool-cases test) [
  | inl stops ↦ rw stops (refused refl refl)
  | inr passes ↦ rw passes h
]

-- Every request that writes has one of three outcomes: it is refused with status 400, it is about an
-- unknown incident and is answered with status 404, or it is answered with a status below 300 and
-- its effect is exactly that of one command. In the first two the store stays as it was.
pub serve-IsServed :
    (range_order : List Incident → List Incident) (request : Request) (clock : Clock)
    (s : MemoryStore)
    → IsServed clock s (serve (memory_repository range_order) request clock s)
unfolding serve handle_create_incident handle_review_incident handle_approve_incident
    handle_reject_incident handle_save_analysis handle_save_report handle_record_event
    handle_record_agent_run with_playbook save_analysis save_report review_incident respond
    execute_command
serve-IsServed range_order (post_incident (err e)) clock s = refused refl refl
serve-IsServed range_order (post_incident (ok req)) clock s =
    guard-IsServed (lacks_fields (with_playbook req)) _ clock s _ (
      guard-IsServed (lacks_context req.context) _ clock s _
        (create-IsServed (with_playbook req) clock s))
serve-IsServed range_order (post_approve id (err e)) clock s = refused refl refl
serve-IsServed range_order (post_approve id (ok req)) clock s =
    guard-IsServed (is_blank req.reviewer) _ clock s _
      (modify-IsServed 200 id _ (review id approve req) clock s (omega arith) refl)
serve-IsServed range_order (post_reject id (err e)) clock s = refused refl refl
serve-IsServed range_order (post_reject id (ok req)) clock s =
    guard-IsServed (is_blank req.reviewer) _ clock s _
      (modify-IsServed 200 id _ (review id reject req) clock s (omega arith) refl)
serve-IsServed range_order (post_analysis id (err e)) clock s = refused refl refl
serve-IsServed range_order (post_analysis id (ok req)) clock s =
    modify-IsServed 200 id _ (analyse id req) clock s (omega arith) refl
serve-IsServed range_order (post_report id (err e)) clock s = refused refl refl
serve-IsServed range_order (post_report id (ok req)) clock s =
    modify-IsServed 200 id _ (report id req) clock s (omega arith) refl
serve-IsServed range_order (post_event id (err e)) clock s = refused refl refl
serve-IsServed range_order (post_event id (ok req)) clock s =
    guard-IsServed (is_blank req.event_type || is_blank req.actor_type || is_blank req.actor_name) _
      clock s _ (event-IsServed id req clock s)
serve-IsServed range_order (post_agent_run id (err e)) clock s = refused refl refl
serve-IsServed range_order (post_agent_run id (ok req)) clock s =
    guard-IsServed
      (is_blank req.node_name || is_blank req.model_name || is_blank req.prompt_version) _ clock s _
      (guard-IsServed (is_blank req.status) _ clock s _ (agent_run-IsServed id req clock s))

prepend_command :
    (clock : Clock) (s : MemoryStore) (out : Response × MemoryStore) (final : MemoryStore) (n : ℕ)
    → IsServed clock s out
    → (cs : List (Command × Clock)) → length cs ≤ n
    → final ≡ run_commands cs out.1
    → (cs' : List (Command × Clock)) × (length cs' ≤ suc n) × (final ≡ run_commands cs' s)
unfolding run_commands
prepend_command clock s out final n (refused h kept) cs few same =
    (cs, omega arith, same ∙ ap (run_commands cs) kept)
prepend_command clock s out final n (unknown h kept) cs few same =
    (cs, omega arith, same ∙ ap (run_commands cs) kept)
prepend_command clock s out final n (executed c h kept) cs few same =
    ((c, clock) ∷ cs, omega arith, same ∙ ap (run_commands cs) kept)

-- Any sequence of requests has the effect of a sequence of commands that is no longer.
pub serve_all-run_commands :
    (range_order : List Incident → List Incident) (rs : List (Request × Clock)) (s : MemoryStore)
    → (cs : List (Command × Clock)) × (length cs ≤ length rs)
      × (serve_all (memory_repository range_order) rs s ≡ run_commands cs s)
unfolding serve_all run_commands
serve_all-run_commands range_order [] s = ([], omega arith, refl)
serve_all-run_commands range_order ((r, clock) ∷ rs) s =
    let next = (serve (memory_repository range_order) r clock s).1 in
    let (cs, few, same) = serve_all-run_commands range_order rs next in
    prepend_command clock s (serve (memory_repository range_order) r clock s) _ (length rs)
      (serve-IsServed range_order r clock s) cs few same

-- However a server is called from its start, with fewer than 2^63 requests that write, its store is
-- valid.
pub serve_all-IsValid :
    (range_order : List Incident → List Incident) (rs : List (Request × Clock))
    → length rs < 2 ^ 63
    → IsValid (serve_all (memory_repository range_order) rs new_memory_store)
serve_all-IsValid range_order rs few =
    let (cs, fewer, same) = serve_all-run_commands range_order rs new_memory_store in
    rw same (run_commands-IsValid cs (omega arith))
