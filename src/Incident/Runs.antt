-- ===== src/Incident/Runs.antt =====
-- Runs of commands against `MemoryStore` (internal/incidentapi/store.go) keep it well formed.
use graph_ops.Base.{ℕ, suc, ◌^◌, ◌<◌, String, ◌≡◌, refl, List, [], ◌∷◌, arith, length}
use graph_ops.Base.Int.{next_u64-le}
use graph_ops.Base.Value.{Clock}
use graph_ops.Incident.Types.{Incident}
use graph_ops.Incident.Lifecycle.{
  with_analysis-IsConsistent, with_report-IsConsistent, with_review-IsConsistent,
}
use graph_ops.Incident.Store.{
  MemoryStore, new_memory_store, create_incident, modify, with_analysis, with_report, with_review,
  save_analysis, save_report, review_incident, record_event, record_agent_run,
}
use graph_ops.Incident.Commands.{
  Command, create, analyse, report, review, event, agent_run, decision_status, execute_command,
  run_commands,
}
use graph_ops.Incident.Invariant.{
  IsValid, HasRoom, IsEntry-change, new_memory_store-IsValid, create-IsValid, modify-IsValid,
  event-IsValid, agent_run-IsValid,
}

pub execute_command-IsValid :
    (c : Command) (clock : Clock) (s : MemoryStore)
    → HasRoom 1 s
    → IsValid s
    → IsValid (execute_command c clock s)
unfolding execute_command save_analysis save_report review_incident
execute_command-IsValid (create req) clock s room v = create-IsValid req clock s room v
execute_command-IsValid (analyse id req) clock s room v =
    modify-IsValid id (with_analysis req (clock 0)) s
      (λ i e.
        unfold with_analysis in
        IsEntry-change i _ refl refl (with_analysis-IsConsistent req (clock 0) i) e)
      v
execute_command-IsValid (report id req) clock s room v =
    modify-IsValid id (with_report req (clock 0)) s
      (λ i e.
        unfold with_report in
        IsEntry-change i _ refl refl (with_report-IsConsistent req (clock 0) i) e)
      v
execute_command-IsValid (review id d req) clock s room v =
    modify-IsValid id (with_review (decision_status d) req clock) s
      (λ i e.
        unfold with_review in
        IsEntry-change i _ refl refl (with_review-IsConsistent d req clock i) e)
      v
execute_command-IsValid (event id req) clock s room v = event-IsValid id req clock s room v
execute_command-IsValid (agent_run id req) clock s room v = agent_run-IsValid id req clock s room v

pub modify_counters :
    (id : String) (change : Incident → Incident) (s : MemoryStore)
    → ((modify id change s).1.seq ≡ s.seq)
      × ((modify id change s).1.event_seq ≡ s.event_seq)
      × ((modify id change s).1.agent_run_seq ≡ s.agent_run_seq)
unfolding modify
modify_counters id change s = ground arith

-- A command uses up at most one number of each counter.
pub execute_command-HasRoom :
    (c : Command) (clock : Clock) (n : ℕ) (s : MemoryStore)
    → HasRoom (suc n) s
    → HasRoom n (execute_command c clock s)
unfolding execute_command create_incident save_analysis save_report review_incident
execute_command-HasRoom (create req) clock n s r = omega (arith, next_u64-le s.seq)
execute_command-HasRoom (analyse id req) clock n s r =
    omega (arith, modify_counters id (with_analysis req (clock 0)) s)
execute_command-HasRoom (report id req) clock n s r =
    omega (arith, modify_counters id (with_report req (clock 0)) s)
execute_command-HasRoom (review id d req) clock n s r =
    omega (arith, modify_counters id (with_review (decision_status d) req clock) s)
execute_command-HasRoom (event id req) clock n s r =
    unfold record_event in ground (arith, next_u64-le s.event_seq)
execute_command-HasRoom (agent_run id req) clock n s r =
    unfold record_agent_run in ground (arith, next_u64-le s.agent_run_seq)

run_commands-IsValid_from :
    (cs : List (Command × Clock)) (s : MemoryStore)
    → HasRoom (length cs) s
    → IsValid s
    → IsValid (run_commands cs s)
unfolding run_commands
run_commands-IsValid_from [] s r v = v
run_commands-IsValid_from ((c, clock) ∷ cs) s r v =
    run_commands-IsValid_from cs (execute_command c clock s)
      (execute_command-HasRoom c clock (length cs) s r)
      (execute_command-IsValid c clock s (omega arith) v)

-- After any run of fewer than 2^63 commands from the empty store, every incident stands under its
-- own id, which was issued for it, and holds what its status claims; and the events and the agent
-- runs recorded under an id are that incident's, with strictly ascending numbers.
pub run_commands-IsValid :
    (cs : List (Command × Clock)) → length cs < 2 ^ 63 → IsValid (run_commands cs new_memory_store)
run_commands-IsValid cs few =
    run_commands-IsValid_from cs new_memory_store (omega arith) new_memory_store-IsValid
