-- ===== src/Incident/Waiting.antt =====
-- Incidents that have their id but are not yet in the store of internal/incidentapi/store.go: what
-- its calls leave of their ids.
use text.Mathlib.TextEquality.{eq_iff}
use graph_ops.Base.{
  ℕ, ◌+◌, ◌^◌, ◌<◌, ◌≤◌, String, ◌≡◌, ◌≢◌, refl, sym, ◌∙◌, inl, inr, none, List, [], ◌∷◌, length,
  arith, Option-cases,
}
use graph_ops.Base.Int.{next_u64, next_u64-eq_suc}
use graph_ops.Base.Map.{Map, get, put, get-put, get-put_ne, length-put_new, length-put_old}
use graph_ops.Base.Value.{Time, Clock}
use graph_ops.Incident.Types.{Incident}
use graph_ops.Incident.Store.{
  MemoryStore, incident_id, new_incident, create_incident, modify, save_analysis, save_report,
  review_incident, record_event, record_agent_run, with_analysis, with_report, with_review,
}
use graph_ops.Incident.Commands.{
  Command, create, analyse, report, review, event, agent_run, decision_status, execute_command,
}
use graph_ops.Incident.Invariant.{
  IsValid, IsEntry, HasRoom, IsEntry-le, incident_id_inj, incident_id-fresh,
}
use graph_ops.Incident.Runs.{modify_counters}

-- Every incident is one that can stand under its id, which was issued for it.
abbrev pub AreEntries : ℕ → List Incident → Type 0
AreEntries seq [] = Unit
AreEntries seq (i ∷ rest) = IsEntry seq i.id i × AreEntries seq rest

pub AreEntries-le : (m n : ℕ) (is : List Incident) → m ≤ n → AreEntries m is → AreEntries n is
AreEntries-le m n [] le h = tt
AreEntries-le m n (i ∷ is) le (e, h) = (IsEntry-le m n i.id i le e, AreEntries-le m n is le h)

-- No incident of the store has one of the ids.
abbrev pub AreFree : Map Incident → List Incident → Type 0
AreFree m [] = Unit
AreFree m (i ∷ rest) = (get m i.id ≡ none) × AreFree m rest

abbrev pub HasOtherIds : String → List Incident → Type 0
HasOtherIds id [] = Unit
HasOtherIds id (i ∷ rest) = (i.id ≢ id) × HasOtherIds id rest

-- No two of the incidents have the same id.
abbrev pub HaveDistinctIds : List Incident → Type 0
HaveDistinctIds [] = Unit
HaveDistinctIds (i ∷ rest) = HasOtherIds i.id rest × HaveDistinctIds rest

-- An id with a number above all that were issued is a new one.
issued-ne :
    (now : Time) (seq n : ℕ) (id : String) (i : Incident)
    → seq < n
    → IsEntry seq id i
    → id ≢ incident_id now n
issued-ne now seq n id i above e same =
    let (before, k, issued, le) = e.issued in
    let equal : k ≡ n = incident_id_inj before now k n (sym issued ∙ same) in omega arith

pub AreEntries-HasOtherIds :
    (now : Time) (seq n : ℕ) (is : List Incident)
    → seq < n
    → AreEntries seq is
    → HasOtherIds (incident_id now n) is
AreEntries-HasOtherIds now seq n [] above h = tt
AreEntries-HasOtherIds now seq n (i ∷ is) above (e, h) =
    (issued-ne now seq n i.id i above e, AreEntries-HasOtherIds now seq n is above h)

-- A write under another id leaves the ids free.
pub put-AreFree :
    (m : Map Incident) (id : String) (i : Incident) (is : List Incident)
    → HasOtherIds id is
    → AreFree m is
    → AreFree (put m id i) is
put-AreFree m id i [] other h = tt
put-AreFree m id i (j ∷ is) (differs, other) (free, h) =
    (get-put_ne m id j.id i (λ same. differs (sym same)) ∙ free, put-AreFree m id i is other h)

-- A change in place takes no free id, and adds no incident.
modify-free :
    (id : String) (change : Incident → Incident) (s : MemoryStore) (j : String)
    → get s.incidents j ≡ none
    → get (modify id change s).1.incidents j ≡ none
unfolding modify
modify-free id change s j free = elim (Option-cases (get s.incidents id)) [
  | inl missing ↦ rw (missing, modify) free
  | inr (i, found) ↦ rw (found, modify) (rw get-put (ground (arith, eq_iff id j)))
]

modify-length :
    (id : String) (change : Incident → Incident) (s : MemoryStore)
    → length (modify id change s).1.incidents ≡ length s.incidents
unfolding modify
modify-length id change s = elim (Option-cases (get s.incidents id)) [
  | inl missing ↦ rw (missing, modify) refl
  | inr (i, found) ↦ rw (found, modify) (length-put_old s.incidents id (change i) i found)
]

-- A command never turns the counter of the incidents back.
pub execute_command-seq :
    (c : Command) (clock : Clock) (s : MemoryStore)
    → s.seq + 1 < 2 ^ 64
    → s.seq ≤ (execute_command c clock s).seq
unfolding execute_command create_incident save_analysis save_report review_incident
execute_command-seq (create req) clock s room = omega (arith, next_u64-eq_suc s.seq room)
execute_command-seq (analyse id req) clock s room =
    omega (arith, modify_counters id (with_analysis req (clock 0)) s)
execute_command-seq (report id req) clock s room =
    omega (arith, modify_counters id (with_report req (clock 0)) s)
execute_command-seq (review id d req) clock s room =
    omega (arith, modify_counters id (with_review (decision_status d) req clock) s)
execute_command-seq (event id req) clock s room = unfold record_event in ground arith
execute_command-seq (agent_run id req) clock s room = unfold record_agent_run in ground arith

-- What a call leaves: an id that was issued and is free stays free.
issued_free :
    (c : Command) (clock : Clock) (s : MemoryStore) (i : Incident)
    → HasRoom 1 s
    → IsEntry s.seq i.id i
    → get s.incidents i.id ≡ none
    → get (execute_command c clock s).incidents i.id ≡ none
unfolding execute_command create_incident save_analysis save_report review_incident
issued_free (create req) clock s i room e free =
    get-put_ne s.incidents (incident_id (clock 0) (next_u64 s.seq)) i.id _ (λ same.
      issued-ne (clock 0) s.seq (next_u64 s.seq) i.id i
        (omega (arith, next_u64-eq_suc s.seq (omega arith))) e (sym same))
    ∙ free
issued_free (analyse id req) clock s i room e free = modify-free id _ s i.id free
issued_free (report id req) clock s i room e free = modify-free id _ s i.id free
issued_free (review id d req) clock s i room e free = modify-free id _ s i.id free
issued_free (event id req) clock s i room e free = unfold record_event in ground arith
issued_free (agent_run id req) clock s i room e free = unfold record_agent_run in ground arith

pub execute_command-AreFree :
    (c : Command) (clock : Clock) (s : MemoryStore) (is : List Incident)
    → HasRoom 1 s
    → AreEntries s.seq is
    → AreFree s.incidents is
    → AreFree (execute_command c clock s).incidents is
execute_command-AreFree c clock s [] room h free = tt
execute_command-AreFree c clock s (i ∷ is) room (e, h) (free, rest) =
    (issued_free c clock s i room e free, execute_command-AreFree c clock s is room h rest)

-- A call takes a number from the counter of the incidents exactly if it adds an incident.
pub execute_command-accounted :
    (c : Command) (clock : Clock) (s : MemoryStore) (n : ℕ)
    → HasRoom 1 s
    → IsValid s
    → length s.incidents + n ≡ s.seq
    → length (execute_command c clock s).incidents + n ≡ (execute_command c clock s).seq
unfolding execute_command create_incident save_analysis save_report review_incident
execute_command-accounted (create req) clock s n room v same = omega (
  arith,
  next_u64-eq_suc s.seq (omega arith),
  length-put_new s.incidents (incident_id (clock 0) (next_u64 s.seq))
      (new_incident (incident_id (clock 0) (next_u64 s.seq)) req (clock 0))
      (incident_id-fresh (clock 0) s v room),
)
execute_command-accounted (analyse id req) clock s n room v same = omega (
  arith,
  modify_counters id (with_analysis req (clock 0)) s,
  modify-length id (with_analysis req (clock 0)) s,
)
execute_command-accounted (report id req) clock s n room v same = omega (
  arith,
  modify_counters id (with_report req (clock 0)) s,
  modify-length id (with_report req (clock 0)) s,
)
execute_command-accounted (review id d req) clock s n room v same = omega (
  arith,
  modify_counters id (with_review (decision_status d) req clock) s,
  modify-length id (with_review (decision_status d) req clock) s,
)
execute_command-accounted (event id req) clock s n room v same = unfold record_event in ground arith
execute_command-accounted (agent_run id req) clock s n room v same =
    unfold record_agent_run in ground arith
