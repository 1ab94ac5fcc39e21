-- ===== src/Incident/Interleaving.antt =====
-- `CreateIncident` of internal/incidentapi/store.go in its two steps: it reads the clock and takes a
-- number from the atomic counter, and only then waits for the lock under which it writes. Between
-- the two, other calls may take numbers and write.
use graph_ops.Base.{
  ℕ, zero, suc, ◌+◌, ◌^◌, ◌<◌, String, ◌≡◌, refl, ◌∙◌, none, List, [], ◌∷◌, length, arith,
}
use graph_ops.Base.Int.{next_u64, next_u64-eq_suc, next_u64-le}
use graph_ops.Base.Map.{get, put, put-at_each, get-put_ne, length-put_new}
use graph_ops.Base.Value.{Time, Clock}
use graph_ops.Incident.Types.{Incident}
use graph_ops.Incident.Requests.{CreateIncidentRequest}
use graph_ops.Incident.Store.{MemoryStore, new_memory_store, incident_id, new_incident}
use graph_ops.Incident.Commands.{Command, execute_command}
use graph_ops.Incident.Invariant.{
  IsValid, IsEntry, HasRoom, IsEntry-le, new_incident-IsEntry, new_memory_store-IsValid,
  incident_id-fresh,
}
use graph_ops.Incident.Runs.{execute_command-IsValid, execute_command-HasRoom}
use graph_ops.Incident.Waiting.{
  AreEntries, AreFree, HasOtherIds, HaveDistinctIds, AreEntries-le, AreEntries-HasOtherIds,
  put-AreFree, execute_command-seq, execute_command-AreFree, execute_command-accounted,
}

-- The store, and the incidents of the calls that wait for the lock.
pub record Shared : Type 0 where
  pub store : MemoryStore
  pub waiting : List Incident

-- What happens next: a call of `CreateIncident` takes its number, the call with this position among
-- the waiting ones gets the lock, or another call runs.
pub data Event : Type 0 where
  reserve : CreateIncidentRequest → Clock → Event
  insert : ℕ → Event
  call : Command → Clock → Event

unfoldable pub insert_at : ℕ → List Incident → MemoryStore → Shared
insert_at k [] s = record { store = s; waiting = [] }
insert_at zero (i ∷ rest) s = record {
  store = record s { incidents = put s.incidents i.id i };
  waiting = rest;
}
insert_at (suc k) (i ∷ rest) s =
    let done = insert_at k rest s in record { store = done.store; waiting = i ∷ done.waiting }

unfoldable pub step : Event → Shared → Shared
unfolding insert_at
step (reserve req clock) sh =
    let now = clock 0 in
    let seq = next_u64 sh.store.seq in
    record {
      store = record sh.store { seq = seq };
      waiting = new_incident (incident_id now seq) req now ∷ sh.waiting;
    }
step (insert k) sh = insert_at k sh.waiting sh.store
step (call c clock) sh = record { store = execute_command c clock sh.store; waiting = sh.waiting }

unfoldable pub run_events : List Event → Shared → Shared
unfolding step
run_events [] sh = sh
run_events (e ∷ es) sh = run_events es (step e sh)

-- The store is valid, and each incident that waits is one that can stand under its id, an id that
-- neither the store nor another waiting call has; and every number that was taken is that of an
-- incident that is in the store or waits.
pub record IsSound (sh : Shared) : Type 0 where
  pub store : IsValid sh.store
  pub waiting : AreEntries sh.store.seq sh.waiting
  pub free : AreFree sh.store.incidents sh.waiting
  pub distinct : HaveDistinctIds sh.waiting
  pub accounted : length sh.store.incidents + length sh.waiting ≡ sh.store.seq

new_memory_store-IsSound : IsSound (record { store = new_memory_store; waiting = [] })
new_memory_store-IsSound = record {
  store = new_memory_store-IsValid;
  waiting = tt;
  free = tt;
  distinct = tt;
  accounted = refl;
}

-- What the lock holder writes leaves the counters alone.
insert_at-counters :
    (k : ℕ) (is : List Incident) (s : MemoryStore)
    → ((insert_at k is s).store.seq ≡ s.seq)
      × ((insert_at k is s).store.event_seq ≡ s.event_seq)
      × ((insert_at k is s).store.agent_run_seq ≡ s.agent_run_seq)
unfolding insert_at
insert_at-counters k [] s = (refl, refl, refl)
insert_at-counters zero (i ∷ is) s = (refl, refl, refl)
insert_at-counters (suc k) (i ∷ is) s = insert_at-counters k is s

-- It takes no id but one of those that wait.
insert_at-others :
    (k : ℕ) (is : List Incident) (s : MemoryStore) (id : String)
    → HasOtherIds id is
    → get s.incidents id ≡ none
    → (get (insert_at k is s).store.incidents id ≡ none) × HasOtherIds id (insert_at k is s).waiting
unfolding insert_at
insert_at-others k [] s id other free = (free, tt)
insert_at-others zero (i ∷ is) s id (differs, other) free =
    (get-put_ne s.incidents i.id id i differs ∙ free, other)
insert_at-others (suc k) (i ∷ is) s id (differs, other) free =
    let (still, rest) = insert_at-others k is s id other free in (still, (differs, rest))

insert_at-IsSound :
    (k : ℕ) (is : List Incident) (s : MemoryStore) (n : ℕ)
    → IsValid s
    → AreEntries s.seq is
    → AreFree s.incidents is
    → HaveDistinctIds is
    → length s.incidents + (n + length is) ≡ s.seq
    → IsValid (insert_at k is s).store
      × AreEntries s.seq (insert_at k is s).waiting
      × AreFree (insert_at k is s).store.incidents (insert_at k is s).waiting
      × HaveDistinctIds (insert_at k is s).waiting
      × (length (insert_at k is s).store.incidents + (n + length (insert_at k is s).waiting)
          ≡ s.seq)
unfolding insert_at
insert_at-IsSound k [] s n v h free distinct same = (v, tt, tt, tt, same)
insert_at-IsSound zero (i ∷ is) s n v (e, h) (absent, free) (others, distinct) same = (
  record {
    entries = put-at_each (IsEntry s.seq) s.incidents i.id i v.entries e;
    events = v.events;
    runs = v.runs;
  },
  h,
  put-AreFree s.incidents i.id i is others free,
  distinct,
  omega (arith, length-put_new s.incidents i.id i absent),
)
insert_at-IsSound (suc k) (i ∷ is) s n v (e, h) (absent, free) (others, distinct) same =
    let (valid, rest, now_free, apart, left) =
      insert_at-IsSound k is s (suc n) v h free distinct (omega arith) in
    let (still, others') = insert_at-others k is s i.id others absent in
    (valid, (e, rest), (still, now_free), (others', apart), omega arith)

reserved-IsEntry :
    (now : Time) (n : ℕ) (req : CreateIncidentRequest)
    → IsEntry n
        (new_incident (incident_id now n) req now).id
        (new_incident (incident_id now n) req now)
unfolding new_incident
reserved-IsEntry now n req = new_incident-IsEntry now n req

step-IsSound :
    (e : Event) (n : ℕ) (sh : Shared)
    → HasRoom (suc n) sh.store
    → IsSound sh
    → IsSound (step e sh) × HasRoom n (step e sh).store
unfolding step new_incident
step-IsSound (reserve req clock) n sh room v =
    let seq = next_u64 sh.store.seq in
    let next : seq ≡ sh.store.seq + 1 = next_u64-eq_suc sh.store.seq (omega arith) in
    (
      record {
        store = record {
          entries =
              λ id i h. IsEntry-le sh.store.seq seq id i (omega arith) (v.store.entries id i h);
          events = v.store.events;
          runs = v.store.runs;
        };
        waiting = (
          reserved-IsEntry (clock 0) seq req,
          AreEntries-le sh.store.seq seq sh.waiting (omega arith) v.waiting,
        );
        free = (incident_id-fresh (clock 0) sh.store v.store (omega arith), v.free);
        distinct = (
          AreEntries-HasOtherIds (clock 0) sh.store.seq seq sh.waiting (omega arith) v.waiting,
          v.distinct,
        );
        accounted = omega (arith, v.accounted);
      },
      omega (arith, next_u64-le sh.store.seq),
    )
step-IsSound (insert k) n sh room v =
    let (valid, rest, free, distinct, left) =
      insert_at-IsSound k sh.waiting sh.store 0 v.store v.waiting v.free v.distinct
        (omega (arith, v.accounted)) in
    let (a, b, c) = insert_at-counters k sh.waiting sh.store in
    (
      record {
        store = valid;
        waiting = rw a rest;
        free = free;
        distinct = distinct;
        accounted = omega (arith, left, a);
      },
      omega arith,
    )
step-IsSound (call c clock) n sh room v =
    let room_1 : HasRoom 1 sh.store = omega arith in
    (
      record {
        store = execute_command-IsValid c clock sh.store room_1 v.store;
        waiting =
            AreEntries-le sh.store.seq (execute_command c clock sh.store).seq sh.waiting
              (execute_command-seq c clock sh.store (omega arith)) v.waiting;
        free = execute_command-AreFree c clock sh.store sh.waiting room_1 v.waiting v.free;
        distinct = v.distinct;
        accounted =
            execute_command-accounted c clock sh.store (length sh.waiting) room_1 v.store
              v.accounted;
      },
      execute_command-HasRoom c clock n sh.store room,
    )

run_events-IsSound_from :
    (es : List Event) (sh : Shared)
    → HasRoom (length es) sh.store
    → IsSound sh
    → IsSound (run_events es sh)
unfolding run_events
run_events-IsSound_from [] sh room v = v
run_events-IsSound_from (e ∷ es) sh room v =
    let (sound, rest) = step-IsSound e (length es) sh room v in
    run_events-IsSound_from es (step e sh) rest sound

-- However creations are interleaved with each other and with other calls, between the taking of a
-- number and the writing of the incident: after fewer than 2^63 events from the empty store the
-- store is valid; every incident that waits to be written can stand under its id, which is the id of
-- no incident in the store and of no other that waits, so that its write replaces nothing; and there
-- are as many incidents, in the store and waiting, as numbers were taken.
pub run_events-IsSound :
    (es : List Event)
    → length es < 2 ^ 63
    → IsSound (run_events es (record { store = new_memory_store; waiting = [] }))
run_events-IsSound es few =
    run_events-IsSound_from es (record { store = new_memory_store; waiting = [] }) (omega arith)
      new_memory_store-IsSound
