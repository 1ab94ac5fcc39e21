-- ===== src/Incident/Server/Replies.antt =====
-- internal/incidentapi/server.go: `decodeJSON`, `writeJSON`, `writeError` and `writeStoreError`.
use graph_ops.Base.{ℕ, String, ◌==◌, Bool}
use graph_ops.Base.Result.{Result, ok, err}
use graph_ops.Base.Slice.{Slice}
use graph_ops.Base.Text.{trim_space}
use graph_ops.Incident.Types.{Incident, IncidentEvent, AgentRun, FinalReport}
use graph_ops.Incident.Repository.{StoreError, incident_not_found, failed}

-- What `decodeJSON` makes of a body: the request, or the text of an error.
abbrev pub Decoded : Type 0 → Type 0
Decoded A = Result String A

-- What is encoded in a response. The lists stand under `items`, a message under `error`, and a
-- recorded item is answered by `{"status": "recorded"}`.
pub data Body : Type 0 where
  error_body : String → Body
  incident_body : Incident → Body
  incidents_body : Slice Incident → Body
  events_body : Slice IncidentEvent → Body
  agent_runs_body : Slice AgentRun → Body
  report_body : FinalReport → Body
  recorded_body : Body

-- `writeJSON`: the status code and the payload.
pub record Response : Type 0 where
  pub status : ℕ
  pub body : Body

abbrev pub write_error : ℕ → String → Response
write_error status message = record { status = status; body = error_body message }

unfoldable pub write_store_error : StoreError → Response
write_store_error incident_not_found = write_error 404 "incident not found"
write_store_error (failed message) = write_error 500 message

-- The end of a handler: the store's error, or its value as the payload.
unfoldable pub respond {ℓ} : {A : Type ℓ} → ℕ → (A → Body) → Result StoreError A → Response
unfolding write_store_error
respond status body (ok value) = record { status = status; body = body value }
respond status body (err e) = write_store_error e

-- `strings.TrimSpace(s) == ""`
abbrev pub is_blank : String → Bool
is_blank s = trim_space s == ""
