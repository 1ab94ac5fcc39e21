-- ===== src/Incident/Pages.antt =====
-- `handleListIncidents` of internal/incidentapi/server.go over the memory store.
use mathlib.Core.List.{Perm}
use graph_ops.Base.{String, ◌≡◌, ◌≢◌, ap, some, List, eq-false_of_ne}
use graph_ops.Base.Atoi.{atoi}
use graph_ops.Base.Int.{ℤ, pos}
use graph_ops.Base.Map.{values}
use graph_ops.Base.Slice.{slice}
use graph_ops.Base.Text.{trim_space}
use graph_ops.Incident.Types.{Incident}
use graph_ops.Incident.Requests.{ListIncidentsRequest}
use graph_ops.Incident.Store.{MemoryStore}
use graph_ops.Incident.Listings.{IsListing, list_incidents-IsListing}
use graph_ops.Incident.Server.{
  handle_list_incidents, incidents_body, limit_of, list_within, respond,
}
use graph_ops.Incident.Api.{memory_repository}

-- The number that the query parameter `limit` stands for: none where it is blank.
pub data Asks (limit : String) : ℤ → Type 0 where
  blank : trim_space limit ≡ "" → Asks limit (pos 0)
  number : {n : ℤ} → trim_space limit ≢ "" → atoi (trim_space limit) ≡ some n → Asks limit n

limit_of-Asks : (limit : String) (n : ℤ) → Asks limit n → limit_of (trim_space limit) ≡ some n
unfolding limit_of
limit_of-Asks limit _ (blank e) = rw e
limit_of-Asks limit n (number h e) = rw (eq-false_of_ne (trim_space limit) "" h) e

-- A GET of the incidents whose `limit` is blank or an integer is answered with status 200 and the
-- incidents that match the service name and the status, without the space around them: the newest
-- first, and as many as the limit says, which is 50 if it is blank or not positive.
pub handle_list_incidents-IsListing :
    (range_order : List Incident → List Incident) (service_name status limit : String) (n : ℤ)
    (s : MemoryStore)
    → ((xs : List Incident) → Perm (range_order xs) xs)
    → Asks limit n
    → let req : ListIncidentsRequest = record {
      service_name = trim_space service_name;
      status = trim_space status;
      limit = n;
    } in
      (out : List Incident) × (handle_list_incidents
          (memory_repository range_order)
          service_name
          status
          limit
          s
        ≡ record { status = 200; body = incidents_body (slice out) })
      × IsListing req (values s.incidents) out
unfolding handle_list_incidents list_within respond
handle_list_incidents-IsListing range_order service_name status limit n s visits asks =
    let req : ListIncidentsRequest = record {
      service_name = trim_space service_name;
      status = trim_space status;
      limit = n;
    } in
    let (out, listed, is) = list_incidents-IsListing range_order req s visits in
    (out, rw (limit_of-Asks limit n asks) (ap (respond 200 incidents_body) listed), is)
