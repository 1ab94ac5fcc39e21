-- ===== src/Incident/Store/Listing.antt =====
-- internal/incidentapi/store.go: `ListIncidents`.
use graph_ops.Base.{◌==◌, Bool, ◌&&◌, not, List, [], ◌∷◌, length, if◌then◌else◌}
use graph_ops.Base.Int.{ℤ, pos, pos_part, ltb_ℤ, leb_ℤ}
use graph_ops.Base.Map.{values}
use graph_ops.Base.Result.{ok}
use graph_ops.Base.Slice.{Slice, slice}
use graph_ops.Base.Sort.{sort_by, take}
use graph_ops.Base.Value.{after}
use graph_ops.Incident.Types.{Incident}
use graph_ops.Incident.Requests.{ListIncidentsRequest}
use graph_ops.Incident.Clone.{clone_incident}
use graph_ops.Incident.Repository.{Outcome}
use graph_ops.Incident.Store.State.{MemoryStore}

-- The two `continue`s of the loop in `ListIncidents`.
unfoldable pub is_selected : ListIncidentsRequest → Incident → Bool
is_selected req incident =
    not (not (req.service_name == "") && not (incident.service_name == req.service_name))
    && not (not (req.status == "") && not (incident.status == req.status))

unfoldable pub select : ListIncidentsRequest → List Incident → List Incident
select req [] = []
select req (incident ∷ rest) =
    let selected = select req rest in
    if is_selected req incident then clone_incident incident ∷ selected else selected

abbrev pub newer : Incident → Incident → Bool
newer left right = after left.created_at right.created_at

abbrev pub list_limit : ListIncidentsRequest → ℤ
list_limit req = if leb_ℤ req.limit (pos 0) then pos 50 else req.limit

abbrev pub truncate : ℤ → List Incident → List Incident
truncate limit found =
    if ltb_ℤ limit (pos (length found)) then take (pos_part limit) found else found

-- `sort.Slice` leaves the order of equally old incidents open; `sort_by` picks one.
-- `range_order` is the order in which `range` visits the map: any permutation of its values.
unfoldable pub list_incidents :
    (List Incident → List Incident) → ListIncidentsRequest → MemoryStore → Outcome (Slice Incident)
list_incidents range_order req s =
    let found = select req (range_order (values s.incidents)) in
    ok (slice (truncate (list_limit req) (sort_by newer found)))
