-- ===== src/Incident/Mysql/Listing.antt =====
-- The query of `ListIncidents` in internal/incidentapi/mysql_store.go: its four texts, and what SQL
-- says that they select.
use mathlib.Core.List.{Perm}
use graph_ops.Base.{
  ℕ, ◌≤◌, String, ◌==◌, ◌≡◌, ◌⊎◌, refl, inl, inr, Bool, true, false, ◌&&◌, Option, none, some, List,
  [], ◌∷◌, ◌++◌, map, length, arith, Bool-cases, if◌then◌else◌,
}
use graph_ops.Base.Int.{pos, ltb_ℤ}
use graph_ops.Base.Rows.{keep_rows}
use graph_ops.Base.Sort.{
  IsSorted, sort_by, sort_by-perm, sort_by-IsSorted, take, drop, take-append-drop, drop-full,
  length-take,
}
use graph_ops.Incident.Requests.{ListIncidentsRequest}
use graph_ops.Incident.Listings.{asked_for, limit-asked_for}
use graph_ops.Incident.Mysql.Database.{Argument, text, integer, IncidentColumns}
use graph_ops.Incident.Mysql.Reads.{list_conditions, list_query, list_arguments}
use graph_ops.Incident.Mysql.Tables.{Tables, Storage}

-- The text for a service and a status that are asked for, or not.
abbrev pub listing_text : Option String → Option String → String
listing_text none none = "SELECT id FROM incidents ORDER BY created_at DESC LIMIT ?"
listing_text (some service) none =
    "SELECT id FROM incidents WHERE service_name = ? ORDER BY created_at DESC LIMIT ?"
listing_text none (some status) =
    "SELECT id FROM incidents WHERE status = ? ORDER BY created_at DESC LIMIT ?"
listing_text (some service) (some status) =
    "SELECT id FROM incidents WHERE service_name = ? AND status = ? ORDER BY created_at DESC LIMIT ?"

abbrev pub listing_arguments : Option String → Option String → ℕ → List Argument
listing_arguments none none limit = integer (pos limit) ∷ []
listing_arguments (some service) none limit = text service ∷ integer (pos limit) ∷ []
listing_arguments none (some status) limit = text status ∷ integer (pos limit) ∷ []
listing_arguments (some service) (some status) limit =
    text service ∷ text status ∷ integer (pos limit) ∷ []

-- `left` was created after `right`.
abbrev pub is_newer : IncidentColumns → IncidentColumns → Bool
is_newer left right = ltb_ℤ right.created_at.nanos left.created_at.nanos

module _ (storage : Storage) where
  abbrev pub column_is : Option String → String → Bool
  column_is none column = true
  column_is (some asked) column = storage.same column asked

  -- The incidents that are asked for.
  abbrev pub asked_rows : Option String → Option String → Tables → List IncidentColumns
  asked_rows service status t =
      keep_rows (λ row. column_is service row.service_name && column_is status row.status)
        t.incidents

  -- The ids of the first `limit` of the incidents that are asked for, newest first. Rows of one time
  -- may come in any order.
  pub record IsSelected (service status : Option String) (limit : ℕ) (t : Tables)
      (ids : List String) : Type 0 where
    pub picked : List IncidentColumns
    pub rest : List IncidentColumns
    pub named : ids ≡ map (λ row. row.id) picked
    pub whole : Perm (picked ++ rest) (asked_rows service status t)
    pub newest_first : IsSorted is_newer (picked ++ rest)
    pub bounded : length picked ≤ limit
    pub full : (rest ≡ []) ⊎ (length picked ≡ limit)

  is_newer_asym : (a b : IncidentColumns) → is_newer a b ≡ true → is_newer b a ≡ false
  is_newer_asym a b h = ground arith

  is_newer_trans :
      (a b c : IncidentColumns) → is_newer b a ≡ false → is_newer c b ≡ false → is_newer c a ≡ false
  is_newer_trans a b c h k = ground arith

  -- Sorting and cutting selects.
  pub sorted-IsSelected :
      (service status : Option String) (limit : ℕ) (t : Tables)
      → IsSelected service status limit t
          (map (λ row. row.id) (take limit (sort_by is_newer (asked_rows service status t))))
  sorted-IsSelected service status limit t =
      let rows = asked_rows service status t in
      let xs = sort_by is_newer rows in
      record {
        picked = take limit xs;
        rest = drop limit xs;
        named = refl;
        whole = rw take-append-drop (sort_by-perm is_newer rows);
        newest_first =
            rw take-append-drop (sort_by-IsSorted is_newer is_newer_asym is_newer_trans rows);
        bounded = omega (arith, length-take limit xs);
        full = drop-full limit xs;
      }

-- A filter of a request: an empty text asks for nothing.
abbrev pub filter_of : String → Option String
filter_of value = if value == "" then none else some value

-- The text and the arguments that the request is turned into.
pub list_query-text :
    (req : ListIncidentsRequest)
    → (list_query req ≡ listing_text (filter_of req.service_name) (filter_of req.status))
      × (list_arguments req
          ≡ listing_arguments
              (filter_of req.service_name)
              (filter_of req.status)
              (asked_for req.limit))
unfolding list_query list_arguments list_conditions
list_query-text req = elim (Bool-cases (req.service_name == "")) [
  | inl any_service ↦ elim (Bool-cases (req.status == "")) [
    | inl any_status ↦
        (rw (any_service, any_status) refl, rw (any_service, any_status, limit-asked_for) refl)
    | inr one_status ↦
        (rw (any_service, one_status) refl, rw (any_service, one_status, limit-asked_for) refl)
  ]
  | inr one_service ↦ elim (Bool-cases (req.status == "")) [
    | inl any_status ↦
        (rw (one_service, any_status) refl, rw (one_service, any_status, limit-asked_for) refl)
    | inr one_status ↦
        (rw (one_service, one_status) refl, rw (one_service, one_status, limit-asked_for) refl)
  ]
]
