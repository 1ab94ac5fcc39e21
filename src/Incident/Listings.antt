-- ===== src/Incident/Listings.antt =====
-- What `ListIncidents` of internal/incidentapi/store.go returns.
use mathlib.Core.List.{Perm, filter}
use mathlib.Core.List.Perm
use graph_ops.Base.{
  ℕ, zero, suc, Bool, ◌≤◌, String, ◌==◌, ◌≡◌, ◌≢◌, ◌↔◌, ◌⊎◌, refl, sym, ap, inl, inr, true, false,
  not, ◌&&◌, List, [], ◌∷◌, ◌++◌, map, arith, length, eq_iff, Bool-cases, ne_of_eq-false,
  if◌then◌else◌,
}
use graph_ops.Base.Int.{ℤ, pos, negsuc, ltb_ℤ, leb_ℤ}
use graph_ops.Base.Map.{values}
use graph_ops.Base.Result.{ok}
use graph_ops.Base.Slice.{slice}
use graph_ops.Base.Sort.{
  IsSorted, sort_by, sort_by-perm, sort_by-IsSorted, take, drop, take-append-drop, take_all,
  drop-full, length-take,
}
use graph_ops.Incident.Types.{Incident}
use graph_ops.Incident.Requests.{ListIncidentsRequest}
use graph_ops.Incident.Clone.{clone_incident}
use graph_ops.Incident.Store.{truncate, MemoryStore, newer, is_selected, select, list_incidents}

-- An incident is asked for: a filter that is not empty names its service, or its status.
pub record Matches (req : ListIncidentsRequest) (i : Incident) : Type 0 where
  pub service : req.service_name ≢ "" → i.service_name ≡ req.service_name
  pub status : req.status ≢ "" → i.status ≡ req.status

field_iff :
    (asked found : String)
    → (not (not (asked == "") && not (found == asked)) ≡ true) ↔ (asked ≢ "" → found ≡ asked)
field_iff asked found = elim (Bool-cases (asked == "")) [
  | inl none_asked ↦ rw none_asked ((λ _ h. absurd (h ((eq_iff asked "").0 none_asked))), λ _. refl)
  | inr filtered ↦ rw filtered (
    (λ h _. (eq_iff found asked).0 (ground arith)),
    λ h. rw ((eq_iff found asked).1 (h (ne_of_eq-false asked "" filtered))),
  )
]

is_selected_iff :
    (req : ListIncidentsRequest) (i : Incident) → (is_selected req i ≡ true) ↔ Matches req i
unfolding is_selected
is_selected_iff req i = (
  (λ h. record {
    service = (field_iff req.service_name i.service_name).0 (ground arith);
    status = (field_iff req.status i.status).0 (ground arith);
  }),
  λ m. rw (
    (field_iff req.service_name i.service_name).1 m.service,
    (field_iff req.status i.status).1 m.status,
  ),
)

pub dec_matches : (req : ListIncidentsRequest) (i : Incident) → Dec (Matches req i)
dec_matches req i = elim (Bool-cases (is_selected req i)) [
  | inl hit ↦ yes ((is_selected_iff req i).0 hit)
  | inr miss ↦ no (λ m. cc ((is_selected_iff req i).1 m))
]

select-filter :
    (req : ListIncidentsRequest) (xs : List Incident)
    → select req xs ≡ map clone_incident (filter (dec_matches req) xs)
unfolding select dec_matches
select-filter req [] = refl
select-filter req (x ∷ xs) = ground (arith, select-filter req xs)

-- How many incidents are asked for.
abbrev pub asked_for : ℤ → ℕ
asked_for (pos zero) = 50
asked_for (pos (suc n)) = suc n
asked_for (negsuc n) = 50

-- `left` was created after `right`.
abbrev pub is_later : Incident → Incident → Bool
is_later left right = ltb_ℤ right.created_at.nanos left.created_at.nanos

-- What one listing is of a store: the first incidents of all that match, newest first.
pub record IsListing (req : ListIncidentsRequest) (stored : List Incident) (out : List Incident)
    : Type 0 where
  pub rest : List Incident
  pub whole : Perm (out ++ rest) (map clone_incident (filter (dec_matches req) stored))
  pub newest_first : IsSorted is_later (out ++ rest)
  pub bounded : length out ≤ asked_for req.limit
  pub full : (rest ≡ []) ⊎ (length out ≡ asked_for req.limit)

newer_asym : (a b : Incident) → newer a b ≡ true → newer b a ≡ false
newer_asym a b h = ground arith

newer_trans : (a b c : Incident) → newer b a ≡ false → newer c b ≡ false → newer c a ≡ false
newer_trans a b c h k = ground arith

pub limit-asked_for :
    (limit : ℤ) → (if leb_ℤ limit (pos 0) then pos 50 else limit) ≡ pos (asked_for limit)
limit-asked_for (pos zero) = refl
limit-asked_for (pos (suc n)) = ground arith
limit-asked_for (negsuc n) = ground arith

truncate-take : (n : ℕ) (xs : List Incident) → truncate (pos n) xs ≡ take n xs
truncate-take n xs = elim (Bool-cases (ltb_ℤ (pos n) (pos (length xs)))) [
  | inl long ↦ rw long
  | inr short ↦ rw short (sym (take_all n xs (ground arith)))
]

-- Whatever the order in which the map is visited: a listing is the first `limit` of all incidents
-- of the store that match the request, newest first (50 of them if the limit is not positive), each
-- a copy of the stored one; it is shorter than the limit only if nothing else matches.
pub list_incidents-IsListing :
    (range_order : List Incident → List Incident) (req : ListIncidentsRequest) (s : MemoryStore)
    → ((xs : List Incident) → Perm (range_order xs) xs)
    → (out : List Incident) × (list_incidents range_order req s ≡ ok (slice out))
      × IsListing req (values s.incidents) out
unfolding list_incidents
list_incidents-IsListing range_order req s visits =
    let n = asked_for req.limit in
    let positive = limit-asked_for req.limit in
    let stored = values s.incidents in
    let xs = sort_by newer (select req (range_order stored)) in
    (
      take n xs,
      ap (λ found. ok (slice found)) (rw positive (truncate-take n xs)),
      record {
        rest = drop n xs;
        whole = rw take-append-drop (
            Perm.trans (sort_by-perm newer (select req (range_order stored))) (
              rw select-filter
                (Perm.map clone_incident (Perm.filter (dec_matches req) (visits stored)))));
        newest_first =
            rw take-append-drop
              (sort_by-IsSorted newer newer_asym newer_trans (select req (range_order stored)));
        bounded = omega (arith, length-take n xs);
        full = drop-full n xs;
      },
    )
