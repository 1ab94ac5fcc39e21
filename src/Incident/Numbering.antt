-- ===== src/Incident/Numbering.antt =====
-- The numbers that `MemoryStore` (internal/incidentapi/store.go) gives to the events and the agent
-- runs of an incident: they belong to the incident and ascend.
use graph_ops.Base.{
  ℕ, ◌≤◌, ◌<◌, String, ◌≡◌, List, [], ◌∷◌, ◌++◌, arith, eq_iff, ◌==◌, inl, inr, Bool-cases,
  ne_of_eq-false,
}
use mathlib.Core.Path.{subst}
use graph_ops.Base.Int.{ℤ, pos}
use graph_ops.Base.Map.{Map, put}
use graph_ops.Base.Slice.{Slice, slice, items}
use graph_ops.Incident.Store.{at_key, at_key-put_self, at_key-put_ne}

module _ {A : Type 0} (number : A → ℤ) (owner : A → String) (id : String) where
  -- Every item belongs to the incident; the numbers ascend, above `lo` and up to `hi`.
  abbrev pub Numbered : ℕ → ℕ → List A → Type 0
  Numbered lo hi [] = lo ≤ hi
  Numbered lo hi (x ∷ xs) =
      (n : ℕ) × (number x ≡ pos n) × (owner x ≡ id) × (lo < n) × Numbered n hi xs

  pub Numbered-le : (lo hi m : ℕ) (xs : List A) → Numbered lo hi xs → hi ≤ m → Numbered lo m xs
  Numbered-le lo hi m [] h le = omega arith
  Numbered-le lo hi m (x ∷ xs) (n, e, own, lt, h) le = (n, e, own, lt, Numbered-le n hi m xs h le)

  pub Numbered-append :
      (lo hi m : ℕ) (xs : List A) (x : A)
      → Numbered lo hi xs
      → hi < m
      → number x ≡ pos m
      → owner x ≡ id
      → Numbered lo m (xs ++ x ∷ [])
  Numbered-append lo hi m [] x h lt e own = (m, e, own, omega arith, omega arith)
  Numbered-append lo hi m (y ∷ xs) x (n, e', own', lt', h) lt e own =
      (n, e', own', lt', Numbered-append n hi m xs x h lt e own)

module _ {A : Type 0} (number : A → ℤ) (owner : A → String) where
  -- The map of the slices, after an item has been added under `id`.
  pub put-Numbered :
      (m : Map (Slice A)) (hi next : ℕ) (id : String) (x : A)
      → ((j : String) → Numbered number owner j 0 hi (items (at_key m j)))
      → hi < next
      → number x ≡ pos next
      → owner x ≡ id
      → (j : String)
      → Numbered number owner j 0 next
          (items (at_key (put m id (slice (items (at_key m id) ++ x ∷ []))) j))
  put-Numbered m hi next id x all lt e own j =
      let grown = slice (items (at_key m id) ++ x ∷ []) in
      elim (Bool-cases (id == j)) [
        | inl same ↦
            subst (λ k. Numbered number owner k 0 next (items (at_key (put m id grown) k)))
              ((eq_iff id j).0 same)
              (rw (at_key-put_self m id grown) (
                Numbered-append number owner id 0 hi next (items (at_key m id)) x (all id) lt e
                  own))
        | inr other ↦
            rw (at_key-put_ne m id j grown (ne_of_eq-false id j other))
              (Numbered-le number owner j 0 hi next (items (at_key m j)) (all j) (omega arith))
      ]
