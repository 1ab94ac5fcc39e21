-- ===== src/Base/Slice.antt =====
-- Go's slices: a slice is nil or holds items. `append` and `range` do not tell a nil slice from an
-- empty one; `encoding/json` does (`null` and `[]`).
use mathlib.Core.Path.{◌≡◌, refl}
use mathlib.Core.List.{List, [], ◌∷◌}

pub data Slice {ℓ} (A : Type ℓ) : Type ℓ where
  nil_slice : Slice A
  slice : List A → Slice A

module _ {ℓ} {A : Type ℓ} where
  abbrev pub items : Slice A → List A
  items nil_slice = []
  items (slice xs) = xs

  -- The slice that `append(nil, xs...)` returns: still nil when nothing is appended.
  abbrev of_list : List A → Slice A
  of_list [] = nil_slice
  of_list (x ∷ xs) = slice (x ∷ xs)

  -- `append([]T(nil), s...)`.
  unfoldable pub copy : Slice A → Slice A
  copy s = of_list (items s)

  pub items-copy : (s : Slice A) → items (copy s) ≡ items s
  unfolding copy
  items-copy nil_slice = refl
  items-copy (slice []) = refl
  items-copy (slice (x ∷ xs)) = refl

  pub copy_idem : (s : Slice A) → copy (copy s) ≡ copy s
  unfolding copy
  copy_idem nil_slice = refl
  copy_idem (slice []) = refl
  copy_idem (slice (x ∷ xs)) = refl
