-- ===== src/Base/Map.antt =====
-- Go's maps with string keys, as association lists behind their laws. `put` overwrites in place or
-- adds at the end.
use Prim.Native.String.{String}
use mathlib.Core.Path.{◌≡◌, refl, sym, ◌∙◌, subst₂}
use mathlib.Core.Logic.{◌≢◌, inl, inr}
use mathlib.Core.Option.{Option, none, some}
use mathlib.Core.List.{List, [], ◌∷◌, ◌++◌, append-nil, append_assoc}
use native.Mathlib.Omega.{arith}
use text.Mathlib.Text.{◌==◌}
use text.Mathlib.TextEquality.{eq_iff}
use text.Mathlib.TextPositions.{eq_refl}
use Prim.Native.Nat.{suc}
use graph_ops.Base.Tests.{Bool-cases, eq-false_of_ne, if◌then◌else◌, length}

abbrev pub Map {ℓ} : Type ℓ → Type ℓ
Map V = List (String × V)

module _ {ℓ} {V : Type ℓ} where
  abbrev pub empty : Map V
  empty = []

  -- `v, ok := m[k]`
  unfoldable pub get : Map V → String → Option V
  get [] k = none
  get ((j, v) ∷ m) k = if j == k then some v else get m k

  -- `m[k] = v`
  unfoldable pub put : Map V → String → V → Map V
  put [] k v = (k, v) ∷ []
  put ((j, w) ∷ m) k v = if j == k then (j, v) ∷ m else (j, w) ∷ put m k v

  pub get-put :
      (m : Map V) (k j : String) (v : V) → get (put m k v) j ≡ (if k == j then some v else get m j)
  unfolding get put
  get-put [] k j v = refl
  get-put ((i, w) ∷ m) k j v = ground (arith, eq_iff k j, eq_iff i k, eq_iff i j, get-put m k j v)

  pub get-put_self : (m : Map V) (k : String) (v : V) → get (put m k v) k ≡ some v
  get-put_self m k v = rw (get-put, eq_refl)

  pub get-put_ne : (m : Map V) (k j : String) (v : V) → k ≢ j → get (put m k v) j ≡ get m j
  get-put_ne m k j v h = rw (get-put, eq-false_of_ne k j h)

  -- A write takes no key away.
  pub get-put_present :
      (m : Map V) (k j : String) (v w : V)
      → get m j ≡ some w
      → (x : V) × (get (put m k v) j ≡ some x)
  get-put_present m k j v w h = elim (Bool-cases (k == j)) [
    | inl same ↦ (v, rw (get-put, same))
    | inr other ↦ (w, rw (get-put, other) h)
  ]

  -- A write adds an entry exactly if the key is new.
  pub length-put_new :
      (m : Map V) (k : String) (v : V) → get m k ≡ none → length (put m k v) ≡ suc (length m)
  unfolding get put
  length-put_new [] k v absent = refl
  length-put_new ((j, w) ∷ m) k v absent = ground (arith, length-put_new m k v)

  pub length-put_old :
      (m : Map V) (k : String) (v w : V) → get m k ≡ some w → length (put m k v) ≡ length m
  unfolding get put
  length-put_old [] k v w there = cc
  length-put_old ((j, x) ∷ m) k v w there = ground (arith, length-put_old m k v w)

  -- What holds of every entry and of a new one holds of every entry after the write.
  pub put-at_each {κ} :
      (P : String → V → Type κ) (m : Map V) (k : String) (v : V)
      → ((j : String) (w : V) → get m j ≡ some w → P j w)
      → P k v
      → (j : String) (w : V) → get (put m k v) j ≡ some w
      → P j w
  put-at_each P m k v all here j w h = elim (Bool-cases (k == j)) [
    | inl same ↦
        let e : v ≡ w = ground (arith, get-put m k j v) in subst₂ P ((eq_iff k j).0 same) e here
    | inr other ↦ all j w (rw (get-put m k j v, other) at h)
  ]

  abbrev pub values : Map V → List V
  values [] = []
  values ((k, v) ∷ m) = v ∷ values m

pub get-empty {ℓ} : {V : Type ℓ} (k : String) → get (empty {V = V}) k ≡ none
unfolding get
get-empty k = refl

pub ruleset map_laws = (get-empty, get-put)

module _ {ℓ} {V : Type ℓ} where
  -- What every Go map has: a key stands in it once.
  abbrev pub HasDistinctKeys : Map V → Type ℓ
  HasDistinctKeys [] = Unit
  HasDistinctKeys ((k, v) ∷ m) = (get m k ≡ none) × HasDistinctKeys m

  pub put-HasDistinctKeys :
      (m : Map V) (k : String) (v : V) → HasDistinctKeys m → HasDistinctKeys (put m k v)
  unfolding put
  put-HasDistinctKeys [] k v h = (get-empty k, tt)
  put-HasDistinctKeys ((j, w) ∷ m) k v (absent, h) = elim (Bool-cases (j == k)) [
    | inl same ↦ rw same (absent, h)
    | inr other ↦
        rw other
          (rw get-put (ground (arith, eq_iff j k, eq_iff k j, absent)), put-HasDistinctKeys m k v h)
  ]

  -- `for key, value := range in { out[key] = value }`
  unfoldable pub copy_entries : Map V → Map V → Map V
  copy_entries out [] = out
  copy_entries out ((key, value) ∷ rest) = copy_entries (put out key value) rest

  pub copy_entries-HasDistinctKeys :
      (out m : Map V) → HasDistinctKeys out → HasDistinctKeys (copy_entries out m)
  unfolding copy_entries
  copy_entries-HasDistinctKeys out [] h = h
  copy_entries-HasDistinctKeys out ((k, v) ∷ m) h =
      copy_entries-HasDistinctKeys (put out k v) m (put-HasDistinctKeys out k v h)

  put-append : (m : Map V) (k : String) (v : V) → get m k ≡ none → put m k v ≡ m ++ (k, v) ∷ []
  unfolding get put
  put-append [] k v absent = refl
  put-append ((j, w) ∷ m) k v absent = ground (arith, put-append m k v)

  -- Every key of the first map is missing from the second.
  abbrev Apart : Map V → Map V → Type ℓ
  Apart [] m = Unit
  Apart ((k, v) ∷ out) m = (get m k ≡ none) × Apart out m

  Apart-cons :
      (out m : Map V) (k : String) (v : V)
      → Apart out ((k, v) ∷ m)
      → Apart out m × (get out k ≡ none)
  unfolding get
  Apart-cons [] m k v h = (tt, refl)
  Apart-cons ((j, w) ∷ out) m k v (absent, h) =
      let (apart, missing) = Apart-cons out m k v h in
      ((ground arith, apart), ground (arith, eq_iff j k, eq_iff k j))

  Apart-append :
      (out m : Map V) (k : String) (v : V)
      → Apart out m
      → get m k ≡ none
      → Apart (out ++ (k, v) ∷ []) m
  Apart-append [] m k v h absent = (absent, tt)
  Apart-append ((j, w) ∷ out) m k v (missing, h) absent = (missing, Apart-append out m k v h absent)

  copy_entries-append :
      (out m : Map V) → HasDistinctKeys m → Apart out m → copy_entries out m ≡ out ++ m
  unfolding copy_entries
  copy_entries-append out [] d h = sym (append-nil out)
  copy_entries-append out ((k, v) ∷ m) (absent, d) h =
      let (apart, missing) = Apart-cons out m k v h in
      rw (put-append out k v missing) (
        copy_entries-append (out ++ (k, v) ∷ []) m d (Apart-append out m k v apart absent)
        ∙ append_assoc out ((k, v) ∷ []) m)

  -- A copy of a map is the map.
  pub copy_entries_lem : (m : Map V) → HasDistinctKeys m → copy_entries empty m ≡ m
  copy_entries_lem m d = copy_entries-append [] m d tt
