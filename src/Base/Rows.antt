-- ===== src/Base/Rows.antt =====
-- What an SQL statement does with the rows of a table, in the order in which they were inserted.
use mathlib.Core.Path.{◌≡◌, refl}
use mathlib.Core.Bool.{Bool, true, false, ◌||◌}
use mathlib.Core.Logic.{inl, inr}
use mathlib.Core.Option.{Option, none, some}
use mathlib.Core.List.{List, [], ◌∷◌, ◌++◌}
use Prim.Native.Nat.{ℕ, suc}
use native.Mathlib.Omega.{arith}
use graph_ops.Base.Tests.{Bool-cases, if◌then◌else◌}

module _ {ℓ} {A : Type ℓ} where
  abbrev pub any_row : (A → Bool) → List A → Bool
  any_row p [] = false
  any_row p (x ∷ xs) = p x || any_row p xs

  abbrev pub find_row : (A → Bool) → List A → Option A
  find_row p [] = none
  find_row p (x ∷ xs) = if p x then some x else find_row p xs

  -- `WHERE`
  abbrev pub keep_rows : (A → Bool) → List A → List A
  keep_rows p [] = []
  keep_rows p (x ∷ xs) = if p x then x ∷ keep_rows p xs else keep_rows p xs

  -- `UPDATE ... WHERE`
  abbrev pub update_rows : (A → Bool) → (A → A) → List A → List A
  update_rows p f [] = []
  update_rows p f (x ∷ xs) = (if p x then f x else x) ∷ update_rows p f xs

  -- `INSERT ... ON DUPLICATE KEY UPDATE`
  abbrev pub upsert_row : (A → Bool) → A → List A → List A
  upsert_row p new xs = if any_row p xs then update_rows p (λ _. new) xs else xs ++ new ∷ []

  abbrev pub count_rows : (A → Bool) → List A → ℕ
  count_rows p [] = 0
  count_rows p (x ∷ xs) = if p x then suc (count_rows p xs) else count_rows p xs

  pub count_rows-none : (p : A → Bool) (xs : List A) → any_row p xs ≡ false → count_rows p xs ≡ 0
  count_rows-none p [] h = refl
  count_rows-none p (x ∷ xs) h = ground (arith, count_rows-none p xs)

  pub update_rows-none :
      (p : A → Bool) (f : A → A) (xs : List A) → any_row p xs ≡ false → update_rows p f xs ≡ xs
  update_rows-none p f [] h = refl
  update_rows-none p f (x ∷ xs) h = ground (arith, update_rows-none p f xs)

  -- A new row is found if it is asked for and no older one is.
  pub find_row-append :
      (p : A → Bool) (xs : List A) (new : A)
      → any_row p xs ≡ false
      → p new ≡ true
      → find_row p (xs ++ new ∷ []) ≡ some new
  find_row-append p [] new h e = rw e
  find_row-append p (x ∷ xs) new h e = ground (arith, find_row-append p xs new)

  pub find_row-none : (p : A → Bool) (xs : List A) → any_row p xs ≡ false → find_row p xs ≡ none
  find_row-none p [] h = refl
  find_row-none p (x ∷ xs) h = ground (arith, find_row-none p xs)

  -- A row that is found stays found when rows are added behind it.
  pub find_row-append_old :
      (p : A → Bool) (xs ys : List A) (x : A)
      → find_row p xs ≡ some x
      → find_row p (xs ++ ys) ≡ some x
  find_row-append_old p [] ys x h = cc
  find_row-append_old p (y ∷ xs) ys x h = ground (arith, find_row-append_old p xs ys x)

  -- An update that leaves the test alone changes what is found.
  pub find_row-update :
      (p q : A → Bool) (f : A → A) (xs : List A) (x : A)
      → ((y : A) → p (f y) ≡ p y)
      → find_row p xs ≡ some x
      → find_row p (update_rows q f xs) ≡ some (if q x then f x else x)
  find_row-update p q f [] x keeps h = cc
  find_row-update p q f (y ∷ xs) x keeps h =
      ground (arith, keeps y, find_row-update p q f xs x keeps)

  -- If there is a row to update, it is found with the update made.
  pub find_row-updated :
      (p : A → Bool) (f : A → A) (xs : List A)
      → ((y : A) → p (f y) ≡ p y)
      → any_row p xs ≡ true
      → (x : A) × (find_row p xs ≡ some x) × (find_row p (update_rows p f xs) ≡ some (f x))
  find_row-updated p f [] keeps h = cc
  find_row-updated p f (y ∷ xs) keeps h = elim (Bool-cases (p y)) [
    | inl here ↦ (y, rw here, ground (arith, keeps y))
    | inr not_here ↦
        let rest : any_row p xs ≡ true = ground (arith) in
        let (x, found, updated) = find_row-updated p f xs keeps rest in
        (x, rw (not_here, found), rw (not_here, not_here, updated))
  ]

  pub find_row-upsert :
      (p : A → Bool) (new : A) (xs : List A)
      → p new ≡ true
      → find_row p (upsert_row p new xs) ≡ some new
  find_row-upsert p new xs e = elim (Bool-cases (any_row p xs)) [
    | inl found ↦ rw (found, replaced xs found)
    | inr missing ↦ rw missing (find_row-append p xs new missing e)
  ]
    where
      replaced :
          (ys : List A) → any_row p ys ≡ true → find_row p (update_rows p (λ _. new) ys) ≡ some new
      replaced [] found = cc
      replaced (y ∷ ys) found = ground (arith, replaced ys)

  -- An update that leaves the test alone leaves a row that passes it.
  pub any_row-update :
      (p q : A → Bool) (f : A → A) (xs : List A)
      → ((y : A) → p (f y) ≡ p y)
      → any_row p (update_rows q f xs) ≡ any_row p xs
  any_row-update p q f [] keeps = refl
  any_row-update p q f (y ∷ xs) keeps = ground (arith, keeps y, any_row-update p q f xs keeps)
