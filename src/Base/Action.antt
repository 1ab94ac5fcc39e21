-- ===== src/Base/Action.antt =====
-- A call with a state and an error: Go's `(value, error)` of a call that reads and writes a database
-- or another service. The state comes back beside an error too.
use mathlib.Core.Path.{◌≡◌, refl}
use mathlib.Core.Option.{Option, none, some}
use graph_ops.Base.Result.{Result, ok, err}

abbrev pub Action {ℓ κ μ} : Type ℓ → Type κ → Type μ → Type (ℓ ⊔ κ ⊔ μ)
Action E D A = D → Result E A × D

module _ {ℓ κ μ} {E : Type ℓ} {D : Type κ} {A : Type μ} where
  abbrev pub pure : A → Action E D A
  pure a d = (ok a, d)

  abbrev pub fail : E → Action E D A
  fail e d = (err e, d)

  abbrev pub from : Result E A → Action E D A
  from r d = (r, d)

  abbrev pub or_fail : Option A → E → Action E D A
  or_fail none e = fail e
  or_fail (some a) e = pure a

-- `if err != nil { return err }`, and then the rest.
abbrev pub proceed {ℓ κ μ ν} :
    {E : Type ℓ} {D : Type κ} {A : Type μ} {B : Type ν}
    → (A → Action E D B)
    → Result E A × D
    → Result E B × D
proceed f (ok a, d) = f a d
proceed f (err e, d) = (err e, d)

infixl 5 ◌>>=◌ ◌>>◌
abbrev pub ◌>>=◌ {ℓ κ μ ν} :
    {E : Type ℓ} {D : Type κ} {A : Type μ} {B : Type ν}
    → Action E D A
    → (A → Action E D B)
    → Action E D B
◌>>=◌ m f d = proceed f (m d)

abbrev pub ◌>>◌ {ℓ κ ν} :
    {E : Type ℓ} {D : Type κ} {B : Type ν} → Action E D (Unit {0}) → Action E D B → Action E D B
m >> k = m >>= λ _. k

-- A call whose error is turned into another type of errors.
abbrev pub wrap_error {ℓ κ μ ν} :
    {E : Type ℓ} {F : Type ν} {D : Type κ} {A : Type μ} → (E → F) → Result E A × D → Result F A × D
wrap_error g (ok a, d) = (ok a, d)
wrap_error g (err e, d) = (err (g e), d)

-- What holds after `m >>= f`: after `m`, if it failed, or after `f` of its value.
pub bind_rule {ℓ κ μ ν ξ} :
    {E : Type ℓ} {D : Type κ} {A : Type μ} {B : Type ν} (Q : Result E B → D → Type ξ)
    (m : Action E D A) (f : A → Action E D B) (d : D)
    → ((e : E) (d' : D) → ◌≡◌ {A = Result E A × D} (m d) (err e, d') → Q (err e) d')
    → ((a : A) (d' : D) → ◌≡◌ {A = Result E A × D} (m d) (ok a, d') → Q (f a d').0 (f a d').1)
    → Q ((m >>= f) d).0 ((m >>= f) d).1
bind_rule {E} {D} {A} {B} Q m f d failed done = go (m d) failed done
  where
    go :
        (out : Result E A × D)
        → ((e : E) (d' : D) → ◌≡◌ {A = Result E A × D} out (err e, d') → Q (err e) d')
        → ((a : A) (d' : D) → ◌≡◌ {A = Result E A × D} out (ok a, d') → Q (f a d').0 (f a d').1)
        → Q (proceed f out).0 (proceed f out).1
    go (ok a, d') failed done = done a d' refl
    go (err e, d') failed done = failed e d' refl
