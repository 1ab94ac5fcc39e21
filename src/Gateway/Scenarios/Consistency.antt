-- ===== src/Gateway/Scenarios/Consistency.antt =====
-- internal/opsgateway/mockdata.go: the flags of the scenarios against their values and thresholds.
use graph_ops.Base.{
  ℕ, String, ◌==◌, ◌≡◌, ◌⊎◌, Option, none, some, Bool, true, false, not, List, [], ◌∷◌, leb,
}
use mathlib.Core.Bool.{◌&&◌}
use graph_ops.Base.Map.{Map, get}
use graph_ops.Base.Slice.{Slice, items}
use graph_ops.Base.Value.{Float64}
use graph_ops.Gateway.Types.{
  EvidenceItem, SignalCheck, MetricObservation, VerificationResult, ScenarioData,
}
use graph_ops.Gateway.Scenarios.Parts.{Arithmetic}

-- What a threshold's text says, with the bits of its number.
pub data Bound : Type 0 where
  at_most : ℕ → Bound
  at_least : ℕ → Bound

abbrev bounds : Map Bound
bounds =
    ("<= 1.0", at_most 4607182418800017408)
    ∷ ("<= 2.0", at_most 4611686018427387904)
    ∷ ("<= 10", at_most 4621819117588971520)
    ∷ ("<= 20", at_most 4626322717216342016)
    ∷ ("<= 50", at_most 4632233691727265792)
    ∷ ("<= 100", at_most 4636737291354636288)
    ∷ ("<= 150", at_most 4639481672377565184)
    ∷ ("<= 300", at_most 4643985272004935680)
    ∷ ("<= 500", at_most 4647503709213818880)
    ∷ (">= 90", at_least 4636033603912859648)
    ∷ (">= 15000", at_least 4669471951536783360)
    ∷ []

-- Numbers that are not negative are ordered as their bits are.
abbrev is_within : Option Bound → Float64 → Bool
is_within none x = false
is_within (some (at_most n)) x = leb x.bits n
is_within (some (at_least n)) x = leb n x.bits

abbrev agree : Bool → Bool → Bool
agree true b = b
agree false b = not b

-- A metric is flagged exactly if it is out of its threshold.
abbrev are_flagged : List MetricObservation → Bool
unfolding get
are_flagged [] = true
are_flagged (m ∷ ms) =
    agree m.abnormal (not (is_within (get bounds m.threshold) m.value)) && are_flagged ms

-- A check passes exactly if its value is within its threshold.
abbrev are_judged : List SignalCheck → Bool
unfolding get
are_judged [] = true
are_judged (c ∷ cs) =
    agree c.passed (is_within (get bounds c.threshold) c.observed_value) && are_judged cs

abbrev all_passed : List SignalCheck → Bool
all_passed [] = true
all_passed (c ∷ cs) = c.passed && all_passed cs

-- The metrics and the checks are flagged by their thresholds, and the status says "recovered" exactly
-- if all checks have passed.
unfoldable pub is_consistent : VerificationResult → Bool
unfolding are_flagged are_judged
is_consistent result =
    are_flagged (items result.metrics)
    && (are_judged (items result.signal_checks)
        && agree (result.status == "recovered") (all_passed (items result.signal_checks)))

abbrev has_items : Slice EvidenceItem → Bool
has_items found = elim (items found) [ [] ↦ false | item ∷ rest ↦ true ]

-- A scenario is consistent, has evidence of each kind, and is not recovered before a rollback.
abbrev pub IsConsistent : ScenarioData → Type 0
IsConsistent scenario =
    (is_consistent scenario.verification_before ≡ true)
    × (is_consistent scenario.verification_after ≡ true)
    × (scenario.verification_before.status ≡ "not_recovered")
    × (has_items scenario.change_items ≡ true)
    × (has_items scenario.log_items ≡ true)
    × (has_items scenario.dependency_items ≡ true)

abbrev Recovers : String → ScenarioData → Type 0
Recovers key scenario =
    (scenario.verification_after.status ≡ "recovered") ⊎ (key ≡ "downstream_inventory_outage")

module _ (arithmetic : Arithmetic) where
  Entry : String → ScenarioData → Type 0
  Entry key scenario = IsConsistent scenario × Recovers key scenario
