-- ===== src/Telemetry/MimirMetrics/Totals.antt =====
-- The rows of a workload and of its report.
use obscost.Prelude.{String, List, [], map, ◌≡◌, string_comparable}
use obscost.Prelude.Map.{Assoc}
use obscost.Float.{Float, nought}
use obscost.Promapi.{Sample}
use obscost.Telemetry.MimirMetrics.{
  TenantAccum, TenantWorkload, add_duration, add_count, add_group, union_samples,
}
use obscost.Telemetry.MimirMetrics.Union.{is_measured, measured_total}

module _ {F : Type 0} ⦃f : Float F⦄ where
  abbrev names_of : List (TenantWorkload F) → List String
  names_of ts = map (λ t. t.tenant) ts

  module _ (durations counts groups : List (Sample F)) where
    -- A row with the sums of its tenant's samples.
    abbrev pub IsSum : TenantWorkload F → Type 0
    IsSum w =
        (w.duration_seconds ≡ measured_total w.tenant nought durations)
        × (w.duration_observed ≡ is_measured w.tenant durations)
        × (w.evaluations ≡ measured_total w.tenant nought counts)

    abbrev first : Assoc String (TenantAccum F)
    first = union_samples add_duration [] durations

    abbrev second : Assoc String (TenantAccum F)
    second = union_samples add_count first counts

    abbrev accums : Assoc String (TenantAccum F)
    accums = union_samples add_group second groups
