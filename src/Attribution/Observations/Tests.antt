-- ===== src/Attribution/Observations/Tests.antt =====
-- Two tenants that are measured, and a third that only a group names.
use obscost.Prelude.{
  String, Bool, true, List, [], ◌∷◌, map, ◌≡◌, refl, string_comparable, contains, str_lt,
}
use obscost.Prelude.Int.{ℤ, pos, to_u64, wrap_int}
use obscost.Prelude.Map.{get, put}
use obscost.Prelude.Sort.{sort_by}
use obscost.Float.Fraction.{Fraction, fraction, fraction_float}
use obscost.Attribution.{TenantAggregate, pct, pctf}
use obscost.Attribution.Accumulate.{by_key}
use obscost.Attribution.Observations.{
  TenantObservation, GroupObservation, add_unseen, observed_row, group_rows, group_row,
  aggregate_by_tenant, aggregate_observations,
}

abbrev to_one : Fraction → ℤ
to_one v = pos 1

abbrev contains_third : List (TenantAggregate Fraction) → Bool
contains_third rows = contains "c" (map (λ r. r.tenant) rows)

abbrev measure : String → TenantObservation Fraction
measure t = record {
  tenant = t;
  executions = fraction 4 0;
  duration_seconds = fraction 2 0;
  duration_observed = true;
}

abbrev tenant_obs : List (TenantObservation Fraction)
tenant_obs = measure "a" ∷ measure "b" ∷ []

abbrev observe : String → String → GroupObservation Fraction
observe t g = record { tenant = t; namespace = "rules.yaml"; group = g; executions = fraction 4 0 }

abbrev group_obs : List (GroupObservation Fraction)
group_obs = observe "a" "g" ∷ observe "c" "g" ∷ observe "a" "h" ∷ []

-- The third tenant has a row too.
three_rows : contains_third (aggregate_observations to_one tenant_obs group_obs).tenants ≡ true
unfolding aggregate_observations aggregate_by_tenant add_unseen by_key observed_row group_rows
    group_row sort_by str_lt contains get put pct pctf to_u64 wrap_int
three_rows = refl
