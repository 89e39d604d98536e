-- ===== src/Telemetry/MimirMetrics/Tests.antt =====
-- A label of Mimir, and a tenant that only the answer on groups names.
use obscost.Prelude.{String, some, List, [], ◌∷◌, ◌≡◌, refl, string_comparable, sprintf}
use obscost.Prelude.Int.{ℤ, pos}
use obscost.Float.Fraction.{Fraction, fraction, fraction_float}
use obscost.Promapi.{Sample}
use obscost.Attribution.{TenantAggregate}
use obscost.Attribution.Observations.{aggregate_observations}
use obscost.Telemetry.MimirMetrics.{
  split_rule_group, merge, tenant_observations, group_observations, TenantWorkload,
}
use obscost.Telemetry.MimirMetrics.RuleGroup.{split_rule_group-sprintf}

split_rule_group-sprintf_example :
    split_rule_group (sprintf ("/data/a;b" ∷ "/" ∷ "rules.yaml" ∷ ";" ∷ "g" ∷ []))
    ≡ ("rules.yaml", "g")
split_rule_group-sprintf_example =
    split_rule_group-sprintf "/data/a;b" "r" "ules.yaml" "g" refl refl

verbatim :
    split_rule_group "/data/ruler/infra/alerts.yaml;mimir_alerts" ≡ ("alerts.yaml", "mimir_alerts")
unfolding split_rule_group
verbatim = refl

no_group : split_rule_group "mimir_alerts" ≡ ("", "mimir_alerts")
unfolding split_rule_group
no_group = refl

abbrev sample : String → Sample Fraction
sample user = record {
  metric = ("user", user) ∷ ("rule_group", "/a/b.yaml;g") ∷ [];
  value = some (fraction 3 0);
}

abbrev durations : List (Sample Fraction)
durations = sample "a" ∷ sample "a" ∷ []

abbrev counts : List (Sample Fraction)
counts = sample "a" ∷ sample "" ∷ []

abbrev groups : List (Sample Fraction)
groups = sample "b" ∷ sample "a" ∷ []

abbrev to_three : Fraction → ℤ
to_three v = pos 3

abbrev week : List (TenantWorkload Fraction)
week = merge durations counts groups

abbrev rows : List (TenantAggregate Fraction)
rows =
    (aggregate_observations to_three (tenant_observations week) (group_observations week)).tenants
