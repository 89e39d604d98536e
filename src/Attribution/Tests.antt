-- ===== src/Attribution/Tests.antt =====
-- Aggregation of four executions against two definitions, and the grouping of three rules.
use mathlib.Core.List.{Perm}
use obscost.Prelude.{
  ℕ, ◌+◌, String, ◌||◌, Option, none, some, List, [], ◌∷◌, map, ◌≡◌, refl, string_comparable,
  pair_comparable, contains, length, select, All, IsDistinct,
}
use obscost.Prelude.Int.{pos, pos_part}
use obscost.Prelude.Sort.{IsSorted}
use obscost.Prelude.Map.{get}
use obscost.Prelude.Counting.{sum}
use obscost.Float.Fraction.{Fraction, fraction, fraction_float}
use obscost.Float.Fraction.Ordering.{Fraction-IsLinear}
use obscost.Rule.{AnnotatedRule, RuleExecution, rule_id_comparable, recording}
use obscost.Attribution.{TenantAggregate, RuleAggregate, fetched_bytes}
use obscost.Attribution.Aggregate.{aggregate}
use obscost.Attribution.Aggregate.Buckets.{of_tenant}
use obscost.Attribution.Aggregate.Conservation.{
  is_orphan, tenants-executions, tenants-rules, aggregate-unmatched, tenants-ranked,
}
use obscost.Attribution.Aggregate.Statistics.{IsMeasured, total_of, tenants-IsMeasured}
use obscost.Float.Ranking.{ranked_before}
use obscost.Attribution.Accumulate.{new_rule}
use obscost.Attribution.Groups.{group_rules}
use obscost.Attribution.Groups.Partition.{group_key, rules_of, IsGroup, group_rules-partition}

abbrev define : String → String → String → AnnotatedRule ℕ
define tenant group name = record {
  rule = record {
    kind = recording;
    record_name = name;
    alert_name = "";
    expr = "up";
    hold_for = pos 0;
    labels = [];
    annotations = [];
  };
  ast = 0;
  group = record { name = group; interval = pos 60 };
  tenant = tenant;
  location = record { file = "rules.yaml"; group = group; rule = name; line = pos 1 };
}

abbrev run : String → String → String → ℕ → Option ℕ → RuleExecution Fraction
run tenant group name at bytes = record {
  tenant = tenant;
  namespace = "rules.yaml";
  group = group;
  rule_name = name;
  timestamp = pos at;
  duration_seconds = none;
  samples_processed = some 10;
  fetched_series = none;
  fetched_chunks = none;
  fetched_bytes = bytes;
  query_text = "";
  query_hash = "";
}

abbrev definitions : List (AnnotatedRule ℕ)
definitions = define "a" "g" "one" ∷ define "b" "g" "two" ∷ []

abbrev executions : List (RuleExecution Fraction)
executions =
    run "a" "g" "one" 1 (some 7)
    ∷ run "b" "g" "two" 2 none
    ∷ run "a" "g" "gone" 3 (some 1)
    ∷ run "a" "g" "one" 4 none
    ∷ []

tenants-executions_example :
    let report = aggregate executions definitions in
    All (λ t. t.execution_count ≡ pos (length (of_tenant t.tenant executions))) report.tenants
    × (pos (sum (map (λ t. pos_part t.execution_count) report.tenants)) ≡ report.total_executions)
tenants-executions_example = tenants-executions executions definitions

tenants-IsMeasured_example :
    let report = aggregate executions definitions in
    All (λ t. IsMeasured t (of_tenant t.tenant executions)) report.tenants
    × (report.total_samples ≡ total_of (λ e. e.samples_processed) executions)
tenants-IsMeasured_example = tenants-IsMeasured executions definitions

tenants-rules_example :
    All
      (λ t.
        pos (sum (map (λ r. r.execution_count) t.rules) + t.unmatched_executions)
        ≡ t.execution_count)
      (aggregate executions definitions).tenants
tenants-rules_example = tenants-rules executions definitions

aggregate-unmatched_example :
    Perm
      (aggregate executions definitions).unmatched
      (select (is_orphan executions definitions) executions)
aggregate-unmatched_example = aggregate-unmatched executions definitions

tenants-ranked_example :
    let tenants = (aggregate executions definitions).tenants in
    ((t : String)
      → contains t (map (λ row. row.tenant) tenants) ≡ (
          contains t (map (λ d. d.tenant) definitions)
          || contains t (map (λ e. e.tenant) executions)))
    × IsDistinct (map (λ row. row.tenant) tenants)
    × IsSorted
        (ranked_before (λ (t : TenantAggregate Fraction). t.rank_value) (λ t. t.tenant))
        tenants
tenants-ranked_example = tenants-ranked executions definitions Fraction-IsLinear.ordered

abbrev in_group : String → RuleAggregate Fraction
in_group group =
    new_rule (record { tenant = "a"; namespace = "rules.yaml"; group = group; name = "one" })
      recording

group_rules-partition_example :
    let groups = group_rules (in_group "g" ∷ in_group "h" ∷ in_group "g" ∷ []) (fraction 1 0) in
    IsDistinct (map group_key groups)
    × Perm (rules_of groups) (in_group "g" ∷ in_group "h" ∷ in_group "g" ∷ [])
    × All IsGroup groups
group_rules-partition_example =
    group_rules-partition (in_group "g" ∷ in_group "h" ∷ in_group "g" ∷ []) (fraction 1 0)

-- The report of the example, by running the model.
ranked_by_bytes : (aggregate executions definitions).rank_metric ≡ fetched_bytes
unfolding aggregate
ranked_by_bytes = refl

ranked_tenants : map (λ t. t.tenant) (aggregate executions definitions).tenants ≡ "a" ∷ "b" ∷ []
unfolding aggregate get contains
ranked_tenants = refl

one_unmatched : map (λ e. e.rule_name) (aggregate executions definitions).unmatched ≡ "gone" ∷ []
unfolding aggregate get contains
one_unmatched = refl
