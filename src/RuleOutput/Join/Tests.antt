-- ===== src/RuleOutput/Join/Tests.antt =====
-- Two rules that write one metric, one whose metric was not counted, and an alerting rule.
use obscost.Prelude.{
  ◌+◌, String, not, ◌&&◌, Option, none, some, List, [], ◌∷◌, map, ◌≡◌, refl, string_comparable,
  is_empty, length, select, contains, IsDistinct, All,
}
use obscost.Prelude.Int.{pos}
use obscost.Prelude.Map.{Assoc}
use obscost.Float.Fraction.{Fraction, fraction, fraction_float}
use obscost.Rule.{Kind, recording, alerting, AnnotatedRule}
use obscost.RuleOutput.Join.{MetricCount, is_writer, join_tenant}
use obscost.RuleOutput.Join.Totals.{
  metrics, is_missing, record_name, sum_counts, join_tenant-totals,
}
use obscost.RuleOutput.Join.Rows.{IsRow, join_tenant-IsRow}

abbrev rule_in : Kind → String → String → String → AnnotatedRule String
rule_in kind group metric alert = record {
  rule = record {
    kind = kind;
    record_name = metric;
    alert_name = alert;
    expr = "up";
    hold_for = pos 0;
    labels = [];
    annotations = [];
  };
  ast = "up";
  group = record { name = group; interval = pos 0 };
  tenant = "a";
  location = record { file = "n"; group = group; rule = metric; line = pos 0 };
}

abbrev rules : List (AnnotatedRule String)
rules =
    rule_in recording "g" "m:one" ""
    ∷ rule_in recording "h" "m:one" ""
    ∷ rule_in recording "g" "m:two" ""
    ∷ rule_in alerting "g" "" "Down"
    ∷ []

abbrev counts : Assoc String MetricCount
counts = ("m:one", record { series = some (pos 5); err = "" }) ∷ []

abbrev active : Option Fraction
active = some (fraction 10 1)

one_metric_once :
    let t = join_tenant "a" rules counts active in
    (t.recording_rules ≡ 3)
    × (t.output_metrics ≡ 2)
    × (t.output_series ≡ some (pos 5))
    × (map (λ r. r.shared_with) t.rules ≡ ("n/h/m:one" ∷ []) ∷ ("n/g/m:one" ∷ []) ∷ [] ∷ [] ∷ [])
unfolding join_tenant
one_metric_once = (refl, refl, refl, refl)

join_tenant-totals_example :
    let t = join_tenant "a" rules counts active in
    let ms = metrics "a" rules counts active in
    let missing = is_missing "a" rules counts active in
    (t.recording_rules + t.alerting_rules ≡ length rules)
    × IsDistinct ms
    × ((m : String) → contains m ms ≡ contains m (map record_name (select is_writer rules)))
    × (t.output_metrics ≡ length ms)
    × (t.not_measured_metrics ≡ length (select missing ms))
    × (t.output_series_complete ≡ (not (is_empty ms) && is_empty (select missing ms)))
    × (t.output_series ≡ sum_counts "a" counts none ms)
join_tenant-totals_example = join_tenant-totals "a" rules counts active

join_tenant-IsRow_example :
    All (IsRow "a" rules counts active) (join_tenant "a" rules counts active).rules
join_tenant-IsRow_example = join_tenant-IsRow "a" rules counts active
