-- ===== src/RuleOutput/Join.antt =====
-- internal/ruleoutput/ruleoutput.go: one tenant's rules joined to the counts of the metrics they write,
-- the body of the loop over tenants in `Join`.
pub mod Totals
pub mod Rows
mod Tests
use obscost.Prelude.{
  ℕ, ◌+◌, String, Bool, true, false, not, ◌&&◌, ◌||◌, Option, none, some, List, [], ◌∷◌, ◌++◌, map,
  if◌then◌else◌, ◌==◌, string_comparable, ltb, nat_beq, is_empty, length, select, str_lt, sprintf,
}
use obscost.Prelude.Int.{ℤ, pos, ◌+ℤ◌, wrap_int, eqb_ℤ, ltb_ℤ}
use obscost.Prelude.Map.{Assoc, keys, get, put}
use obscost.Prelude.Sort.{sort_by}
use obscost.Float.{Float, nought}
use obscost.Rule.{Kind, recording, alerting, rule_name, AnnotatedRule}
use obscost.Attribution.{value_or}
use obscost.Attribution.Accumulate.{get_list}

pub data Status : Type 0 where
  status_series : Status
  status_no_series : Status
  status_not_measured : Status
  status_no_output : Status

pub record RuleOutput (F : Type 0) : Type 0 where
  pub namespace : String
  pub group : String
  pub rule : String
  pub kind : Kind
  pub output_metric : String
  pub status : Status
  pub series : Option ℤ
  pub share_of_tenant_active_series : Option F
  pub shared_with : List String
  pub reason : String

pub record TenantOutputs (F : Type 0) : Type 0 where
  pub tenant : String
  pub recording_rules : ℕ
  pub alerting_rules : ℕ
  pub output_metrics : ℕ
  pub not_measured_metrics : ℕ
  pub output_series : Option ℤ
  pub output_series_complete : Bool
  pub active_series : Option F
  pub share_of_active_series : Option F
  pub rules : List (RuleOutput F)

-- `MetricCount` of count.go; without a series count the error says why
pub record MetricCount : Type 0 where
  pub series : Option ℤ
  pub err : String

abbrev pub is_recording : Kind → Bool
is_recording recording = true
is_recording alerting = false

module _ {Ast : Type 0} where
  -- `ruleRef`
  unfoldable pub rule_ref : AnnotatedRule Ast → String
  unfolding sprintf rule_name
  rule_ref ar =
      if ar.location.file == ""
      then sprintf (ar.group.name ∷ "/" ∷ rule_name ar.rule ∷ [])
      else sprintf (ar.location.file ∷ "/" ∷ ar.group.name ∷ "/" ∷ rule_name ar.rule ∷ [])

  -- whether a rule writes a metric
  abbrev pub is_writer : AnnotatedRule Ast → Bool
  is_writer ar = is_recording ar.rule.kind && not (ar.rule.record_name == "")

  -- `writers`
  unfoldable pub writers_of :
      Assoc String (List String) → List (AnnotatedRule Ast) → Assoc String (List String)
  unfolding get put rule_ref
  writers_of m [] = m
  writers_of m (ar ∷ ars) =
      let metric = ar.rule.record_name in
      writers_of (if is_writer ar then put metric (get_list metric m ++ rule_ref ar ∷ []) m else m)
        ars

-- what the `switch` of `Join` sets
pub record Counted : Type 0 where
  pub status : Status
  pub series : Option ℤ
  pub reason : String

abbrev pub by_series : String → Option ℤ → Counted
by_series err none = record { status = status_not_measured; series = none; reason = err }
by_series err (some n) =
    if eqb_ℤ n (pos 0)
    then record {
      status = status_no_series;
      series = some n;
      reason =
          "no series right now: never evaluated, evaluates to an empty vector, or its selectors match nothing";
    }
    else record { status = status_series; series = some n; reason = "" }

abbrev pub by_count : Option MetricCount → Counted
by_count none = record { status = status_not_measured; series = none; reason = "not queried" }
by_count (some c) = by_series c.err c.series

-- the `switch` on a recording rule's count
abbrev pub counted : String → Option MetricCount → Counted
counted tenant c =
    if tenant == ""
    then record {
      status = status_not_measured;
      series = none;
      reason = "no tenant was resolved for this rule, so there is no tenant to count its output in";
    }
    else by_count c

-- the count that the tenant's totals take for a metric
abbrev pub metric_series : String → Option MetricCount → Option ℤ
metric_series tenant none = none
metric_series tenant (some c) = if tenant == "" then none else c.series

-- The variables of the loop over `writers`.
pub record MetricTotals : Type 0 where
  pub not_measured : ℕ
  pub complete : Bool
  pub series : Option ℤ

abbrev pub add_metric : MetricTotals → Option ℤ → MetricTotals
add_metric s none = record s { not_measured = s.not_measured + 1; complete = false }
add_metric s (some n) = record s { series = some (wrap_int (value_or s.series (pos 0) +ℤ n)) }

unfoldable pub add_metrics :
    String → Assoc String MetricCount → MetricTotals → List String → MetricTotals
unfolding get wrap_int
add_metrics tenant tc s [] = s
add_metrics tenant tc s (m ∷ ms) =
    add_metrics tenant tc (add_metric s (metric_series tenant (get m tc))) ms

-- `statusOrder`
abbrev pub status_order : Status → ℕ
status_order status_series = 0
status_order status_no_series = 1
status_order status_not_measured = 2
status_order status_no_output = 3

-- where both have a count and the counts differ
abbrev pub by_size : Option ℤ → Option ℤ → Option Bool
by_size none o = none
by_size (some n) none = none
by_size (some n) (some k) = if eqb_ℤ n k then none else some (ltb_ℤ k n)

module _ {F : Type 0} where
  abbrev pub by_name : RuleOutput F → RuleOutput F → Bool
  by_name a b =
      if not (a.namespace == b.namespace)
      then str_lt a.namespace b.namespace
      else if not (a.group == b.group)
      then str_lt a.group b.group
      else str_lt a.rule b.rule

  -- `lessRule`
  abbrev pub less_rule : RuleOutput F → RuleOutput F → Bool
  less_rule a b =
      if nat_beq (status_order a.status) (status_order b.status)
      then value_or (by_size a.series b.series) (by_name a b)
      else ltb (status_order a.status) (status_order b.status)

module _ {F : Type 0} ⦃f : Float F⦄ where
  abbrev pub share_of : Option ℤ → Option F → Option F
  share_of none active = none
  share_of (some n) none = none
  share_of (some n) (some a) = if f.lt nought a then some (f.div (f.of_int n) a) else none

module _ {F : Type 0} ⦃f : Float F⦄ {Ast : Type 0} where
  -- the row of an alerting and of a recording rule
  abbrev pub row_of_kind :
      Kind
      → String
      → Assoc String MetricCount
      → Option F
      → Assoc String (List String)
      → AnnotatedRule Ast
      → RuleOutput F
  row_of_kind alerting tenant tc active writers ar = record {
    namespace = ar.location.file;
    group = ar.group.name;
    rule = rule_name ar.rule;
    kind = alerting;
    output_metric = "";
    status = status_no_output;
    series = none;
    share_of_tenant_active_series = none;
    shared_with = [];
    reason =
        "alerting rule: writes no series (its cost is ruler CPU and query load, not ingester memory)";
  }
  row_of_kind recording tenant tc active writers ar =
      let c = counted tenant (get ar.rule.record_name tc) in
      record {
        namespace = ar.location.file;
        group = ar.group.name;
        rule = rule_name ar.rule;
        kind = recording;
        output_metric = ar.rule.record_name;
        status = c.status;
        series = c.series;
        share_of_tenant_active_series = share_of c.series active;
        shared_with = select (λ w. not (w == rule_ref ar)) (get_list ar.rule.record_name writers);
        reason = c.reason;
      }

  -- the body of the loop over one tenant's rules
  unfoldable pub rule_row :
      String
      → Assoc String MetricCount
      → Option F
      → Assoc String (List String)
      → AnnotatedRule Ast
      → RuleOutput F
  unfolding get rule_name rule_ref select
  rule_row tenant tc active writers ar = row_of_kind ar.rule.kind tenant tc active writers ar

  -- the body of the loop over tenants; `tc` is the tenant's counts and `active` its denominator
  unfoldable pub join_tenant :
      String → List (AnnotatedRule Ast) → Assoc String MetricCount → Option F → TenantOutputs F
  unfolding writers_of rule_row add_metrics sort_by str_lt select
  join_tenant tenant rules tc active =
      let writers = writers_of [] rules in
      let totals =
        add_metrics tenant tc (record { not_measured = 0; complete = true; series = none })
          (keys writers) in
      record {
        tenant = tenant;
        recording_rules = length (select (λ ar. is_recording ar.rule.kind) rules);
        alerting_rules = length (select (λ ar. not (is_recording ar.rule.kind)) rules);
        output_metrics = length writers;
        not_measured_metrics = totals.not_measured;
        output_series = totals.series;
        output_series_complete = totals.complete && not (is_empty writers);
        active_series = active;
        share_of_active_series = share_of totals.series active;
        rules = sort_by less_rule (map (rule_row tenant tc active writers) rules);
      }
