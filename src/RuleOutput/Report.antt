-- ===== src/RuleOutput/Report.antt =====
-- internal/ruleoutput/ruleoutput.go: `Wanted`, `DenominatorFromPool`, and `Join` over all tenants.
pub mod Wanted
mod Tests
use obscost.Prelude.{
  ℕ, ◌+◌, String, Bool, true, false, not, ◌&&◌, ◌||◌, Option, none, some, List, [], ◌∷◌, ◌++◌, map,
  if◌then◌else◌, ◌==◌, string_comparable, nat_beq, ltb, is_empty, is_some, length, select, str_lt,
  sprintf, show_nat,
}
use obscost.Prelude.Int.{ℤ, eqb_ℤ, ltb_ℤ}
use obscost.Prelude.Map.{Assoc, keys, get, put}
use obscost.Prelude.Map.Nested.{inner}
use obscost.Prelude.Sort.{sort_by}
use obscost.Float.{Float}
use obscost.Rule.{AnnotatedRule}
use obscost.Cost.{Assumption, TenantShare, PoolAllocation, assumption_replication_factor}
use obscost.Attribution.{value_or}
use obscost.Attribution.Accumulate.{get_list, by_key}
use obscost.RuleOutput.Join.{
  RuleOutput, TenantOutputs, MetricCount, is_writer, by_size, join_tenant,
}

-- `Counts`
pub record Counts : Type 0 where
  pub at : ℤ
  pub query_shape : String
  pub queries : ℕ
  pub tenants : Assoc String (Assoc String MetricCount)

pub record Denominator (F : Type 0) : Type 0 where
  pub per_tenant : Assoc String F
  pub description : String
  pub replication_factor : String
  pub rf_source : String
  pub withheld : String

pub record OutputReport (F : Type 0) : Type 0 where
  pub measured_at : ℤ
  pub count_query : String
  pub queries : ℕ
  pub tenants : List (TenantOutputs F)
  pub assumptions : List Assumption
  pub notes : List String

-- `format_time t` is `t.UTC().Format(time.RFC3339)`.
module _ {F : Type 0} (format_time : ℤ → String) where
  -- the loop over the assumptions
  abbrev pub take_factor : Denominator F → List Assumption → Denominator F
  take_factor d [] = d
  take_factor d (a ∷ as') =
      take_factor
        (if a.name == assumption_replication_factor
          then record d { replication_factor = a.value; rf_source = a.source }
          else d)
        as'

  abbrev pub put_driver : String → Option F → Assoc String F → Assoc String F
  put_driver t none m = m
  put_driver t (some v) m = put t v m

  -- the loop over the tenants
  abbrev pub put_drivers : Assoc String F → List (TenantShare F) → Assoc String F
  put_drivers m [] = m
  put_drivers m (t ∷ ts) = put_drivers (put_driver t.tenant t.driver m) ts

  -- `DenominatorFromPool`
  unfoldable pub denominator_from_pool : PoolAllocation F → Denominator F
  unfolding put sprintf
  denominator_from_pool a =
      let d =
        take_factor
          (record {
            per_tenant = [];
            description = "";
            replication_factor = "";
            rf_source = "";
            withheld = "";
          })
          a.assumptions in
      record d {
        per_tenant = put_drivers [] a.tenants;
        description = sprintf (
            a.pool.driver
            ∷ " ("
            ∷ a.pool.driver_unit
            ∷ ") per tenant, averaged over the whole "
            ∷ a.window_text
            ∷ " ending "
            ∷ format_time a.end
            ∷ " (time without series counted as 0), divided by the replication factor"
            ∷ []);
        withheld =
            if is_some a.replication_factor
            then ""
            else "no replication factor is known, so the tenant's deduplicated active series are unknown and no share of them is computed";
      }

abbrev pub counted_note : ℕ → String → List String
counted_note n text = if nat_beq n 0 then [] else sprintf (show_nat n ∷ text ∷ []) ∷ []

module _ {F : Type 0} where
  abbrev pub active_of : Option (Denominator F) → String → Option F
  active_of none tenant = none
  active_of (some d) tenant = get tenant d.per_tenant

  -- a tenant with a total before one without, then by the total, largest first, then by name
  abbrev pub larger_output : TenantOutputs F → TenantOutputs F → Bool
  larger_output a b =
      if is_some a.output_series && not (is_some b.output_series)
      then true
      else if not (is_some a.output_series) && is_some b.output_series
      then false
      else value_or (by_size a.output_series b.output_series) (str_lt a.tenant b.tenant)

  -- the rules of a tenant that `notes` counts
  abbrev pub shared_rules : TenantOutputs F → ℕ
  shared_rules t = length (select (λ ro. not (is_empty ro.shared_with)) t.rules)

  abbrev pub all_shared : List (TenantOutputs F) → ℕ
  all_shared [] = 0
  all_shared (t ∷ ts) = shared_rules t + all_shared ts

  abbrev pub denominator_notes : Option (Denominator F) → List String
  denominator_notes none = []
  denominator_notes (some d) =
      (if d.withheld == "" then [] else d.withheld ∷ [])
      ++ "a share compares a point-in-time count with pool 1's window-average active series, so the two diverge whenever series are changing: a rule added or edited, series repopulating after a restart or rollout, or a tenant that joined during the window, whose average counts the time before it had series as 0 and so can sit well below its count now. Read the share as indicative then, and re-run once the count has settled"
        ∷ []

  -- `notes`
  unfoldable pub notes : List (TenantOutputs F) → Option (Denominator F) → List String
  unfolding select sprintf show_nat
  notes ts denom =
      "these counts are queries run as each tenant through the query path, so they appear in that tenant's query-path (pool 6) figures for any window that includes a --rule-outputs run: a tenant that never queries can turn from not measured into measured there. This run read pool 6 before counting, so its own pool-6 figures are unaffected"
      ∷ (denominator_notes denom
          ++ (counted_note (all_shared ts)
                " recording rule(s) share their record: name with another rule in the same tenant; their count belongs to the metric and is not split between the rules"
              ++ counted_note (length (select (λ t. ltb 0 t.not_measured_metrics) ts))
                  " tenant(s) have output metrics that were not measured, so their output-series totals are lower bounds"))

abbrev pub query_api : String
query_api = "Mimir query API, queried as each rule's own tenant"

-- the assumptions of every report
abbrev pub count_assumptions : (ℤ → String) → Counts → List Assumption
count_assumptions format_time counts =
    record {
      name = "output metric";
      value = "a recording rule's record: name is the metric it writes";
      source = "rule definitions";
    }
    ∷ record {
      name = "series count";
      value = sprintf (
          "point-in-time, at "
          ∷ format_time counts.at
          ∷ "; not an average over the cost window, so shares divide it by a window average (see notes)"
          ∷ []);
      source = query_api;
    }
    ∷ record { name = "count query"; value = counts.query_shape; source = query_api }
    ∷ record {
      name = "count queries in pool 6";
      value =
          "the count queries run through the query path as each tenant, so they are recorded in that tenant's query-path (pool 6) counters, like any other API query. This run read pool 6 before counting; a later run whose window includes this one charges them to each tenant counted";
      source = query_api;
    }
    ∷ record {
      name = "what is counted";
      value =
          "every series named after the rule's record: name in the tenant, including any written by something other than this rule";
      source = "PromQL semantics";
    }
    ∷ record {
      name = "presence";
      value =
          "an instant query counts series with a sample inside the lookback window (5m by default), which is close to, but not the same as, the ingester's active-series idle timeout";
      source = "PromQL semantics";
    }
    ∷ []

abbrev pub denominator_assumptions : {F : Type 0} → Option (Denominator F) → List Assumption
denominator_assumptions none =
    record { name = "denominator"; value = "none: no shares computed"; source = "not requested" }
    ∷ []
denominator_assumptions (some d) =
    record {
      name = "denominator";
      value = d.description;
      source = "pool 1 (ingester memory) above";
    }
    ∷ (if d.replication_factor == ""
        then []
        else record {
          name = "replication factor";
          value = d.replication_factor;
          source = d.rf_source;
        }
          ∷ [])

-- `assumptions`
unfoldable pub assumptions :
    {F : Type 0} → (ℤ → String) → Counts → Option (Denominator F) → List Assumption
unfolding sprintf
assumptions format_time counts denom =
    count_assumptions format_time counts ++ denominator_assumptions denom

module _ {F : Type 0} ⦃f : Float F⦄ {Ast : Type 0} where
  -- the loop over `byTenant`
  abbrev pub join_all :
      Assoc String (Assoc String MetricCount)
      → Option (Denominator F)
      → Assoc String (List (AnnotatedRule Ast))
      → List (TenantOutputs F)
  join_all counts denom [] = []
  join_all counts denom ((tenant, rules) ∷ m) =
      join_tenant tenant rules (inner tenant counts) (active_of denom tenant)
      ∷ join_all counts denom m

  -- `Join`
  unfoldable pub join :
      (ℤ → String) → List (AnnotatedRule Ast) → Counts → Option (Denominator F) → OutputReport F
  unfolding by_key join_tenant get sort_by str_lt assumptions notes
  join format_time rules counts denom =
      let ts =
        sort_by larger_output (join_all counts.tenants denom (by_key (λ ar. ar.tenant) [] rules)) in
      record {
        measured_at = counts.at;
        count_query = counts.query_shape;
        queries = counts.queries;
        tenants = ts;
        assumptions = assumptions format_time counts denom;
        notes = notes ts denom;
      }

module _ {Ast : Type 0} where
  -- whether `Wanted` takes a rule
  abbrev pub is_wanted : AnnotatedRule Ast → Bool
  is_wanted ar = is_writer ar && not (ar.tenant == "")

  -- `Wanted`
  unfoldable pub wanted :
      Assoc String (List String) → List (AnnotatedRule Ast) → Assoc String (List String)
  unfolding get put
  wanted m [] = m
  wanted m (ar ∷ ars) =
      wanted
        (if is_wanted ar
          then put ar.tenant (get_list ar.tenant m ++ ar.rule.record_name ∷ []) m
          else m)
        ars
