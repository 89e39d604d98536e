-- ===== src/Telemetry/MimirMetrics.antt =====
-- internal/telemetry/mimirmetrics/mimirmetrics.go: the workload of tenants and groups from Mimir's own metrics.
pub mod Union
pub mod Figures
pub mod Totals
pub mod RuleGroup
mod Tests
use Prim.Native.Char.{code}
use obscost.Prelude.{
  ℕ, String, Bool, true, false, ◌||◌, ◌+◌, ◌++◌, Option, none, some, List, [], ◌∷◌, map,
  if◌then◌else◌, ◌==◌, string_comparable, pair_comparable, nat_beq, sprintf, str_lt,
}
use obscost.Prelude.Int.{ℤ, difference, ◌+ℤ◌, pos, negsuc}
use obscost.Prelude.Map.{Assoc, get, put}
use obscost.Prelude.Sort.{sort_by}
use obscost.Prelude.Result.{Error, message, Result, ok, err, Action, pure, lift, ◌>>=◌, in_context}
use obscost.Float.{Float, nought}
use obscost.Promapi.{Sample, label_value, Promql, Selector, apply, duration}
use obscost.Attribution.{value_or}
use obscost.MimirDrivers.{Api}
use obscost.Attribution.Observations.{TenantObservation, GroupObservation}

pub record GroupWorkload (F : Type 0) : Type 0 where
  pub namespace : String
  pub group : String
  pub evaluations : F

pub record TenantWorkload (F : Type 0) : Type 0 where
  pub tenant : String
  pub duration_seconds : F
  pub duration_observed : Bool
  pub evaluations : F
  pub groups : List (GroupWorkload F)

pub record Workload (F : Type 0) : Type 0 where
  pub start : ℤ
  pub end : ℤ
  pub tenants : List (TenantWorkload F)

-- `tenantAccum`; the key of a group is the pair of its namespace and its name
pub record TenantAccum (F : Type 0) : Type 0 where
  pub duration_seconds : F
  pub duration_observed : Bool
  pub evaluations : F
  pub groups : Assoc (String × String) (GroupWorkload F)

-- a text before and after the last occurrence of a character
unfoldable pub split_last : ℕ → String → Option (String × String)
split_last k String.[] = none
split_last k (String.◌∷◌ c s) = elim (split_last k s) [
  | some (before, after) ↦ some (String.◌∷◌ c before, after)
  | none ↦ if nat_beq (code c) k then some ("", s) else none
]

abbrev pub is_slash : ℕ → Bool
is_slash c = nat_beq c 47

unfoldable pub trim_slashes : String → String
trim_slashes String.[] = ""
trim_slashes (String.◌∷◌ c s) = elim (trim_slashes s) [
  | String.[] ↦ if is_slash (code c) then "" else String.◌∷◌ c ""
  | String.◌∷◌ d r ↦ String.◌∷◌ c (String.◌∷◌ d r)
]

abbrev pub after_slash : String → Option (String × String) → String
after_slash s none = s
after_slash s (some (before, after)) = after

-- `path.Base` of Go's standard library
unfoldable pub path_base : String → String
unfolding split_last trim_slashes
path_base s =
    let trimmed = trim_slashes s in
    if s == ""
    then "."
    else if trimmed == ""
    then "/"
    else after_slash trimmed (split_last 47 trimmed)

abbrev pub file_and_group : String → Option (String × String) → String × String
file_and_group value none = ("", value)
file_and_group value (some (file, group)) =
    if file == "" then ("", group) else (path_base file, group)

-- `splitRuleGroup`
unfoldable pub split_rule_group : String → String × String
unfolding split_last path_base
split_rule_group value = file_and_group value (split_last 59 value)

module _ {F : Type 0} ⦃f : Float F⦄ where
  abbrev pub no_workload : TenantAccum F
  no_workload = record {
    duration_seconds = nought;
    duration_observed = false;
    evaluations = nought;
    groups = [];
  }

  abbrev pub add_duration : Sample F → F → TenantAccum F → TenantAccum F
  add_duration smp v a = record a {
    duration_seconds = f.add a.duration_seconds v;
    duration_observed = true;
  }

  abbrev pub add_count : Sample F → F → TenantAccum F → TenantAccum F
  add_count smp v a = record a { evaluations = f.add a.evaluations v }

  abbrev pub new_group_workload : String × String → GroupWorkload F
  new_group_workload (namespace, group) = record {
    namespace = namespace;
    group = group;
    evaluations = nought;
  }

  -- `group`, and the addition to its evaluations
  unfoldable pub add_to_group : String × String → F → TenantAccum F → TenantAccum F
  unfolding get put
  add_to_group key v a =
      let g = value_or (get key a.groups) (new_group_workload key) in
      record a { groups = put key (record g { evaluations = f.add g.evaluations v }) a.groups }

  abbrev pub add_group : Sample F → F → TenantAccum F → TenantAccum F
  add_group smp v a = add_to_group (split_rule_group (label_value "rule_group" smp)) v a

  -- `userValue`, and the tenant's accumulator, which is made if it is not there
  abbrev pub add_at :
      (F → TenantAccum F → TenantAccum F)
      → String
      → Option F
      → Assoc String (TenantAccum F)
      → Assoc String (TenantAccum F)
  add_at add tenant none m = m
  add_at add tenant (some v) m =
      if tenant == "" then m else put tenant (add v (value_or (get tenant m) no_workload)) m

  -- the loop over the samples of one query
  unfoldable pub union_samples :
      (Sample F → F → TenantAccum F → TenantAccum F)
      → Assoc String (TenantAccum F)
      → List (Sample F)
      → Assoc String (TenantAccum F)
  unfolding get put
  union_samples add m [] = m
  union_samples add m (smp ∷ samples) =
      union_samples add (add_at (add smp) (label_value "user" smp) smp.value m) samples

  abbrev pub group_workload_less : GroupWorkload F → GroupWorkload F → Bool
  group_workload_less g h =
      if f.eq g.evaluations h.evaluations
      then (if g.group == h.group then str_lt g.namespace h.namespace else str_lt g.group h.group)
      else f.lt h.evaluations g.evaluations

  -- `workload`
  unfoldable pub workload : String → TenantAccum F → TenantWorkload F
  unfolding sort_by str_lt
  workload tenant a = record {
    tenant = tenant;
    duration_seconds = a.duration_seconds;
    duration_observed = a.duration_observed;
    evaluations = a.evaluations;
    groups = sort_by group_workload_less (map (λ entry. entry.1) a.groups);
  }

  abbrev pub tenant_workload_less : TenantWorkload F → TenantWorkload F → Bool
  tenant_workload_less s t =
      if f.eq s.duration_seconds t.duration_seconds
      then str_lt s.tenant t.tenant
      else f.lt t.duration_seconds s.duration_seconds

  abbrev pub rank_tenants : Assoc String (TenantAccum F) → List (TenantWorkload F)
  rank_tenants m = sort_by tenant_workload_less (map (λ entry. workload entry.0 entry.1) m)

  -- the tenants of `Read`, from the answers to its three queries
  unfoldable pub merge :
      List (Sample F) → List (Sample F) → List (Sample F) → List (TenantWorkload F)
  unfolding union_samples add_to_group split_rule_group workload sort_by str_lt
  merge durations counts groups = rank_tenants (
      union_samples add_group
        (union_samples add_count (union_samples add_duration [] durations) counts) groups)

abbrev pub range_query : String → String → String → String
range_query by metric range_text =
    sprintf ("sum by (" ∷ by ∷ ") (increase(" ∷ metric ∷ "[" ∷ range_text ∷ "]))" ∷ [])

abbrev pub negate : ℤ → ℤ
negate (pos n) = difference 0 n
negate (negsuc n) = pos (n + 1)

module _ {W F : Type 0} ⦃f : Float F⦄ {Ast : Type 0} (api : Api W F) (promql : Promql Ast)
    (metrics_tenant : String) (selector : Selector) where
  -- `query`
  abbrev pub select_cluster : String → Action W String
  select_cluster text = lift (apply promql selector text)

  -- `vector`
  abbrev pub vector : String → String → Action W (List (Sample F))
  vector name q = in_context (sprintf (name ∷ " query" ∷ [])) (api.instant q)

  abbrev pub clock : Action W ℤ
  clock w = let (t, w') = api.now w in (ok t, w')

  -- `Read`, once the tenant is known; the text of its error is cut
  abbrev pub read_workload : ℤ → Action W (Workload F)
  read_workload window = do
    range_text ← lift (duration window)
    end ← clock
    durations_query ←
        select_cluster
          (range_query "user" "cortex_prometheus_rule_evaluation_duration_seconds_sum" range_text)
    durations ← vector "per-tenant evaluation duration" durations_query
    counts_query ←
        select_cluster
          (range_query "user" "cortex_prometheus_rule_evaluation_duration_seconds_count" range_text)
    counts ← vector "per-tenant evaluation count" counts_query
    groups_query ←
        select_cluster
          (range_query "user, rule_group" "cortex_prometheus_rule_evaluations_total" range_text)
    groups ← vector "per-group evaluation count" groups_query
    pure (record {
      start = end +ℤ negate window;
      end = end;
      tenants = merge durations counts groups;
    })

  -- `Read`
  unfoldable pub read : ℤ → Action W (Workload F)
  unfolding duration apply merge sprintf lift pure ◌>>=◌ in_context
  read window =
      if metrics_tenant == ""
      then lift (err (message "MetricsTenant is required"))
      else read_workload window

-- the loops of `runMetricsReport` that turn a workload into observations
module _ {F : Type 0} where
  abbrev pub tenant_observations : List (TenantWorkload F) → List (TenantObservation F)
  tenant_observations ts =
      map
        (λ t. record {
          tenant = t.tenant;
          executions = t.evaluations;
          duration_seconds = t.duration_seconds;
          duration_observed = t.duration_observed;
        })
        ts

  abbrev pub observations_of : TenantWorkload F → List (GroupObservation F)
  observations_of t =
      map
        (λ g. record {
          tenant = t.tenant;
          namespace = g.namespace;
          group = g.group;
          executions = g.evaluations;
        })
        t.groups

  abbrev pub group_observations : List (TenantWorkload F) → List (GroupObservation F)
  group_observations [] = []
  group_observations (t ∷ ts) = observations_of t ++ group_observations ts
