-- ===== src/Attribution/Observations.antt =====
-- `AggregateObservations` of internal/attribution/attribution.go, where a source measures tenants and groups itself.
pub mod Observed
mod Tests
use obscost.Prelude.{
  ℕ, String, Bool, true, false, ◌&&◌, ◌||◌, List, [], ◌∷◌, ◌++◌, map, if◌then◌else◌, ◌==◌,
  string_comparable, contains, str_lt,
}
use obscost.Prelude.Int.{ℤ, pos, ◌+ℤ◌, wrap_int, to_u64}
use obscost.Prelude.Sort.{sort_by}
use obscost.Prelude.Map.{Assoc, keys, put}
use obscost.Float.{Float, nought}
use obscost.Attribution.{
  RankMetric, duration_seconds, executions, group_level, GroupAggregate, TenantAggregate, Report,
  pct, pctf,
}
use obscost.Attribution.Groups.{group_less}
use obscost.Attribution.Aggregate.{tenant_less}
use obscost.Attribution.Accumulate.{get_list, by_key}

pub record TenantObservation (F : Type 0) : Type 0 where
  pub tenant : String
  pub executions : F
  pub duration_seconds : F
  pub duration_observed : Bool

pub record GroupObservation (F : Type 0) : Type 0 where
  pub tenant : String
  pub namespace : String
  pub group : String
  pub executions : F

module _ {F : Type 0} ⦃f : Float F⦄ where
  abbrev pub unmeasured_tenant : String → TenantObservation F
  unmeasured_tenant t = record {
    tenant = t;
    executions = nought;
    duration_seconds = nought;
    duration_observed = false;
  }

  -- the loop that adds the tenants that only the groups name; `seen` is not changed by it
  unfoldable pub add_unseen :
      List String → List (TenantObservation F) → List String → List (TenantObservation F)
  unfolding contains
  add_unseen seen obs [] = obs
  add_unseen seen obs (t ∷ ts) =
      add_unseen seen (if contains t seen then obs else obs ++ unmeasured_tenant t ∷ []) ts

  abbrev pub any_duration : List (TenantObservation F) → Bool
  any_duration [] = false
  any_duration (t ∷ ts) =
      let rest = any_duration ts in (t.duration_observed && f.lt nought t.duration_seconds) || rest

  -- the value that a tenant ranks by
  abbrev pub rank_of : Bool → TenantObservation F → F
  rank_of by_duration t = if by_duration then t.duration_seconds else t.executions

  abbrev pub rank_total : Bool → F → List (TenantObservation F) → F
  rank_total by_duration acc [] = acc
  rank_total by_duration acc (t ∷ ts) =
      rank_total by_duration (f.add acc (rank_of by_duration t)) ts

  -- `tenantGroupTotal`
  abbrev pub group_total : F → List (GroupObservation F) → F
  group_total acc [] = acc
  group_total acc (g ∷ gs) = group_total (f.add acc g.executions) gs

-- `round v` is `int(math.Round(v))`.
module _ {F : Type 0} ⦃f : Float F⦄ (round : F → ℤ) where
  abbrev pub total_executions : ℤ → List (TenantObservation F) → ℤ
  total_executions acc [] = acc
  total_executions acc (t ∷ ts) = total_executions (wrap_int (acc +ℤ round t.executions)) ts

  unfoldable pub group_row : F → GroupObservation F → GroupAggregate F
  unfolding pctf
  group_row total g = record {
    namespace = g.namespace;
    group = g.group;
    execution_count = round g.executions;
    rank_value = g.executions;
    rank_share_pct = pctf g.executions total;
    rank_observed = true;
    rules = [];
  }

  unfoldable pub group_rows : List (GroupObservation F) → List (GroupAggregate F)
  unfolding group_row sort_by str_lt
  group_rows gs = sort_by group_less (map (group_row (group_total nought gs)) gs)

  -- the body of the loop over the tenants, for the groups that name one
  unfoldable pub observed_row :
      Bool → ℤ → F → TenantObservation F → List (GroupObservation F) → TenantAggregate F
  unfolding group_rows pct pctf to_u64
  observed_row by_duration count rank_sum t gs = record {
    tenant = t.tenant;
    rule_count = 0;
    execution_count = round t.executions;
    execution_share_pct = pct (to_u64 (round t.executions)) (to_u64 count);
    samples = 0;
    sample_share_pct = nought;
    duration_sum = t.duration_seconds;
    series = 0;
    chunks = 0;
    bytes = 0;
    rank_value = rank_of by_duration t;
    rank_share_pct = pctf (rank_of by_duration t) rank_sum;
    samples_observed = false;
    duration_observed = t.duration_observed;
    series_observed = false;
    chunks_observed = false;
    bytes_observed = false;
    rules = [];
    groups = group_rows gs;
    unmatched_executions = 0;
    unmatched_samples = 0;
  }

  -- `AggregateObservations`, once the groups are by tenant and each of their tenants is among the others
  unfoldable pub aggregate_by_tenant :
      List (TenantObservation F) → Assoc String (List (GroupObservation F)) → Report F
  unfolding observed_row sort_by str_lt wrap_int
  aggregate_by_tenant obs groups_by_tenant =
      let by_duration = any_duration obs in
      let count = total_executions (pos 0) obs in
      let rank_sum = rank_total by_duration nought obs in
      record {
        total_executions = count;
        total_samples = 0;
        rule_definitions = 0;
        granularity = group_level;
        rank_metric = if by_duration then duration_seconds else executions;
        group_rank_metric = executions;
        tenants = sort_by tenant_less (
            map
              (λ t. observed_row by_duration count rank_sum t (get_list t.tenant groups_by_tenant))
              obs);
        unmatched = [];
      }

  -- `AggregateObservations`
  unfoldable pub aggregate_observations :
      List (TenantObservation F) → List (GroupObservation F) → Report F
  unfolding by_key add_unseen aggregate_by_tenant
  aggregate_observations tenant_obs group_obs =
      let groups_by_tenant = by_key (λ g. g.tenant) [] group_obs in
      aggregate_by_tenant
        (add_unseen (map (λ t. t.tenant) tenant_obs) tenant_obs (keys groups_by_tenant))
        groups_by_tenant
