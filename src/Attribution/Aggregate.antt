-- ===== src/Attribution/Aggregate.antt =====
-- `Aggregate` of internal/attribution/attribution.go, from the loop over tenants on. Counts of executions are at most the length of the input, which is an `int`.
pub mod Buckets
pub mod Loop
pub mod Rows
pub mod Conservation
pub mod Statistics
use obscost.Prelude.{
  ℕ, String, Bool, false, List, [], ◌∷◌, ◌++◌, map, if◌then◌else◌, ◌==◌, string_comparable, length,
  str_lt,
}
use obscost.Prelude.Int.{ℤ, pos, ltb_ℤ, to_u64}
use obscost.Prelude.Sort.{sort_by}
use obscost.Prelude.Map.{Assoc, keys, get}
use obscost.Prelude.Names.{add_names}
use obscost.Float.{Float, nought}
use obscost.Rule.{
  RuleId, rule_id_comparable, show_rule_id, AnnotatedRule, RuleExecution, execution_id,
}
use obscost.Attribution.{
  RankMetric, RuleAggregate, TenantAggregate, Report, rule_observed, pick_rank_metric, metric_value,
  pct, pctf, rule_level,
}
use obscost.Attribution.Groups.{group_rules}
use obscost.Attribution.Accumulate.{
  get_list, index_definitions, ids_by_tenant, executions_by_tenant, Sums, no_sums, sum_all,
  TenantState, tenant_loop,
}

module _ {F : Type 0} ⦃f : Float F⦄ where
  abbrev pub empty_state : List (RuleExecution F) → TenantState F
  empty_state unmatched = record {
    sums = no_sums;
    observed = record {
      samples = false;
      duration = false;
      series = false;
      chunks = false;
      bytes = false;
    };
    rules = [];
    unmatched_executions = 0;
    unmatched_samples = 0;
    unmatched = unmatched;
  }

  abbrev pub rank_of_sums : RankMetric → ℤ → Sums F → F
  rank_of_sums metric count s =
      metric_value metric count s.samples s.duration s.series s.chunks s.bytes

  abbrev pub rank_of_rule : RankMetric → RuleAggregate F → F
  rank_of_rule metric ra =
      metric_value metric (pos ra.execution_count) ra.samples ra.duration_sum ra.series ra.chunks
        ra.bytes

  -- the body of the loop over `ruleAccum`
  pub finish_rule : RankMetric → ℤ → Sums F → F → RuleAggregate F → RuleAggregate F
  unfolding pct pctf metric_value rule_observed to_u64
  finish_rule metric count sums rank_total ra = record ra {
    execution_share_pct = pct ra.execution_count (to_u64 count);
    sample_share_pct = pct ra.samples sums.samples;
    rank_value = rank_of_rule metric ra;
    rank_share_pct = pctf (rank_of_rule metric ra) rank_total;
    rank_observed = rule_observed ra metric;
  }

  abbrev pub rule_less : RuleAggregate F → RuleAggregate F → Bool
  rule_less r s =
      if f.eq r.rank_value s.rank_value
      then str_lt (show_rule_id r.rule_id) (show_rule_id s.rule_id)
      else f.lt s.rank_value r.rank_value

  pub rank_rules :
      RankMetric → ℤ → Sums F → F → Assoc RuleId (RuleAggregate F) → List (RuleAggregate F)
  unfolding finish_rule sort_by show_rule_id
  rank_rules metric count sums rank_total accum =
      sort_by rule_less (map (λ entry. finish_rule metric count sums rank_total entry.1) accum)

  -- the row of one tenant, after the loop over its executions
  pub tenant_row : String → ℕ → ℤ → RankMetric → ℤ → Sums F → TenantState F → TenantAggregate F
  unfolding metric_value rank_rules group_rules pct to_u64
  tenant_row tenant rule_count count metric total_executions total s =
      let rank_total = rank_of_sums metric count s.sums in
      let rules = rank_rules metric count s.sums rank_total s.rules in
      record {
        tenant = tenant;
        rule_count = rule_count;
        execution_count = count;
        execution_share_pct = pct (to_u64 count) (to_u64 total_executions);
        samples = s.sums.samples;
        sample_share_pct = pct s.sums.samples total.samples;
        duration_sum = s.sums.duration;
        series = s.sums.series;
        chunks = s.sums.chunks;
        bytes = s.sums.bytes;
        rank_value = nought;
        rank_share_pct = nought;
        samples_observed = s.observed.samples;
        duration_observed = s.observed.duration;
        series_observed = s.observed.series;
        chunks_observed = s.observed.chunks;
        bytes_observed = s.observed.bytes;
        rules = rules;
        groups = group_rules rules rank_total;
        unmatched_executions = s.unmatched_executions;
        unmatched_samples = s.unmatched_samples;
      }

  -- the body of the loop over `tenants` that ranks them
  pub rank_tenant : RankMetric → F → TenantAggregate F → TenantAggregate F
  unfolding metric_value pctf
  rank_tenant metric total t =
      let v =
        metric_value metric t.execution_count t.samples t.duration_sum t.series t.chunks t.bytes in
      record t { rank_value = v; rank_share_pct = pctf v total }

  abbrev pub tenant_less : TenantAggregate F → TenantAggregate F → Bool
  tenant_less s t =
      if f.eq s.rank_value t.rank_value
      then str_lt s.tenant t.tenant
      else f.lt t.rank_value s.rank_value

  abbrev pub unmatched_less : RuleExecution F → RuleExecution F → Bool
  unmatched_less d e =
      let i = show_rule_id (execution_id d) in
      let j = show_rule_id (execution_id e) in
      if i == j then ltb_ℤ d.timestamp e.timestamp else str_lt i j

module _ {F : Type 0} ⦃f : Float F⦄ {Ast : Type 0} where
  -- the loop over `tenantSet`: the rows so far, and the report's `unmatched`
  pub tenant_rows :
      (String → List (RuleExecution F))
      → (String → ℕ)
      → Assoc RuleId (AnnotatedRule Ast)
      → RankMetric
      → ℤ
      → Sums F
      → List (TenantAggregate F)
      → List (RuleExecution F)
      → List String
      → List (TenantAggregate F) × List (RuleExecution F)
  unfolding tenant_loop tenant_row
  tenant_rows executions_of rule_count defs metric total_executions total rows unmatched [] =
      (rows, unmatched)
  tenant_rows executions_of rule_count defs metric total_executions total rows unmatched (t ∷ ts) =
      let es = executions_of t in
      let s = tenant_loop defs (empty_state unmatched) es in
      tenant_rows executions_of rule_count defs metric total_executions total
        (rows ++ tenant_row t (rule_count t) (pos (length es)) metric total_executions total s ∷ [])
        s.unmatched ts

  -- `Aggregate`
  unfoldable pub aggregate : List (RuleExecution F) → List (AnnotatedRule Ast) → Report F
  unfolding index_definitions ids_by_tenant executions_by_tenant sum_all tenant_rows rank_tenant
      add_names get pick_rank_metric metric_value sort_by show_rule_id
  aggregate executions definitions =
      let defs = index_definitions [] definitions in
      let ids = ids_by_tenant [] definitions in
      let by_tenant = executions_by_tenant [] executions in
      let names = add_names (add_names [] (keys ids)) (keys by_tenant) in
      let count = pos (length executions) in
      let total = sum_all no_sums executions in
      let metric =
        pick_rank_metric total.duration total.samples total.series total.chunks total.bytes in
      let (rows, unmatched) =
        tenant_rows (λ t. get_list t by_tenant) (λ t. length (get_list t ids)) defs metric count
          total [] [] names in
      record {
        total_executions = count;
        total_samples = total.samples;
        rule_definitions = length definitions;
        granularity = rule_level;
        rank_metric = metric;
        group_rank_metric = metric;
        tenants =
            sort_by tenant_less (map (rank_tenant metric (rank_of_sums metric count total)) rows);
        unmatched = sort_by unmatched_less unmatched;
      }
