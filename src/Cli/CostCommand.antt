-- ===== src/Cli/CostCommand.antt =====
-- `runCost` of internal/cli/cost.go, up to the report that `AllocateAll` gives. `connect` is `promapi.New`.
pub mod Readings
pub mod Ends
mod Tests
use obscost.Prelude.{
  String, Option, none, some, List, [], ◌∷◌, if◌then◌else◌, ◌==◌, string_comparable, ltb, length,
  is_empty, sprintf,
}
use obscost.Prelude.Int.{ℤ}
use obscost.Prelude.Result.{Error, Result, ok, err, Action, pure, in_context, ◌>>=◌}
use obscost.Float.{Float}
use obscost.Cost.{PoolId, Measurement, pool_ingester_memory, pool_query_path}
use obscost.Cost.Total.{Report}
use obscost.Cost.Total.Cross.{allocate_all}
use obscost.Promapi.{Promql}
use obscost.MimirDrivers.{Api, Config, World}
use obscost.MimirDrivers.Clusters.{clusters}
use obscost.MimirDrivers.IngesterMemory.{read_ingester_memory}
use obscost.MimirDrivers.QueryPath.{read_query_path}
use obscost.MimirDrivers.RuleEvaluation.{read_ruler_cpu}
use obscost.Cli.Auth.{BackendCreds}
use obscost.Cli.CostOptions.{
  CostOptions, Refusal, Checked, passes, refuses, Plan, Host, split_tenants, check_cost,
}

-- what `warnIfSeveralClusters` prints
pub data Warning : Type 0 where
  check_failed : Error → Warning
  several_clusters : List String → Warning

pub data CostEnd (F : Type 0) : Type 0 where
  refused_by : Refusal F → CostEnd F
  not_read : Error → CostEnd F
  costed : Report F → CostEnd F

pub record CostRun (F : Type 0) : Type 0 where
  pub warning : Option Warning
  pub end : CostEnd F

abbrev pub warning_of : Result (List String) → Option Warning
warning_of (err e) = some (check_failed e)
warning_of (ok cs) = if ltb 1 (length cs) then some (several_clusters cs) else none

module _ {W F Ast : Type 0} ⦃f : Float F⦄ (api : Api W F) (promql : Promql Ast) (cfg : Config) where
  -- `readers[id]`, for an id of `PoolOrder`
  unfoldable pub read_pool : ℤ → PoolId → Action (World W F) (Measurement F)
  unfolding read_ingester_memory read_query_path read_ruler_cpu
  read_pool window id =
      if id == pool_ingester_memory
      then read_ingester_memory api promql cfg window
      else if id == pool_query_path
      then read_query_path api promql cfg window
      else read_ruler_cpu api promql cfg window

  -- the loop over the pools
  unfoldable pub read_pools : ℤ → List PoolId → Action (World W F) (List (Measurement F))
  unfolding read_pool sprintf
  read_pools window [] = pure []
  read_pools window (id ∷ ids) = do
    m ← in_context (sprintf ("pool " ∷ id ∷ [])) (read_pool window id)
    ms ← read_pools window ids
    pure (m ∷ ms)

module _ {W F Ast : Type 0} ⦃f : Float F⦄ (connect : String → BackendCreds → String → Api W F)
    (host : Host F Ast) (opts : CostOptions) where
  abbrev pub source_config : Plan F → Config
  source_config plan = record {
    metrics_tenant = opts.metrics_tenant;
    selector = plan.selector;
    selector_source = plan.selector_source;
    rule_evaluation = plan.config.inventory.rule_evaluation;
  }

  abbrev pub api_of : Plan F → Api W F
  api_of plan = connect plan.config.url plan.creds opts.metrics_tenant

  -- the call of `warnIfSeveralClusters`, with what it prints
  unfoldable pub warn_if_several_clusters : Plan F → World W F → Option Warning × World W F
  unfolding clusters
  warn_if_several_clusters plan s =
      if is_empty plan.selector.matchers
      then (let (r, s') = clusters (api_of plan) host.promql (source_config plan) s in
          (warning_of r, s'))
      else (none, s)

  abbrev pub end_of : Plan F → Result (List (Measurement F)) → CostEnd F
  end_of plan (err e) = not_read e
  end_of plan (ok ms) = costed (allocate_all ms plan.config.inventory (split_tenants opts.tenants))

  -- `runCost` from the `Source` on; the cache of the `Source` is empty at first
  abbrev pub run_plan : W → Checked F (Plan F) → CostRun F × W
  run_plan w (refuses e) = (record { warning = none; end = refused_by e }, w)
  run_plan w (passes plan) =
      let (warning, s) = warn_if_several_clusters plan (record { api = w; eval_modes = [] }) in
      let (r, s') =
        read_pools (api_of plan) host.promql (source_config plan) plan.window plan.pools s in
      (record { warning = warning; end = end_of plan r }, s'.api)

  -- `runCost`
  unfoldable pub run_cost : W → CostRun F × W
  unfolding check_cost warn_if_several_clusters read_pools allocate_all split_tenants
  run_cost w = run_plan w (check_cost host opts)
