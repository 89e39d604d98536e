-- ===== src/Cli/CostCommand/Ends.antt =====
-- How `runCost` ends, and what a report of it stands on.
use obscost.Prelude.{String, Option, none, List, [], map, ◌≡◌, refl}
use obscost.Prelude.Result.{Error, Result, ok, err}
use obscost.Float.{Float}
use obscost.Cost.{Measurement}
use obscost.Cost.Total.Cross.{allocate_all}
use obscost.MimirDrivers.{Api, World}
use obscost.Cli.Auth.{BackendCreds}
use obscost.Cli.CostOptions.{
  CostOptions, Refusal, Checked, passes, refuses, Plan, Host, split_tenants, check_cost,
}
use obscost.Cli.CostOptions.Pools.{Chosen-All}
use obscost.Cli.CostOptions.Cleared.{IsCleared, check_cost_lem}
use obscost.Cli.CostCommand.{
  Warning, refused_by, not_read, costed, CostRun, warn_if_several_clusters, read_pools, end_of,
  run_plan, run_cost,
}
use obscost.Cli.CostCommand.Readings.{Gives-read_pools}

module _ {W F Ast : Type 0} ⦃f : Float F⦄ (connect : String → BackendCreds → String → Api W F)
    (host : Host F Ast) (opts : CostOptions) where
  -- What a plan prints and reads from a state of the API: the check for several clusters with an empty
  -- cache, and then the pools with what that check has left, by an API for the configured URL, the
  -- credentials and the metrics tenant.
  pub record IsRead (plan : Plan F) (w : W) (warning : Option Warning)
      (r : Result (List (Measurement F))) (w' : W) : Type 0 where
    between : World W F
    after : World W F
    warned :
        warn_if_several_clusters connect host opts plan (record { api = w; eval_modes = [] })
        ≡ (warning, between)
    reading :
        read_pools
          (connect plan.config.url plan.creds opts.metrics_tenant)
          host.promql
          (record {
            metrics_tenant = opts.metrics_tenant;
            selector = plan.selector;
            selector_source = plan.selector_source;
            rule_evaluation = plan.config.inventory.rule_evaluation;
          })
          plan.window
          plan.pools
          between
        ≡ (r, after)
    left : w' ≡ after.api

  -- A run is refused, or it reads by a plan that is cleared.
  pub data IsEnd (w : W) (run : CostRun F) (w' : W) : Type 0 where
    refused_end :
        (e : Refusal F)
        → ((plan : Plan F) → ¬ IsCleared host opts plan)
        → run ≡ record { warning = none; end = refused_by e }
        → w' ≡ w
        → IsEnd w run w'
    failed_end :
        (plan : Plan F) (e : Error)
        → IsCleared host opts plan
        → IsRead plan w run.warning (err e) w'
        → run.end ≡ not_read e
        → IsEnd w run w'
    costed_end :
        (plan : Plan F) (ms : List (Measurement F))
        → IsCleared host opts plan
        → IsRead plan w run.warning (ok ms) w'
        → map (λ m. m.pool.id) ms ≡ plan.pools
        → run.end ≡ costed (allocate_all ms plan.config.inventory (split_tenants opts.tenants))
        → IsEnd w run w'

  read_plan :
      (plan : Plan F) (w : W) (warning : Option Warning) (r : Result (List (Measurement F)))
      (w' : W)
      → IsCleared host opts plan
      → IsRead plan w warning r w'
      → IsEnd w (record { warning = warning; end = end_of connect host opts plan r }) w'
  read_plan plan w warning (err e) w' cleared read = failed_end plan e cleared read refl
  read_plan plan w warning (ok ms) w' cleared read =
      costed_end plan ms cleared read
        ((Gives-read_pools _ host.promql _ plan.window plan.pools
            (Chosen-All opts.pools plan.pools cleared.chosen)).result
          read.between read.after ms read.reading)
        refl

  run_plan-ends :
      (w : W) (c : Checked F (Plan F))
      → check_cost host opts ≡ c
      → let (run, w') = run_plan connect host opts w c in IsEnd w run w'
  run_plan-ends w (refuses e) checked =
      refused_end e (λ plan cleared. cc (checked, (check_cost_lem host opts plan).1 cleared)) refl
        refl
  run_plan-ends w (passes plan) checked =
      read_plan plan w _ _ _ ((check_cost_lem host opts plan).0 checked)
        (record { between = _; after = _; warned = refl; reading = refl; left = refl })

  -- `runCost`, as far as the report that `AllocateAll` gives, ends in one of three ways. No plan is cleared
  -- by the options and the host; then it is refused, prints no warning and has not asked the API. Or a plan
  -- is cleared, and after the check for several clusters, with an empty cache, the chosen pools are read
  -- for its window, with its selector and credentials; then a reading fails; or the readings give one
  -- measurement of each pool of the plan, in order, and the report is the allocation of these measurements
  -- by the configured inventory. A plan is cleared exactly if `--since` is empty (an hour) or parses,
  -- `--format` exists, `--pool` names known pools only and one at least, or is blank (all pools), the
  -- configuration loads and names a URL, a metrics tenant is given, `--dir` is given only with rule
  -- outputs, these have rule definitions, room for a query and ingester memory among the pools, the
  -- inventory is defensible, the selector (the option's before the configuration's) is accepted, and the
  -- credentials are those that the configuration grants.
  pub run_cost_lem : (w : W) → let (run, w') = run_cost connect host opts w in IsEnd w run w'
  unfolding run_cost
  run_cost_lem w = run_plan-ends w (check_cost host opts) refl
