-- ===== src/Cli/CostCommand/Tests.antt =====
-- The `cost` command on a host where the configuration asks for no credentials.
use obscost.Prelude.{
  ℕ, suc, String, false, Option, none, some, List, [], ◌∷◌, ◌≡◌, refl, if◌then◌else◌, ◌==◌,
  string_comparable,
}
use obscost.Prelude.Int.{ℤ, pos, wrap_int}
use obscost.Prelude.Result.{message, Result, ok, err, pure, lift, in_context, ◌>>=◌}
use obscost.Float.Fraction.{Fraction, fraction_float}
use obscost.Promapi.{Promql}
use obscost.MimirDrivers.{Api, instant, now}
use obscost.Cli.Auth.{BackendCreds}
use obscost.Cli.CostOptions.{
  CostOptions, CostConfig, Checked, passes, refuses, unknown_pool_name, Host, select_pools,
  split_tenants, parse_since_duration,
}
use obscost.Cli.CostCommand.{refused_by, run_cost}
use obscost.Cli.CostCommand.Ends.{IsEnd, run_cost_lem}

abbrev config : CostConfig Fraction
config = record {
  url = "http://mimir:8080";
  header = "";
  auth = record { bearer_token_env = ""; basic_auth = none };
  selector = "";
  inventory = record {
    currency = "";
    replication_factor = none;
    platform_cost_month = none;
    rule_evaluation = "";
    pools = [];
  };
}

abbrev atoi : String → Option ℤ
atoi s = if s == "7" then some (pos 7) else if s == "213504" then some (pos 213504) else none

abbrev parse_duration : String → Result ℤ
parse_duration s = err (message "time: invalid duration")

abbrev promql : Promql String
promql = record {
  parse_metric_selector = λ s. ok [];
  parse_expr = λ s. ok s;
  on_selectors = λ g s. s;
  show_expr = λ s. s;
}

abbrev host : Host Fraction String
host = record {
  atoi = atoi;
  parse_duration = parse_duration;
  load_config = ok config;
  promql = promql;
  getenv = λ s. "";
  read_file = λ s. err (message "no such file");
}

abbrev opts : CostOptions
opts = record {
  metrics_tenant = "monitoring";
  tenants = "a, b";
  format = "json";
  since = "7d";
  pools = "ruler_cpu, ingester_memory";
  selector = "";
  rule_outputs = false;
  dir = "";
  rule_output_concurrency = pos 4;
}

-- The state counts the queries.
abbrev connect : String → BackendCreds → String → Api ℕ Fraction
connect url creds tenant = record { instant = λ q n. (ok [], suc n); now = λ n. (pos 0, n) }

run_cost_lem_example :
    let (run, n) = run_cost connect host opts 0 in IsEnd connect host opts 0 run n
run_cost_lem_example = run_cost_lem connect host opts 0

in_order :
    ◌≡◌ {A = Checked Fraction (List String)}
      (select_pools "ruler_cpu, ingester_memory")
      (passes ("ingester_memory" ∷ "ruler_cpu" ∷ []))
unfolding select_pools
in_order = refl

unknown :
    ◌≡◌ {A = Checked Fraction (List String)}
      (select_pools "ruler")
      (refuses (unknown_pool_name "ruler"))
unfolding select_pools
unknown = refl

blanks : split_tenants "a, ,b," ≡ "a" ∷ "b" ∷ []
unfolding split_tenants
blanks = refl

week : parse_since_duration atoi parse_duration "7d" ≡ ok (pos 604800000000000)
unfolding parse_since_duration
week = refl

-- The count of nanoseconds wraps around.
many_days : parse_since_duration atoi parse_duration "213504d" ≡ ok (pos 1526290448384)
unfolding parse_since_duration wrap_int
many_days = refl

-- One query for the clusters, and seven for the two pools.
asked : (run_cost connect host opts 0).1 ≡ 8
unfolding run_cost pure lift in_context ◌>>=◌ instant now
asked = refl

not_asked :
    run_cost connect host (record opts { pools = "ruler" }) 0
    ≡ (record { warning = none; end = refused_by (unknown_pool_name "ruler") }, 0)
unfolding run_cost
not_asked = refl
