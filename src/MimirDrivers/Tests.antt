-- ===== src/MimirDrivers/Tests.antt =====
-- A week on a cluster whose first driver of the query path has no data, and whose second has.
use obscost.Prelude.{
  ℕ, ◌+◌, ◌%◌, ◌≤◌, ◌<◌, String, some, [], ◌∷◌, ◌≡◌, refl, if◌then◌else◌, ◌==◌, string_comparable,
}
use obscost.Prelude.Int.{ℤ, pos, pos_part}
use obscost.Prelude.Result.{Result, ok, err, pure, lift, in_context, ◌>>=◌}
use obscost.Float.Fraction.{Fraction, fraction, fraction_float}
use obscost.Cost.{Measurement, query_path}
use obscost.Promapi.{Sample, Promql}
use obscost.MimirDrivers.{Api, Config, World, instant, now, counter_query, empty_measurement}
use obscost.MimirDrivers.RuleEvaluation.{read_ruler_cpu}
use obscost.MimirDrivers.QueryPath.{read_chain, read_query_path}
use obscost.MimirDrivers.QueryPath.Choice.{Chooses, read_chain-Chooses}
use obscost.MimirDrivers.QueryPath.Shared.{read_ruler_cpu-read_query_path}
use obscost.MimirDrivers.IngesterMemory.{
  minute, second, subquery_step, points, read_ingester_memory,
}
use obscost.MimirDrivers.IngesterMemory.Step.{subquery_step_lem}

abbrev sample : String → ℕ → Sample Fraction
sample tenant n = record { metric = ("user", tenant) ∷ []; value = some (fraction n 0) }

-- The state counts the queries.
abbrev api : Api ℕ Fraction
api = record {
  instant = λ q n.
      if q == counter_query "cortex_query_samples_processed_total" "7d"
      then (ok (sample "a" 3 ∷ sample "b" 4 ∷ []), n + 1)
      else (ok [], n + 1);
  now = λ n. (pos 0, n);
}

abbrev promql : Promql String
promql = record {
  parse_metric_selector = λ s. ok [];
  parse_expr = λ s. ok s;
  on_selectors = λ g s. s;
  show_expr = λ s. s;
}

abbrev cfg : Config
cfg = record {
  metrics_tenant = "monitoring";
  selector = record { text = ""; matchers = [] };
  selector_source = "";
  rule_evaluation = "";
}

abbrev week : ℤ
week = pos 604800000000000

abbrev new_world : World ℕ Fraction
new_world = record { api = 0; eval_modes = [] }

abbrev or_empty : Result (Measurement Fraction) → Measurement Fraction
or_empty (ok m) = m
or_empty (err e) = empty_measurement query_path week (pos 0) cfg

abbrev empty : Measurement Fraction
empty = empty_measurement query_path week (pos 0) cfg

-- Two drivers are asked, and the second is the measurement.
chain_ok : read_chain api promql cfg "7d" empty new_world ≡ (
  ok (or_empty (read_chain api promql cfg "7d" empty new_world).0),
  record { api = 2; eval_modes = [] },
)
unfolding read_chain pure lift in_context ◌>>=◌ instant
chain_ok = refl

read_chain-Chooses_example :
    Chooses api promql cfg "7d" empty
      (or_empty (read_chain api promql cfg "7d" empty new_world).0)
      new_world
      (record { api = 2; eval_modes = [] })
read_chain-Chooses_example =
    read_chain-Chooses api promql cfg "7d" empty
      (or_empty (read_chain api promql cfg "7d" empty new_world).0) new_world
      (record { api = 2; eval_modes = [] }) chain_ok

second_driver :
    (or_empty (read_chain api promql cfg "7d" empty new_world).0).driver_metric
    ≡ "cortex_query_samples_processed_total"
unfolding read_chain pure lift in_context ◌>>=◌ instant
second_driver = refl

abbrev pool_6 : Result (Measurement Fraction) × World ℕ Fraction
pool_6 = read_query_path api promql cfg week new_world

pool_6_ok : read_query_path api promql cfg week new_world ≡ (ok (or_empty pool_6.0), pool_6.1)
unfolding read_query_path pure lift in_context ◌>>=◌ instant now
pool_6_ok = refl

read_ruler_cpu-read_query_path_example :
    (m' : Measurement Fraction) × ((read_ruler_cpu api promql cfg week pool_6.1
        ≡ (ok m', record pool_6.1 { api = (api.now pool_6.1.api).1 }))
      × (m'.rule_evaluation ≡ (or_empty pool_6.0).rule_evaluation))
read_ruler_cpu-read_query_path_example =
    read_ruler_cpu-read_query_path api promql cfg week (or_empty pool_6.0) new_world pool_6.1
      pool_6_ok

subquery_step_lem_example :
    (minute ≤ subquery_step (pos 87360000000000))
    × (subquery_step (pos 87360000000000) % second ≡ 0)
    × (pos_part (points (pos 87360000000000)) < 1464)
subquery_step_lem_example = subquery_step_lem (pos 87360000000000)

-- A window with more points than 1440.
more_points : points (pos 87360000000000) ≡ pos 1456
unfolding points
more_points = refl

ingester_ok : (or_empty (read_ingester_memory api promql cfg week new_world).0).architecture ≡ ""
unfolding read_ingester_memory pure lift in_context ◌>>=◌ instant now
ingester_ok = refl
