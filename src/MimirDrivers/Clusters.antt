-- ===== src/MimirDrivers/Clusters.antt =====
-- `Clusters` of internal/cost/mimirdrivers/selector.go and internal/promapi/selector.go.
use obscost.Prelude.{
  String, ◌||◌, List, [], ◌∷◌, ◌++◌, if◌then◌else◌, ◌==◌, string_comparable, contains, str_lt,
  sprintf, join,
}
use obscost.Prelude.Sort.{sort_by}
use obscost.Prelude.Result.{Action, pure, lift, ◌>>=◌}
use obscost.Promapi.{Sample, label_value, Promql}
use obscost.MimirDrivers.{Api, Config, World, instant, query, require_metrics_tenant}
use obscost.MimirDrivers.RuleEvaluation.{rule_evaluation_metric}

abbrev pub cluster_query : String
cluster_query = sprintf (
    "count by (cluster) ({__name__=~\""
    ∷ join "|" (
        "cortex_ingester_active_series" ∷ "cortex_query_seconds_total" ∷ rule_evaluation_metric
        ∷ [])
    ∷ "\"})"
    ∷ [])

abbrev pub add_cluster : List String → String → List String
add_cluster out v = if v == "" || contains v out then out else out ++ v ∷ []

-- the loop over the samples
unfoldable pub add_clusters : {F : Type 0} → List String → List (Sample F) → List String
unfolding contains
add_clusters out [] = out
add_clusters out (smp ∷ samples) =
    add_clusters (add_cluster out (label_value "cluster" smp)) samples

module _ {W F Ast : Type 0} (api : Api W F) (promql : Promql Ast) (cfg : Config) where
  -- `Clusters`
  unfoldable pub clusters : Action (World W F) (List String)
  unfolding query add_clusters sort_by str_lt sprintf join
  clusters = do
    _ ← lift (require_metrics_tenant cfg)
    q ← lift (query promql cfg cluster_query)
    samples ← instant api q
    pure (sort_by str_lt (add_clusters [] samples))
