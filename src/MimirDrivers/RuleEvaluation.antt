-- ===== src/MimirDrivers/RuleEvaluation.antt =====
-- internal/cost/mimirdrivers/counters.go: the ruler's evaluation mode, its cache, and `ReadRulerCPU`.
pub mod Cache
use obscost.Prelude.{
  ℕ, String, Bool, true, false, not, Option, none, some, List, [], ◌∷◌, ◌++◌, if◌then◌else◌, ◌==◌,
  string_comparable, is_empty, sprintf,
}
use obscost.Prelude.Int.{ℤ}
use obscost.Prelude.Map.{Assoc, get, put}
use obscost.Prelude.Result.{ok, Action, pure, lift, in_context, ◌>>=◌}
use obscost.Float.{Float}
use obscost.Cost.{
  Assumption, Measurement, ruler_cpu, unit_seconds, rule_evaluation_local, rule_evaluation_remote,
  rule_evaluation_unknown,
}
use obscost.Promapi.{Promql}
use obscost.MimirDrivers.{
  Api, Config, Mode, World, instant, query, counter_query, source_of, read_drivers,
  counter_measurement,
}

abbrev pub rule_evaluation_metric : String
rule_evaluation_metric = "cortex_prometheus_rule_evaluation_duration_seconds_sum"

abbrev pub ruler_query_metric : String
ruler_query_metric = "cortex_ruler_query_seconds_total"

abbrev pub ruler_job : String
ruler_job = "job=~\".*ruler\""

abbrev pub ruler_distributor_query_metric : String
ruler_distributor_query_metric = "cortex_distributor_query_duration_seconds_count"

abbrev pub rule_evaluation_count_metric : String
rule_evaluation_count_metric = "cortex_prometheus_rule_evaluation_duration_seconds_count"

abbrev pub present_query : String → String → String
present_query metric range_text =
    sprintf ("count(increase(" ∷ metric ∷ "{" ∷ ruler_job ∷ "}[" ∷ range_text ∷ "]))" ∷ [])

pub record Inferred : Type 0 where
  pub mode : String
  pub evidence : String

abbrev pub inferred : String → List String → Inferred
inferred mode evidence = record { mode = mode; evidence = sprintf evidence }

-- the `switch` of `inferRuleEvaluation`: whether the ruler's job has distributor queries, whether there
-- are ruler query seconds, whether the ruler's job evaluated rules, and whether any rule was evaluated
abbrev pub decide_mode : Bool → Bool → Bool → Bool → Inferred
decide_mode distributor_queries query_seconds ruler_evaluations evaluated =
    if distributor_queries
    then inferred rule_evaluation_local (
        "inferred: the ruler's job (" ∷ ruler_job ∷ ") has " ∷ ruler_distributor_query_metric
        ∷ " data, which only a ruler querying ingesters itself records" ∷ [])
    else if query_seconds
    then inferred rule_evaluation_local (
        "inferred: " ∷ ruler_query_metric
        ∷ " has data, and the ruler records it only for queries it runs itself" ∷ [])
    else if ruler_evaluations
    then inferred rule_evaluation_remote (
        "inferred: the ruler's job (" ∷ ruler_job ∷ ") evaluated rules but has no "
        ∷ ruler_distributor_query_metric
        ∷ " data, which a ruler evaluating locally always records, so its queries go to the query-frontend"
        ∷ [])
    else if evaluated
    then inferred rule_evaluation_unknown (
        "rules were evaluated, but not under a scrape job matching " ∷ ruler_job
        ∷ ", so the ruler's own query metrics cannot be told apart; set inventory.ruler_evaluation to say which"
        ∷ [])
    else inferred rule_evaluation_unknown (
        "neither " ∷ rule_evaluation_metric
        ∷ " nor any ruler query metric has data in this window: "
        ∷ "no tenant evaluated rules, or the metrics tenant does not scrape the ruler" ∷ [])

module _ {W F Ast : Type 0} ⦃f : Float F⦄ (api : Api W F) (promql : Promql Ast) (cfg : Config) where
  -- the closure `present`
  unfoldable pub present : String → Action (World W F) Bool
  unfolding query
  present text = do
    q ← lift (query promql cfg text)
    samples ← instant api q
    pure (not (is_empty samples))

  -- the probes of `inferRuleEvaluation`
  infer_probed : String → Mode F → Action (World W F) (Mode F)
  unfolding present sprintf
  infer_probed range_text r = do
    distributor_queries ←
        in_context "ruler distributor-query probe"
          (present (present_query ruler_distributor_query_metric range_text))
    query_seconds ←
        in_context "ruler query-time query" (present (counter_query ruler_query_metric range_text))
    ruler_evaluations ←
        in_context "ruler evaluation probe"
          (present (present_query rule_evaluation_count_metric range_text))
    let d =
        decide_mode distributor_queries query_seconds ruler_evaluations
          (not (is_empty r.eval_seconds))
    pure (record r { mode = d.mode; evidence = d.evidence })

  -- `inferRuleEvaluation`
  unfoldable pub infer_rule_evaluation : String → Mode F → Action (World W F) (Mode F)
  unfolding infer_probed
  infer_rule_evaluation range_text r =
      if not (cfg.rule_evaluation == "")
      then pure (record r {
        mode = cfg.rule_evaluation;
        evidence = "operator-supplied, not inferred";
        source = "operator-supplied: inventory.ruler_evaluation";
      })
      else infer_probed range_text r

  -- `ruleEvaluation`, where the window is not in the cache, up to the write to the cache
  unfoldable pub collect_mode : String → Action (World W F) (Mode F)
  unfolding query read_drivers infer_rule_evaluation sprintf
  collect_mode range_text = do
    q ← lift (query promql cfg (counter_query rule_evaluation_metric range_text))
    seconds ← in_context "rule evaluation query" (read_drivers api q)
    infer_rule_evaluation range_text (record {
      mode = "";
      evidence = "";
      source = source_of cfg;
      eval_seconds = seconds;
      eval_query = q;
    })

  -- `s.evalModes[rangeStr] = r`
  unfoldable pub remember : String → Mode F → Action (World W F) (Mode F)
  unfolding put
  remember range_text r s = (ok r, record s { eval_modes = put range_text r s.eval_modes })

  abbrev pub read_mode : String → Action (World W F) (Mode F)
  read_mode range_text = do r ← collect_mode range_text; remember range_text r

  abbrev pub mode_or_read : String → Option (Mode F) → Action (World W F) (Mode F)
  mode_or_read range_text (some r) = pure r
  mode_or_read range_text none = read_mode range_text

  -- `ruleEvaluation`
  unfoldable pub rule_evaluation : String → Action (World W F) (Mode F)
  unfolding get collect_mode remember
  rule_evaluation range_text s = mode_or_read range_text (get range_text s.eval_modes) s

module _ {F : Type 0} where
  -- the `switch` of `ReadRulerCPU`
  abbrev pub explain_mode : Mode F → Measurement F → Measurement F
  explain_mode mode m =
      if mode.mode == rule_evaluation_local
      then record m {
        assumptions =
            m.assumptions
            ++ record {
              name = "rule evaluation";
              value = sprintf (
                  "local (" ∷ mode.evidence
                  ∷ "): all of this time is ruler CPU, and none of it is in the query path "
                  ∷ "(the ruler's query time is part of it, not added to it)" ∷ []);
              source = mode.source;
            }
              ∷ [];
      }
      else if mode.mode == rule_evaluation_remote
      then record m {
        assumptions =
            m.assumptions
            ++ record {
              name = "rule evaluation";
              value = sprintf (
                  "remote (" ∷ mode.evidence
                  ∷ "): the rule queries' work is priced in the query path" ∷ []);
              source = mode.source;
            }
              ∷ [];
        notes =
            m.notes
            ++ sprintf (
                "rules are evaluated remotely, so this time is mostly the ruler waiting on the query path, not ruler CPU: "
                ∷ "it shows how long each tenant's rules occupy the ruler, and the work behind it is already in the query path pool. "
                ∷ "It also depends on load — a tenant's rules run slower when a neighbour loads the cluster"
                ∷ [])
              ∷ [];
      }
      else record m {
        assumptions =
            m.assumptions
            ++ record {
              name = "rule evaluation";
              value = sprintf ("unknown (" ∷ mode.evidence ∷ ")" ∷ []);
              source = mode.source;
            }
              ∷ [];
      }

module _ {W F Ast : Type 0} ⦃f : Float F⦄ (api : Api W F) (promql : Promql Ast) (cfg : Config) where
  -- `ReadRulerCPU`
  unfoldable pub read_ruler_cpu : ℤ → Action (World W F) (Measurement F)
  unfolding counter_measurement rule_evaluation
  read_ruler_cpu window = do
    (m, range_text) ← counter_measurement api cfg ruler_cpu window
    mode ← rule_evaluation api promql cfg range_text
    pure (
        explain_mode mode (record m {
          driver_metric = rule_evaluation_metric;
          driver_kind = "rule-evaluation seconds";
          unit = unit_seconds;
          driver_query = mode.eval_query;
          drivers = mode.eval_seconds;
          rule_evaluation = mode.mode;
        }))
