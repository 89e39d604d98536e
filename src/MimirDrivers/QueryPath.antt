-- ===== src/MimirDrivers/QueryPath.antt =====
-- internal/cost/mimirdrivers/counters.go: the drivers of the query path and `ReadQueryPath`.
mod Measured
pub mod Choice
pub mod Shared
use obscost.Prelude.{
  String, Bool, true, false, not, Option, none, some, List, [], ◌∷◌, ◌++◌, map, if◌then◌else◌, ◌==◌,
  string_comparable, is_some, is_empty, select, sprintf, join,
}
use obscost.Prelude.Int.{ℤ}
use obscost.Prelude.Map.{Assoc, get}
use obscost.Prelude.Result.{Action, pure, lift, in_context, ◌>>=◌}
use obscost.Float.{Float, nought}
use obscost.Cost.{
  Assumption, Measurement, query_path, unit_bytes, unit_count, unit_seconds, rule_evaluation_local,
  rule_evaluation_remote, rule_evaluation_unknown,
}
use obscost.Promapi.{Promql, text_or_empty}
use obscost.MimirDrivers.{
  Api, Config, Mode, World, query, counter_query, read_drivers, sum_of, counter_measurement,
}
use obscost.MimirDrivers.RuleEvaluation.{rule_evaluation}

pub record QueryPathDriver : Type 0 where
  pub metric : String
  pub kind : String
  pub unit : String

abbrev pub driver : String → String → String → QueryPathDriver
driver metric kind unit = record { metric = metric; kind = kind; unit = unit }

abbrev pub first_driver : QueryPathDriver
first_driver = driver "cortex_query_fetched_chunk_bytes_total" "chunk bytes fetched" unit_bytes

-- `queryPathChain`
abbrev pub query_path_chain : List QueryPathDriver
query_path_chain =
    first_driver
    ∷ driver "cortex_query_samples_processed_total" "samples processed" unit_count
    ∷ driver "cortex_query_fetched_series_total" "series fetched" unit_count
    ∷ driver "cortex_query_seconds_total" "query seconds" unit_seconds
    ∷ []

abbrev pub query_path_fallback_note : List String
query_path_fallback_note =
    "no fetched-volume metric returned data, so query time is the driver. "
    ∷ "Time depends on load as well as on what a tenant asked for: a tenant's queries run slower when a neighbour loads the cluster, "
    ∷ "so these shares can move without anyone's behaviour changing. "
    ∷ "Sharded queries also report CPU time summed across shards, not elapsed time" ∷ []

-- `chainNames`
abbrev pub chain_names : String
chain_names = join " → " (map (λ d. d.metric) query_path_chain)

-- `queryPathRuleQueries`
abbrev pub query_path_rule_queries : Assoc String String
query_path_rule_queries =
    (
      rule_evaluation_local,
      "not included — rules are evaluated inside the ruler, so this pool is user and API queries only; rule work is in the ruler CPU pool",
    )
    ∷ (
      rule_evaluation_remote,
      "included — rules are evaluated remotely, so every tenant's rule queries are in this pool alongside its user queries, and no label separates the two",
    )
    ∷ (
      rule_evaluation_unknown,
      "unknown — whether rule queries are in this pool depends on the ruler's evaluation mode, which could not be inferred",
    )
    ∷ []

-- `answer`
pub record Answer (F : Type 0) : Type 0 where
  pub driver : QueryPathDriver
  pub query : String
  pub drivers : Assoc String F

-- `skip`
pub record Skip : Type 0 where
  pub metric : String
  pub why : String

-- The variables of the loop over the chain.
pub record Walk (F : Type 0) : Type 0 where
  pub chosen : Option (Answer F)
  pub zeroed : Option (Answer F)
  pub skipped : List Skip

-- `p == nil` keeps what is set
abbrev pub or_else {ℓ} : {A : Type ℓ} → Option A → Option A → Option A
or_else none b = b
or_else (some a) b = some a

module _ {F : Type 0} ⦃f : Float F⦄ where
  -- the `switch` of the loop
  unfoldable pub consider : Answer F → Walk F → Walk F
  unfolding sum_of
  consider a w =
      if is_empty a.drivers
      then record w {
        skipped = w.skipped ++ record { metric = a.driver.metric; why = "no data" } ∷ [];
      }
      else if f.lt nought (sum_of a.drivers)
      then record w { chosen = some a }
      else record w {
        zeroed = or_else w.zeroed (some a);
        skipped = w.skipped ++ record { metric = a.driver.metric; why = "all zero" } ∷ [];
      }

module _ {W F Ast : Type 0} ⦃f : Float F⦄ (api : Api W F) (promql : Promql Ast) (cfg : Config) where
  -- one driver of the chain
  unfoldable pub ask : String → QueryPathDriver → Action (World W F) (Answer F)
  unfolding query read_drivers sprintf
  ask range_text d = do
    q ← lift (query promql cfg (counter_query d.metric range_text))
    drivers ← in_context (sprintf (d.metric ∷ " query" ∷ [])) (read_drivers api q)
    pure (record { driver = d; query = q; drivers = drivers })

  -- the loop over the chain, which stops at a driver that is chosen
  unfoldable pub walk_chain : String → List QueryPathDriver → Walk F → Action (World W F) (Walk F)
  unfolding ask consider
  walk_chain range_text [] w = pure w
  walk_chain range_text (d ∷ ds) w = do
    a ← ask range_text d
    let w' = consider a w
    if is_some w'.chosen then pure w' else walk_chain range_text ds w'

module _ {F : Type 0} where
  abbrev pub no_walk : Walk F
  no_walk = record { chosen = none; zeroed = none; skipped = [] }

  -- what was tried before the winner
  abbrev pub tried_before : Answer F → List Skip → List String
  tried_before a skipped =
      map (λ sk. sprintf (sk.metric ∷ " (" ∷ sk.why ∷ ")" ∷ []))
        (select (λ sk. not (sk.metric == a.driver.metric)) skipped)

  abbrev pub name_tried : List String → Measurement F → Measurement F
  name_tried [] m = m
  name_tried (t ∷ ts) m = record m {
    assumptions =
        m.assumptions
        ++ record {
          name = "preferred drivers skipped";
          value = join ", " (t ∷ ts);
          source = m.source;
        }
          ∷ [];
  }

  abbrev pub mark_fallback : QueryPathDriver → Measurement F → Measurement F
  mark_fallback d m =
      if d.unit == unit_seconds
      then record m { fallback = true; fallback_note = sprintf query_path_fallback_note }
      else m

  -- the measurement by the winner
  abbrev pub measured_by : Answer F → List Skip → Measurement F → Measurement F
  measured_by a skipped m = name_tried (tried_before a skipped) (
      mark_fallback a.driver (record m {
        driver_query = a.query;
        driver_metric = a.driver.metric;
        driver_kind = a.driver.kind;
        unit = a.driver.unit;
        drivers = a.drivers;
      }))

  -- the measurement where nothing answered
  abbrev pub unmeasured : String → Measurement F → Measurement F
  unmeasured q m = record m {
    driver_query = q;
    driver_metric = first_driver.metric;
    driver_kind = first_driver.kind;
    unit = first_driver.unit;
    notes =
        m.notes
        ++ sprintf (
            "Mimir returned no data for any query-path metric (" ∷ chain_names
            ∷ "): no tenant ran a query in this window, or the metrics tenant does not scrape the query-frontend"
            ∷ [])
          ∷ [];
  }

  abbrev pub explain_rule_queries : Mode F → Measurement F → Measurement F
  explain_rule_queries mode m = record m {
    rule_evaluation = mode.mode;
    assumptions =
        m.assumptions
        ++ record {
          name = "rule queries";
          value = sprintf (
              text_or_empty (get mode.mode query_path_rule_queries)
              ∷ " ("
              ∷ mode.evidence
              ∷ ")"
              ∷ []);
          source = mode.source;
        }
          ∷ [];
  }

  abbrev pub state_preference : Measurement F → Measurement F
  state_preference m = record m {
    assumptions =
        m.assumptions
        ++ record {
          name = "driver preference";
          value =
              sprintf
                ("fetched volume over time: " ∷ chain_names ∷ "; the first with data is used" ∷ []);
          source = "ADR 0003 pool 6, ADR 0002 decision 8";
        }
          ∷ [];
  }

module _ {W F Ast : Type 0} ⦃f : Float F⦄ (api : Api W F) (promql : Promql Ast) (cfg : Config) where
  -- what follows the loop
  abbrev pub conclude :
      String → Measurement F → List Skip → Option (Answer F) → Action (World W F) (Measurement F)
  conclude range_text m skipped none = do
    q ← lift (query promql cfg (counter_query first_driver.metric range_text))
    pure (unmeasured q m)
  conclude range_text m skipped (some a) = pure (measured_by a skipped m)

  -- `ReadQueryPath` from the loop on
  unfoldable pub read_chain : String → Measurement F → Action (World W F) (Measurement F)
  unfolding walk_chain query sprintf select join
  read_chain range_text m = do
    w ← walk_chain api promql cfg range_text query_path_chain no_walk
    conclude range_text m w.skipped (or_else w.chosen w.zeroed)

  -- `ReadQueryPath`
  unfoldable pub read_query_path : ℤ → Action (World W F) (Measurement F)
  unfolding counter_measurement rule_evaluation read_chain get
  read_query_path window = do
    (m, range_text) ← counter_measurement api cfg query_path window
    mode ← rule_evaluation api promql cfg range_text
    read_chain range_text (explain_rule_queries mode (state_preference m))
