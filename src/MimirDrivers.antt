-- ===== src/MimirDrivers.antt =====
-- internal/cost/mimirdrivers: measurements of the pools, read from Mimir's own metrics. The query API and
-- the PromQL parser are parameters; the API has a state, since each answer may differ from the last.
pub mod RuleEvaluation
pub mod QueryPath
pub mod IngesterMemory
pub mod Clusters
mod Tests
use obscost.Prelude.{
  String, Bool, true, false, ◌||◌, Option, none, some, List, [], ◌∷◌, ◌++◌, if◌then◌else◌, ◌==◌,
  string_comparable, is_empty, sprintf,
}
use obscost.Prelude.Int.{ℤ}
use obscost.Prelude.Map.{Assoc, get, put}
use obscost.Prelude.Result.{message, Result, ok, err, Action, pure, lift, ◌>>=◌}
use obscost.Float.{Float, nought, sum_from, total_of}
use obscost.Cost.{Pool, Assumption, Measurement}
use obscost.Promapi.{Sample, label_value, Promql, Selector, apply, duration}

-- `promapi.Client.Instant` and `time.Now`, in a state `W`
pub record Api (W F : Type 0) : Type 0 where
  pub instant : String → W → Result (List (Sample F)) × W
  pub now : W → ℤ × W

-- `Config`, as far as the reading uses it
pub record Config : Type 0 where
  pub metrics_tenant : String
  pub selector : Selector
  pub selector_source : String
  pub rule_evaluation : String

-- The ruler's mode as inferred for one window, `ruleEvaluation`.
pub record Mode (F : Type 0) : Type 0 where
  pub mode : String
  pub evidence : String
  pub source : String
  pub eval_seconds : Assoc String F
  pub eval_query : String

-- The API's state and the `Source`'s cache.
pub record World (W F : Type 0) : Type 0 where
  pub api : W
  pub eval_modes : Assoc String (Mode F)

module _ {W F : Type 0} (api : Api W F) where
  unfoldable pub instant : String → Action (World W F) (List (Sample F))
  instant q s = let (r, w) = api.instant q s.api in (r, record s { api = w })

  unfoldable pub now : Action (World W F) ℤ
  now s = let (t, w) = api.now s.api in (ok t, record s { api = w })

module _ {Ast : Type 0} (promql : Promql Ast) (cfg : Config) where
  -- `query`, after `fmt.Sprintf`
  unfoldable pub query : String → Result String
  unfolding apply
  query text = apply promql cfg.selector text

abbrev pub counter_query : String → String → String
counter_query metric range_text =
    sprintf ("sum by (user) (increase(" ∷ metric ∷ "[" ∷ range_text ∷ "]))" ∷ [])

-- `source`
abbrev pub source_of : Config → String
source_of cfg = sprintf ("Mimir metrics (queried as tenant " ∷ cfg.metrics_tenant ∷ ")" ∷ [])

-- `selectorAssumptions`
abbrev pub selector_assumptions : Config → List Assumption
selector_assumptions cfg =
    if is_empty cfg.selector.matchers
    then []
    else record {
      name = "cluster selector";
      value = sprintf (cfg.selector.text ∷ ", added to every query this pool ran" ∷ []);
      source = cfg.selector_source;
    }
      ∷ []

-- `requireMetricsTenant`; the text of the error is cut
abbrev pub require_metrics_tenant : Config → Result (Unit {0})
require_metrics_tenant cfg =
    if cfg.metrics_tenant == "" then err (message "MetricsTenant is required") else ok tt

module _ {F : Type 0} ⦃f : Float F⦄ where
  abbrev pub or_nought : Option F → F
  or_nought none = nought
  or_nought (some v) = v

  -- a sample of a tenant with a value that can be used
  abbrev pub add_value : String → Option F → Assoc String F → Assoc String F
  add_value tenant none out = out
  add_value tenant (some v) out =
      if tenant == "" then out else put tenant (f.add (or_nought (get tenant out)) v) out

  -- the loop of `readDrivers`
  unfoldable pub add_samples : Assoc String F → List (Sample F) → Assoc String F
  unfolding get put
  add_samples out [] = out
  add_samples out (smp ∷ samples) =
      add_samples (add_value (label_value "user" smp) smp.value out) samples

  abbrev pub values_of : Assoc String F → List F
  values_of [] = []
  values_of ((t, v) ∷ m) = v ∷ values_of m

  -- `sumOf`
  unfoldable pub sum_of : Assoc String F → F
  unfolding sum_from
  sum_of m = total_of (values_of m)

module _ {W F : Type 0} ⦃f : Float F⦄ (api : Api W F) where
  -- `readDrivers`
  unfoldable pub read_drivers : String → Action (World W F) (Assoc String F)
  unfolding add_samples
  read_drivers q = do samples ← instant api q; pure (add_samples [] samples)

module _ {F : Type 0} where
  -- the measurement that a pool's reading starts from
  abbrev pub empty_measurement : Pool → ℤ → ℤ → Config → Measurement F
  empty_measurement pool window end cfg = record {
    pool = pool;
    window = window;
    end = end;
    source = source_of cfg;
    driver_query = "";
    drivers = [];
    driver_metric = "";
    driver_kind = "";
    unit = "";
    fallback = false;
    fallback_note = "";
    unreplicated = false;
    assumptions = selector_assumptions cfg;
    notes = [];
    rule_evaluation = "";
    replication_factor = none;
    rf_query = "";
    deduplicated = false;
    architecture = "";
  }

module _ {W F : Type 0} (api : Api W F) (cfg : Config) where
  -- `counterMeasurement`
  unfoldable pub counter_measurement : Pool → ℤ → Action (World W F) (Measurement F × String)
  unfolding duration sprintf
  counter_measurement pool window = do
    _ ← lift (require_metrics_tenant cfg)
    range_text ← lift (duration window)
    end ← now api
    pure (record (empty_measurement pool window end cfg) { unreplicated = true }, range_text)
