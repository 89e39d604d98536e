-- ===== src/MimirDrivers/IngesterMemory.antt =====
-- internal/cost/mimirdrivers/mimirdrivers.go: `ReadIngesterMemory` and the queries that it sends.
pub mod Step
use obscost.Prelude.{
  ℕ, suc, ◌-◌, ◌/◌, ◌%◌, String, Bool, true, false, Option, none, some, List, [], ◌∷◌, ◌++◌,
  if◌then◌else◌, ltb, nat_beq, is_empty, sprintf, show_int,
}
use obscost.Prelude.Int.{ℤ, pos, negsuc}
use obscost.Prelude.Map.{Assoc}
use obscost.Prelude.Result.{Result, Action, pure, lift, in_context, ◌>>=◌}
use obscost.Float.{Float}
use obscost.Cost.{Assumption, Measurement, ingester_memory}
use obscost.Promapi.{Sample, Promql, duration}
use obscost.MimirDrivers.{
  Api, Config, World, instant, now, query, require_metrics_tenant, add_samples, empty_measurement,
}

abbrev pub classic_series : String
classic_series =
    "sum by (user) (cortex_ingester_active_series unless on (cluster, namespace, job) cortex_partition_ring_partitions)"

abbrev pub ingest_storage_series : String
ingest_storage_series =
    "sum by (user) (max by (ingester_id, user) (label_replace(cortex_ingester_active_series and on (cluster, namespace, job) cortex_partition_ring_partitions, \"ingester_id\", \"$1\", \"pod\", \".*?-(rc-[0-9]+-[0-9]+|[0-9]+)$\")))"

-- `windowAverage`, of a series, a window and a step
abbrev pub window_average : String → String → String → String
window_average series range_text step_text = sprintf (
    "sum_over_time((" ∷ series ∷ ")[" ∷ range_text ∷ ":" ∷ step_text
    ∷ "]) / scalar(count_over_time((sum(" ∷ series ∷ "))[" ∷ range_text ∷ ":" ∷ step_text ∷ "]))"
    ∷ [])

-- `pipelinePoints`
abbrev pub pipeline_points : String → String → String → String
pipeline_points series range_text step_text =
    sprintf ("count_over_time((sum(" ∷ series ∷ "))[" ∷ range_text ∷ ":" ∷ step_text ∷ "])" ∷ [])

-- `replicationFactorQuery`
abbrev pub replication_factor_query : String → String
replication_factor_query range_text =
    sprintf ("max(max_over_time(cortex_distributor_replication_factor[" ∷ range_text ∷ "]))" ∷ [])

abbrev pub second : ℕ
second = 1000000000

abbrev pub minute : ℕ
minute = 60000000000

-- `subqueryStep`; the quotient of a negative window is below a minute
unfoldable pub subquery_step : ℤ → ℕ
subquery_step (negsuc n) = minute
subquery_step (pos n) =
    let step = n / 1440 in if ltb step minute then minute else step - step % second

-- minus a natural number
abbrev pub minus : ℕ → ℤ
minus k = if nat_beq k 0 then pos 0 else negsuc (k - 1)

-- `window/subqueryStep(window)`, which rounds towards zero
unfoldable pub points : ℤ → ℤ
unfolding subquery_step
points (pos n) = pos (n / subquery_step (pos n))
points (negsuc n) = minus (suc n / minute)

module _ {F : Type 0} ⦃f : Float F⦄ where
  -- the count of a single sample that can be used
  abbrev pub counted_points : List (Sample F) → String
  counted_points [] = "unknown"
  counted_points (smp ∷ []) = elim smp.value [ none ↦ "unknown" | some v ↦ f.format_rounded v ]
  counted_points (smp ∷ other ∷ samples) = "unknown"

  -- the replication factor of a single sample that can be used
  abbrev pub single_value : List (Sample F) → Option F
  single_value [] = none
  single_value (smp ∷ []) = smp.value
  single_value (smp ∷ other ∷ samples) = none

module _ {W F Ast : Type 0} ⦃f : Float F⦄ (api : Api W F) (promql : Promql Ast) (cfg : Config) where
  -- `averagingAssumption`
  unfoldable pub averaging_assumption : String → String → String → ℤ → Action (World W F) Assumption
  unfolding query sprintf points show_int
  averaging_assumption series range_text step_text window = do
    q ← lift (query promql cfg (pipeline_points series range_text step_text))
    samples ← in_context "active series point count" (instant api q)
    pure (record {
      name = "averaging";
      value = sprintf (
          "averaged over the whole window; points where the tenant had no series count as 0; "
          ∷ "points where Mimir's own metrics were missing are excluded ("
          ∷ counted_points samples
          ∷ " of "
          ∷ show_int (points window)
          ∷ ")"
          ∷ []);
      source = q;
    })

-- The write path that answered: its series, and the samples of its query.
pub data WritePath (F : Type 0) : Type 0 where
  classic : List (Sample F) → WritePath F
  ingest_storage : List (Sample F) → WritePath F
  unknown : WritePath F

module _ {W F : Type 0} (api : Api W F) where
  -- the second query, where the first has no samples
  abbrev pub try_ingest_storage : String → List (Sample F) → Action (World W F) (WritePath F)
  try_ingest_storage ingest_query (smp ∷ samples) = pure (classic (smp ∷ samples))
  try_ingest_storage ingest_query [] = do
    samples ← in_context "active series query (ingest storage)" (instant api ingest_query)
    pure (if is_empty samples then unknown else ingest_storage samples)

  unfoldable pub find_write_path : String → String → Action (World W F) (WritePath F)
  find_write_path classic_query ingest_query = do
    samples ← in_context "active series query" (instant api classic_query)
    try_ingest_storage ingest_query samples

module _ {W F Ast : Type 0} ⦃f : Float F⦄ (api : Api W F) (promql : Promql Ast) (cfg : Config) where
  abbrev pub state_averaging :
      String → String → String → ℤ → Measurement F → Action (World W F) (Measurement F)
  state_averaging series range_text step_text window m = do
    a ← averaging_assumption api promql cfg series range_text step_text window
    pure (record m { assumptions = m.assumptions ++ a ∷ [] })

  -- what the write path sets: the drivers, the architecture and the lines of the trail
  abbrev pub by_write_path :
      String
      → String
      → String
      → ℤ
      → Measurement F
      → WritePath F
      → Action (World W F) (Measurement F)
  by_write_path ingest_query range_text step_text window m (classic samples) = do
    m' ←
        state_averaging classic_series range_text step_text window
          (record m { architecture = "classic" })
    pure (record m' { drivers = add_samples [] samples })
  by_write_path ingest_query range_text step_text window m (ingest_storage samples) = do
    m' ← state_averaging ingest_storage_series range_text step_text window (record m {
      driver_query = ingest_query;
      architecture = "ingest storage";
      deduplicated = true;
    })
    pure (record m' { drivers = add_samples [] samples })
  by_write_path ingest_query range_text step_text window m unknown = pure (record m {
    assumptions =
        m.assumptions
        ++ record {
          name = "write path";
          value = "unknown (no data)";
          source = "neither the classic nor the ingest-storage driver query returned data";
        }
          ∷ [];
    notes =
        m.notes
        ++ "Mimir returned no data for cortex_ingester_active_series: the metrics tenant may not be the one that scrapes Mimir's ingesters (check --metrics-tenant)"
          ∷ [];
  })

  -- `ReadIngesterMemory`
  unfoldable pub read_ingester_memory : ℤ → Action (World W F) (Measurement F)
  unfolding duration query averaging_assumption find_write_path add_samples sprintf subquery_step
  read_ingester_memory window = do
    _ ← lift (require_metrics_tenant cfg)
    range_text ← lift (duration window)
    step_text ← lift (duration (pos (subquery_step window)))
    classic_query ← lift (query promql cfg (window_average classic_series range_text step_text))
    ingest_query ←
        lift (query promql cfg (window_average ingest_storage_series range_text step_text))
    rf_query ← lift (query promql cfg (replication_factor_query range_text))
    end ← now api
    path ← find_write_path api classic_query ingest_query
    m ←
        by_write_path ingest_query range_text step_text window
          (record (empty_measurement ingester_memory window end cfg) {
            driver_query = classic_query;
            rf_query = rf_query;
          })
          path
    rf ← in_context "replication factor query" (instant api rf_query)
    pure (record m { replication_factor = single_value rf })
