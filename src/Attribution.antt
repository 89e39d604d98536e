-- ===== src/Attribution.antt =====
-- internal/attribution/attribution.go: the rank metric, the shares in percent, and what a report holds. An `int` that
-- only counts up is a natural number.
pub mod Groups
pub mod Accumulate
pub mod Aggregate
pub mod Observations
mod Tests
use obscost.Prelude.{ℕ, String, Bool, true, Option, none, some, List, if◌then◌else◌, nat_beq, ltb}
use obscost.Prelude.Int.{ℤ}
use obscost.Float.{Float, nought, hundred}
use obscost.Rule.{Kind, RuleId, RuleExecution}

pub data RankMetric : Type 0 where
  duration_seconds : RankMetric
  fetched_bytes : RankMetric
  fetched_series : RankMetric
  fetched_chunks : RankMetric
  samples_processed : RankMetric
  executions : RankMetric

-- `RankMetric.Label`
pub label : RankMetric → String
label duration_seconds = "query wall time"
label fetched_bytes = "fetched bytes"
label fetched_series = "fetched series"
label fetched_chunks = "fetched chunks"
label samples_processed = "samples processed"
label executions = "executions"

pub data Granularity : Type 0 where
  rule_level : Granularity
  group_level : Granularity

pub record RuleAggregate (F : Type 0) : Type 0 where
  pub rule_id : RuleId
  pub kind : Kind
  pub execution_count : ℕ
  pub execution_share_pct : F
  pub samples : ℕ
  pub sample_share_pct : F
  pub duration_sum : F
  pub series : ℕ
  pub chunks : ℕ
  pub bytes : ℕ
  pub rank_value : F
  pub rank_share_pct : F
  pub rank_observed : Bool
  pub samples_observed : Bool
  pub duration_observed : Bool
  pub series_observed : Bool
  pub chunks_observed : Bool
  pub bytes_observed : Bool

pub record GroupAggregate (F : Type 0) : Type 0 where
  pub namespace : String
  pub group : String
  pub execution_count : ℤ
  pub rank_value : F
  pub rank_share_pct : F
  pub rank_observed : Bool
  pub rules : List (RuleAggregate F)

pub record TenantAggregate (F : Type 0) : Type 0 where
  pub tenant : String
  pub rule_count : ℕ
  pub execution_count : ℤ
  pub execution_share_pct : F
  pub samples : ℕ
  pub sample_share_pct : F
  pub duration_sum : F
  pub series : ℕ
  pub chunks : ℕ
  pub bytes : ℕ
  pub rank_value : F
  pub rank_share_pct : F
  pub samples_observed : Bool
  pub duration_observed : Bool
  pub series_observed : Bool
  pub chunks_observed : Bool
  pub bytes_observed : Bool
  pub rules : List (RuleAggregate F)
  pub groups : List (GroupAggregate F)
  pub unmatched_executions : ℕ
  pub unmatched_samples : ℕ

pub record Report (F : Type 0) : Type 0 where
  pub total_executions : ℤ
  pub total_samples : ℕ
  pub rule_definitions : ℕ
  pub granularity : Granularity
  pub rank_metric : RankMetric
  pub group_rank_metric : RankMetric
  pub tenants : List (TenantAggregate F)
  pub unmatched : List (RuleExecution F)

-- `RuleAggregate.Observed`
unfoldable pub rule_observed : {F : Type 0} → RuleAggregate F → RankMetric → Bool
rule_observed r duration_seconds = r.duration_observed
rule_observed r fetched_bytes = r.bytes_observed
rule_observed r fetched_series = r.series_observed
rule_observed r fetched_chunks = r.chunks_observed
rule_observed r samples_processed = r.samples_observed
rule_observed r executions = true

-- `TenantAggregate.Observed`
unfoldable pub tenant_observed : {F : Type 0} → TenantAggregate F → RankMetric → Bool
tenant_observed t duration_seconds = t.duration_observed
tenant_observed t fetched_bytes = t.bytes_observed
tenant_observed t fetched_series = t.series_observed
tenant_observed t fetched_chunks = t.chunks_observed
tenant_observed t samples_processed = t.samples_observed
tenant_observed t executions = true

-- `valueOr`
abbrev pub value_or {ℓ} : {A : Type ℓ} → Option A → A → A
value_or none fallback = fallback
value_or (some v) fallback = v

module _ {F : Type 0} ⦃f : Float F⦄ where
  -- `pickRankMetric`
  unfoldable pub pick_rank_metric : F → ℕ → ℕ → ℕ → ℕ → RankMetric
  pick_rank_metric duration samples series chunks bytes =
      if ltb 0 bytes
      then fetched_bytes
      else if ltb 0 chunks
      then fetched_chunks
      else if ltb 0 series
      then fetched_series
      else if f.lt nought duration
      then duration_seconds
      else if ltb 0 samples
      then samples_processed
      else executions

  -- `metricValue`
  unfoldable pub metric_value : RankMetric → ℤ → ℕ → F → ℕ → ℕ → ℕ → F
  metric_value duration_seconds count samples duration series chunks bytes = duration
  metric_value fetched_bytes count samples duration series chunks bytes = f.of_nat bytes
  metric_value fetched_series count samples duration series chunks bytes = f.of_nat series
  metric_value fetched_chunks count samples duration series chunks bytes = f.of_nat chunks
  metric_value samples_processed count samples duration series chunks bytes = f.of_nat samples
  metric_value executions count samples duration series chunks bytes = f.of_int count

  -- `pct`
  unfoldable pub pct : ℕ → ℕ → F
  pct part total =
      if nat_beq total 0 then nought else f.div (f.mul hundred (f.of_nat part)) (f.of_nat total)

  -- `pctf`
  unfoldable pub pctf : F → F → F
  pctf part total = if f.eq total nought then nought else f.div (f.mul hundred part) total
