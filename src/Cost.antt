-- ===== src/Cost.antt =====
-- internal/cost/cost.go: pools, the operator's inventory, and what a measurement and an allocation
-- hold. A pointer is an option; times and durations are nanoseconds.
pub mod Validate
pub mod Window
pub mod Factor
pub mod Price
pub mod Allocate
pub mod Total
mod Tests
use obscost.Prelude.{String, Bool, true, false, Option, none, some, List, [], ◌∷◌}
use obscost.Prelude.Int.{ℤ}
use obscost.Prelude.Map.{Assoc}
use obscost.Float.{Float, nought}

abbrev pub PoolId : Type 0
PoolId = String

abbrev pub pool_ingester_memory : PoolId
pool_ingester_memory = "ingester_memory"

abbrev pub pool_query_path : PoolId
pool_query_path = "query_path"

abbrev pub pool_ruler_cpu : PoolId
pool_ruler_cpu = "ruler_cpu"

pub record Pool : Type 0 where
  pub id : PoolId
  pub name : String
  pub replica_noun : String
  pub driver : String
  pub driver_unit : String
  pub cumulative : Bool
  pub components : List String

abbrev pub ingester_memory : Pool
ingester_memory = record {
  id = pool_ingester_memory;
  name = "ingester memory";
  replica_noun = "ingester";
  driver = "cortex_ingester_active_series";
  driver_unit = "active series";
  cumulative = false;
  components = [];
}

abbrev pub query_path : Pool
query_path = record {
  id = pool_query_path;
  name = "query path";
  replica_noun = "query-path replica";
  driver = "cortex_query_fetched_chunk_bytes_total";
  driver_unit = "fetched volume";
  cumulative = true;
  components = "query-frontend" ∷ "querier" ∷ [];
}

abbrev pub ruler_cpu : Pool
ruler_cpu = record {
  id = pool_ruler_cpu;
  name = "ruler CPU";
  replica_noun = "ruler";
  driver = "cortex_prometheus_rule_evaluation_duration_seconds_sum";
  driver_unit = "rule-evaluation seconds";
  cumulative = true;
  components = [];
}

abbrev pub known_pools : Assoc PoolId Pool
known_pools =
    (pool_ingester_memory, ingester_memory)
    ∷ (pool_query_path, query_path)
    ∷ (pool_ruler_cpu, ruler_cpu)
    ∷ []

abbrev pub pool_order : List PoolId
pool_order = pool_ingester_memory ∷ pool_query_path ∷ pool_ruler_cpu ∷ []

-- `RuleEvaluation`; the empty text means "infer it" in an inventory and "not affected" elsewhere
abbrev pub rule_evaluation_local : String
rule_evaluation_local = "local"

abbrev pub rule_evaluation_remote : String
rule_evaluation_remote = "remote"

abbrev pub rule_evaluation_unknown : String
rule_evaluation_unknown = "unknown"

abbrev pub unit_count : String
unit_count = "count"

abbrev pub unit_bytes : String
unit_bytes = "bytes"

abbrev pub unit_seconds : String
unit_seconds = "seconds"

pub record ComponentInventory (F : Type 0) : Type 0 where
  pub replicas : Option ℤ
  pub cost_per_replica_month : Option F

pub record PoolInventory (F : Type 0) : Type 0 where
  pub replicas : Option ℤ
  pub cost_per_replica_month : Option F
  pub components : Assoc String (ComponentInventory F)

pub record Inventory (F : Type 0) : Type 0 where
  pub currency : String
  pub replication_factor : Option ℤ
  pub platform_cost_month : Option F
  pub rule_evaluation : String
  pub pools : Assoc PoolId (PoolInventory F)

pub record Assumption : Type 0 where
  pub name : String
  pub value : String
  pub source : String

pub record Measurement (F : Type 0) : Type 0 where
  pub pool : Pool
  pub window : ℤ
  pub end : ℤ
  pub source : String
  pub driver_query : String
  pub drivers : Assoc String F
  pub driver_metric : String
  pub driver_kind : String
  pub unit : String
  pub fallback : Bool
  pub fallback_note : String
  pub unreplicated : Bool
  pub assumptions : List Assumption
  pub notes : List String
  pub rule_evaluation : String
  pub replication_factor : Option F
  pub rf_query : String
  pub deduplicated : Bool
  pub architecture : String

pub record TenantShare (F : Type 0) : Type 0 where
  pub tenant : String
  pub driver_raw : F
  pub driver : Option F
  pub share : Option F
  pub equivalent_replicas : Option F
  pub cost : Option F

pub record ComponentAllocation (F : Type 0) : Type 0 where
  pub name : String
  pub replicas : Option ℤ
  pub cost_per_replica_month : Option F
  pub cost_month : Option F

pub record PoolAllocation (F : Type 0) : Type 0 where
  pub pool : Pool
  pub window : ℤ
  pub window_text : String
  pub end : ℤ
  pub driver_kind : String
  pub unit : String
  pub fallback : Bool
  pub fallback_note : String
  pub rule_evaluation : String
  pub tenants : List (TenantShare F)
  pub unmeasured : List String
  pub total_raw : Option F
  pub total : Option F
  pub replication_factor : Option F
  pub replicas : Option ℤ
  pub cost_per_replica_month : Option F
  pub components : List (ComponentAllocation F)
  pub unpriced_components : List String
  pub pool_cost_month : Option F
  pub currency : String
  pub costed : Bool
  pub assumptions : List Assumption
  pub notes : List String

module _ {F : Type 0} ⦃f : Float F⦄ where
  -- `HasShares`
  unfoldable pub has_shares : PoolAllocation F → Bool
  has_shares a = elim a.total_raw [ none ↦ false | some t ↦ f.lt nought t ]

abbrev pub inventory_source : String
inventory_source = "promcost.yaml inventory"

abbrev pub assumption_replication_factor : String
assumption_replication_factor = "replication factor"
