-- ===== src/Cost/Total.antt =====
-- internal/cost/total.go: what `AllocateAll` returns, and the maps and sets that `crossPool` keeps.
pub mod Cross
use obscost.Prelude.{
  String, Option, none, some, List, [], ◌∷◌, ◌++◌, if◌then◌else◌, ◌==◌, string_comparable, contains,
}
use obscost.Prelude.Map.{Assoc, get}
use obscost.Cost.{PoolId, Pool, known_pools, PoolAllocation}

pub record PartialPool : Type 0 where
  pub pool : PoolId
  pub unpriced : List String

pub record PoolCost (F : Type 0) : Type 0 where
  pub pool : PoolId
  pub cost_month : F

pub record TenantTotal (F : Type 0) : Type 0 where
  pub tenant : String
  pub cost_month : F
  pub share : F
  pub pools : List (PoolCost F)
  pub not_measured_in : List PoolId

pub record CrossPool (F : Type 0) : Type 0 where
  pub priced : List PoolId
  pub partially : List PartialPool
  pub unpriced : List PoolId
  pub unmeasured : List PoolId
  pub not_read : List PoolId
  pub not_modelled : List String
  pub currency : String
  pub priced_cost_month : F
  pub platform_cost_month : Option F
  pub priced_fraction : Option F
  pub tenants : List (TenantTotal F)
  pub notes : List String

pub record Report (F : Type 0) : Type 0 where
  pub pools : List (PoolAllocation F)
  pub cross_pool : CrossPool F

abbrev pub not_modelled_pools : List String
not_modelled_pools = "ingester write path" ∷ "object storage" ∷ "store-gateway" ∷ "compactor" ∷ []

-- `KnownPool`
pub known_pool : PoolId → Option Pool
known_pool id = get id known_pools

-- `totals[k]` changed through its pointer
unfoldable pub adjust {ℓ} : {V : Type ℓ} → String → (V → V) → Assoc String V → Assoc String V
adjust k g [] = []
adjust k g ((j, v) ∷ m) = let rest = adjust k g m in if k == j then (j, g v) ∷ m else (j, v) ∷ rest

module _ {F : Type 0} where
  -- `Report.Pool`
  pub find_pool : PoolId → List (PoolAllocation F) → Option (PoolAllocation F)
  find_pool id [] = none
  find_pool id (a ∷ as') = if a.pool.id == id then some a else find_pool id as'
