-- ===== src/Cost/Validate.antt =====
-- `Inventory.Validate` of internal/cost/cost.go. Each `fmt.Errorf` is a constructor with its
-- arguments; no error is `none`.
pub mod Defensible
pub mod Validity
use obscost.Prelude.{
  String, Bool, true, false, ◌&&◌, ◌||◌, not, Option, none, some, List, [], ◌∷◌, if◌then◌else◌,
  ◌==◌, string_comparable, is_some, is_empty, contains, str_lt,
}
use obscost.Prelude.Int.{ℤ, pos, ltb_ℤ}
use obscost.Prelude.Sort.{sort_by}
use obscost.Prelude.Map.{Assoc, keys, get}
use obscost.Float.{Float, nought}
use obscost.Cost.{
  PoolId, Pool, known_pools, rule_evaluation_local, rule_evaluation_remote, ComponentInventory,
  PoolInventory, Inventory,
}

-- What a price stands under: a pool, or a component of a pool.
pub data PricePath : Type 0 where
  at_pool : PoolId → PricePath
  at_component : PoolId → String → PricePath

pub data InventoryError (F : Type 0) : Type 0 where
  replication_factor_below_one : ℤ → InventoryError F
  bad_ruler_evaluation : String → InventoryError F
  platform_cost_not_positive : F → InventoryError F
  platform_cost_without_currency : InventoryError F
  unknown_pool : PoolId → InventoryError F
  single_component : PoolId → InventoryError F
  both_forms : PoolId → InventoryError F
  unknown_component : PoolId → String → InventoryError F
  replicas_below_one : PricePath → ℤ → InventoryError F
  price_not_positive : PricePath → F → InventoryError F
  price_without_currency : PricePath → InventoryError F

-- `if err := a; err != nil { return err }`, then `b`
infixr 20 ◌orelse◌
abbrev pub ◌orelse◌ {ℓ} : {E : Type ℓ} → Option E → Option E → Option E
none orelse b = b
some e orelse b = some e

-- A loop over names that returns the first error.
pub first_error {ℓ} : {E : Type ℓ} → (String → Option E) → List String → Option E
first_error check [] = none
first_error check (n ∷ names) = check n orelse first_error check names

module _ {F : Type 0} ⦃f : Float F⦄ where
  pub below_one : Option ℤ → (ℤ → InventoryError F) → Option (InventoryError F)
  below_one none err = none
  below_one (some n) err = if ltb_ℤ n (pos 1) then some (err n) else none

  pub not_defensible :
      Option F → String → (F → InventoryError F) → InventoryError F → Option (InventoryError F)
  not_defensible none currency err no_unit = none
  not_defensible (some p) currency err no_unit =
      if f.le p nought then some (err p) else if currency == "" then some no_unit else none

  -- `validatePrice`
  unfoldable pub validate_price :
      PricePath → Option ℤ → Option F → String → Option (InventoryError F)
  unfolding below_one not_defensible
  validate_price path replicas price currency =
      below_one replicas (replicas_below_one path)
      orelse not_defensible price currency (price_not_positive path) (price_without_currency path)

  validate_given :
      PoolId → String → String → Option (ComponentInventory F) → Option (InventoryError F)
  unfolding validate_price
  validate_given id name currency none = none
  validate_given id name currency (some c) =
      validate_price (at_component id name) c.replicas c.cost_per_replica_month currency

  -- the body of the loop over the names of one pool's components
  validate_component :
      PoolId
      → Pool
      → Assoc String (ComponentInventory F)
      → String
      → String
      → Option (InventoryError F)
  unfolding validate_given
  validate_component id pool cs currency name =
      if contains name pool.components
      then validate_given id name currency (get name cs)
      else some (unknown_component id name)

  -- what follows `validatePrice` in the body of the loop over pool ids
  validate_form : PoolId → Pool → PoolInventory F → String → Option (InventoryError F)
  unfolding validate_component sort_by first_error
  validate_form id pool p currency =
      if is_empty (keys p.components)
      then none
      else if is_empty pool.components
      then some (single_component id)
      else if is_some p.replicas || is_some p.cost_per_replica_month
      then some (both_forms id)
      else first_error (validate_component id pool p.components currency)
          (sort_by str_lt (keys p.components))

  validate_known : PoolId → PoolInventory F → String → Option Pool → Option (InventoryError F)
  unfolding validate_form validate_price
  validate_known id p currency none = some (unknown_pool id)
  validate_known id p currency (some pool) =
      validate_price (at_pool id) p.replicas p.cost_per_replica_month currency
      orelse validate_form id pool p currency

  -- the body of the loop over pool ids
  validate_pool : String → PoolId → Option (PoolInventory F) → Option (InventoryError F)
  unfolding validate_known
  validate_pool currency id none = none
  validate_pool currency id (some p) = validate_known id p currency (get id known_pools)

  pub check_evaluation : String → Option (InventoryError F)
  check_evaluation mode =
      if mode == "" || mode == rule_evaluation_local || mode == rule_evaluation_remote
      then none
      else some (bad_ruler_evaluation mode)

  -- `Inventory.Validate`
  unfoldable pub validate : Inventory F → Option (InventoryError F)
  unfolding below_one not_defensible check_evaluation validate_pool first_error sort_by
  validate inv =
      below_one inv.replication_factor replication_factor_below_one
      orelse check_evaluation inv.rule_evaluation
      orelse not_defensible inv.platform_cost_month inv.currency platform_cost_not_positive
          platform_cost_without_currency
      orelse first_error (λ id. validate_pool inv.currency id (get id inv.pools))
          (sort_by str_lt (keys inv.pools))
