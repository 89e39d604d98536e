-- ===== src/Cost/Price/Priced.antt =====
-- What `priceFlat` and `priceComponents` charge for a pool, and what they leave alone.
use obscost.Prelude.{
  ℕ, zero, suc, String, Option, none, some, List, [], ◌∷◌, ◌≡◌, refl, ◌∙◌, inl, inr, Bool-cases,
  is_empty, string_comparable,
}
use obscost.Prelude.Map.{get}
use obscost.Prelude.Int.{ℤ}
use obscost.Float.{Float, nought}
use obscost.Cost.{Pool, ComponentInventory, PoolInventory, Inventory, TenantShare, PoolAllocation}
use obscost.Cost.Price.{
  priced_count, flat_price, price_flat, component_cost, supplied_step, component_step, price_loop,
  finish_components, price_components,
}

-- The fields that pricing does not touch.
pub record SplitView (F : Type 0) : Type 0 where
  pub pool : Pool
  pub tenants : List (TenantShare F)
  pub unmeasured : List String
  pub total_raw : Option F
  pub total : Option F
  pub driver_kind : String
  pub replication_factor : Option F
  pub rule_evaluation : String

abbrev pub split_view : {F : Type 0} → PoolAllocation F → SplitView F
split_view a = record {
  pool = a.pool;
  tenants = a.tenants;
  unmeasured = a.unmeasured;
  total_raw = a.total_raw;
  total = a.total;
  driver_kind = a.driver_kind;
  replication_factor = a.replication_factor;
  rule_evaluation = a.rule_evaluation;
}

module _ {F : Type 0} ⦃f : Float F⦄ where
  -- The cost of one component as the inventory prices it.
  unfoldable pub cost_of : PoolInventory F → String → Option F
  unfolding component_cost
  cost_of pinv name = elim (get name pinv.components) [ none ↦ none | some c ↦ component_cost c ]

  -- The costs of the components that are priced, in the order of the names.
  unfoldable pub costs_of : PoolInventory F → List String → List F
  unfolding cost_of
  costs_of pinv [] = []
  costs_of pinv (name ∷ names) =
      let rest = costs_of pinv names in elim (cost_of pinv name) [ none ↦ rest | some c ↦ c ∷ rest ]

  split_view-flat_price :
      (a : PoolAllocation F) (pool : Pool) (inv : Inventory F) (n : Option ℤ) (p : Option F)
      → split_view (flat_price a pool inv n p) ≡ split_view a
  unfolding flat_price
  split_view-flat_price a pool inv n none = refl
  split_view-flat_price a pool inv none (some p) = refl
  split_view-flat_price a pool inv (some n) (some p) = refl

  pub split_view-price_flat :
      (a : PoolAllocation F) (pool : Pool) (inv : Inventory F) (pinv : PoolInventory F)
      → split_view (price_flat a pool inv pinv) ≡ split_view a
  unfolding price_flat
  split_view-price_flat a pool inv pinv =
      split_view-flat_price _ pool inv pinv.replicas pinv.cost_per_replica_month

  split_view-component_step :
      (inv : Inventory F) (a : PoolAllocation F) (t : F) (name : String)
      (c : Option (ComponentInventory F))
      → split_view ((component_step inv a t name c).0) ≡ split_view a
  unfolding component_step
  split_view-component_step inv a t name none = refl
  split_view-component_step inv a t name (some c) = go (component_cost c)
    where
      go : (x : Option F) → split_view ((supplied_step inv a t name c x).0) ≡ split_view a
      go none = refl
      go (some x) = refl

  split_view-price_loop :
      (inv : Inventory F) (pinv : PoolInventory F) (a : PoolAllocation F) (t : F)
      (names : List String)
      → split_view ((price_loop inv pinv a t names).0) ≡ split_view a
  unfolding price_loop
  split_view-price_loop inv pinv a t [] = refl
  split_view-price_loop inv pinv a t (name ∷ names) =
      let s = component_step inv a t name (get name pinv.components) in
      split_view-price_loop inv pinv s.0 s.1 names
      ∙ split_view-component_step inv a t name (get name pinv.components)

  split_view-finish_components :
      (a : PoolAllocation F) (t : F) (pool : Pool) (n : ℕ)
      → split_view (finish_components a t pool n) ≡ split_view a
  unfolding finish_components
  split_view-finish_components a t pool zero = refl
  split_view-finish_components a t pool (suc n) =
      elim (Bool-cases (is_empty a.unpriced_components)) [
        | inl e ↦ rw e (refl)
        | inr e ↦ rw e (refl)
      ]

  pub split_view-price_components :
      (a : PoolAllocation F) (pool : Pool) (inv : Inventory F) (pinv : PoolInventory F)
      → split_view (price_components a pool inv pinv) ≡ split_view a
  unfolding price_components
  split_view-price_components a pool inv pinv =
      let s = price_loop inv pinv a nought pool.components in
      split_view-finish_components s.0 s.1 pool (priced_count s.0)
      ∙ split_view-price_loop inv pinv a nought pool.components
