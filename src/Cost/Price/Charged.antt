-- ===== src/Cost/Price/Charged.antt =====
-- What `priceFlat` and `priceComponents` charge: the product of count and price, or the sum of the
-- products over the components that have both.
pub mod Loop
use obscost.Prelude.{
  String, Bool, not, Option, none, some, List, [], ◌∷◌, ◌≡◌, refl, ap, Option-cases, inl, inr,
  is_some, is_empty, select, if◌then◌else◌, string_comparable,
}
use obscost.Prelude.Int.{ℤ}
use obscost.Prelude.Map.{get}
use obscost.Float.{Float, total_of}
use obscost.Cost.{Pool, ComponentInventory, PoolInventory, Inventory, PoolAllocation}
use obscost.Cost.Price.{flat_price, price_flat, component_cost}

pub record Charge (F : Type 0) : Type 0 where
  pub costed : Bool
  pub pool_cost_month : Option F
  pub unpriced_components : List String
  pub replicas : Option ℤ

abbrev pub charge_view : {F : Type 0} → PoolAllocation F → Charge F
charge_view a = record {
  costed = a.costed;
  pool_cost_month = a.pool_cost_month;
  unpriced_components = a.unpriced_components;
  replicas = a.replicas;
}

module _ {F : Type 0} ⦃f : Float F⦄ where
  abbrev pub charged : Option F → List String → Option ℤ → Charge F
  charged cost left_out replicas = record {
    costed = is_some cost;
    pool_cost_month = cost;
    unpriced_components = left_out;
    replicas = replicas;
  }

  -- A count times a price, if both are known.
  abbrev pub flat_cost : Option ℤ → Option F → Option F
  flat_cost none p = none
  flat_cost (some n) none = none
  flat_cost (some n) (some p) = some (f.mul (f.of_int n) p)

  -- The cost of one component, if the inventory has both its count and its price.
  cost_case : Option (ComponentInventory F) → Option F
  cost_case none = none
  cost_case (some c) = flat_cost c.replicas c.cost_per_replica_month

  pub component_cost_lem :
      (c : ComponentInventory F) → component_cost c ≡ flat_cost c.replicas c.cost_per_replica_month
  unfolding component_cost
  component_cost_lem c = elim (Option-cases c.replicas) [
    | inl e ↦ rw e refl
    | inr (n, e) ↦ elim (Option-cases c.cost_per_replica_month) [
      | inl k ↦ rw (e, k) refl
      | inr (x, k) ↦ rw (e, k) refl
    ]
  ]

  unfoldable pub cost_of : PoolInventory F → String → Option F
  unfolding cost_case
  cost_of pinv name = cost_case (get name pinv.components)

  -- The costs of the priced components, in the order of the names.
  unfoldable pub costs_of : PoolInventory F → List String → List F
  unfolding cost_of
  costs_of pinv [] = []
  costs_of pinv (name ∷ names) =
      let rest = costs_of pinv names in elim (cost_of pinv name) [ none ↦ rest | some c ↦ c ∷ rest ]

  abbrev pub unpriced_of : PoolInventory F → List String → List String
  unpriced_of pinv = select (λ name. not (is_some (cost_of pinv name)))

  abbrev some_total : List F → Option F
  some_total cs = if is_empty cs then none else some (total_of cs)

  -- What the inventory makes a pool cost: nothing is known (`none`) unless a count and a price are.
  unfoldable pub pool_charge : Pool → PoolInventory F → Charge F
  unfolding costs_of
  pool_charge pool pinv =
      if is_empty pinv.components
      then charged (flat_cost pinv.replicas pinv.cost_per_replica_month) [] pinv.replicas
      else charged (some_total (costs_of pinv pool.components)) (unpriced_of pinv pool.components)
          none

  -- The charge of a pool by its entry in the inventory, if it has one.
  abbrev pub entry_charge : Pool → Option (PoolInventory F) → Charge F
  entry_charge pool none = charged none [] none
  entry_charge pool (some pinv) = pool_charge pool pinv

  flat_price-charge :
      (a : PoolAllocation F) (pool : Pool) (inv : Inventory F) (n : Option ℤ) (p : Option F)
      → charge_view a ≡ charged none [] n
      → charge_view (flat_price a pool inv n p) ≡ charged (flat_cost n p) [] n
  unfolding flat_price
  flat_price-charge a pool inv none none h = h
  flat_price-charge a pool inv (some n) none h = h
  flat_price-charge a pool inv none (some p) h = h
  flat_price-charge a pool inv (some n) (some p) h =
      cc (ap (λ (c : Charge F). c.unpriced_components) h, ap (λ (c : Charge F). c.replicas) h)

  pub price_flat-charge :
      (a : PoolAllocation F) (pool : Pool) (inv : Inventory F) (pinv : PoolInventory F)
      → charge_view a ≡ charged none [] none
      → charge_view (price_flat a pool inv pinv)
        ≡ charged (flat_cost pinv.replicas pinv.cost_per_replica_month) [] pinv.replicas
  unfolding price_flat
  price_flat-charge a pool inv pinv h =
      flat_price-charge _ pool inv pinv.replicas pinv.cost_per_replica_month
        (ap (λ (c : Charge F). record c { replicas = pinv.replicas }) h)
