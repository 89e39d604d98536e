-- ===== src/Cost/Price.antt =====
-- `priceFlat` and `priceComponents` of internal/cost/cost.go. An allocation that the Go code changes
-- through a pointer is passed in and returned.
pub mod Priced
pub mod Charged
use obscost.Prelude.{
  ℕ, zero, suc, String, Bool, true, Option, none, some, List, [], ◌∷◌, ◌++◌, if◌then◌else◌, is_some,
  is_empty, length, select, sprintf, join, show_nat, show_int, string_comparable,
}
use obscost.Prelude.Int.{ℤ}
use obscost.Prelude.Map.{Assoc, get}
use obscost.Float.{Float, nought}
use obscost.Cost.{
  Pool, ComponentInventory, PoolInventory, Inventory, Assumption, ComponentAllocation,
  PoolAllocation, inventory_source,
}

abbrev pub assume : String → String → String → Assumption
assume name value source = record { name = name; value = value; source = source }

flat_replicas : Option ℤ → String
flat_replicas none = "not supplied — shares only, no replica equivalents"
flat_replicas (some n) = show_int n

module _ {F : Type 0} ⦃f : Float F⦄ where
  abbrev pub with_assumption : PoolAllocation F → Assumption → PoolAllocation F
  with_assumption a x = record a { assumptions = a.assumptions ++ x ∷ [] }

  abbrev pub with_note : PoolAllocation F → String → PoolAllocation F
  with_note a n = record a { notes = a.notes ++ n ∷ [] }

  -- "P CUR per NOUN-month × N = C CUR/month"
  price_text : F → String → String → ℤ → F → String
  price_text price currency noun n cost = sprintf (
      f.format_money price
      ∷ " "
      ∷ currency
      ∷ " per "
      ∷ noun
      ∷ "-month × "
      ∷ show_int n
      ∷ " = "
      ∷ f.format_money cost
      ∷ " "
      ∷ currency
      ∷ "/month"
      ∷ [])

  -- the `switch` of `priceFlat`
  flat_price : PoolAllocation F → Pool → Inventory F → Option ℤ → Option F → PoolAllocation F
  flat_price a pool inv replicas none =
      with_assumption a (assume "price" "not supplied — pool not costed" inventory_source)
  flat_price a pool inv none (some price) =
      with_note
        (with_assumption a (
          assume "price"
            (sprintf (
              f.format_money price
              ∷ " "
              ∷ inv.currency
              ∷ " per "
              ∷ pool.replica_noun
              ∷ "-month"
              ∷ []))
            inventory_source))
        (sprintf (
          "a price per " ∷ pool.replica_noun
          ∷ " was supplied without a replica count, so the pool's total cost is unknown and it is not costed"
          ∷ []))
  flat_price a pool inv (some n) (some price) =
      let pool_cost = f.mul (f.of_int n) price in
      with_assumption (record a { pool_cost_month = some pool_cost; costed = true })
        (assume "price" (price_text price inv.currency pool.replica_noun n pool_cost)
          inventory_source)

  -- `priceFlat`
  unfoldable pub price_flat :
      PoolAllocation F → Pool → Inventory F → PoolInventory F → PoolAllocation F
  unfolding flat_replicas flat_price price_text
  price_flat a pool inv pinv =
      let a' = record a {
        replicas = pinv.replicas;
        cost_per_replica_month = pinv.cost_per_replica_month;
      } in
      flat_price
        (with_assumption a' (
          assume (sprintf (pool.replica_noun ∷ " replicas" ∷ [])) (flat_replicas pinv.replicas)
            inventory_source))
        pool inv pinv.replicas pinv.cost_per_replica_month

  -- the cost of a component that has both a count and a price
  unfoldable pub component_cost : ComponentInventory F → Option F
  component_cost c = elim c.replicas [
    | none ↦ none
    | some n ↦ elim c.cost_per_replica_month [ none ↦ none | some p ↦ some (f.mul (f.of_int n) p) ]
  ]

  abbrev leave_out : PoolAllocation F → String → String → PoolAllocation F
  leave_out a name value =
      with_assumption (record a { unpriced_components = a.unpriced_components ++ name ∷ [] })
        (assume (sprintf (name ∷ " price" ∷ [])) value inventory_source)

  abbrev add_component :
      PoolAllocation F → String → ComponentInventory F → Option F → PoolAllocation F
  add_component a name c cost = record a {
    components =
        a.components
        ++ record {
          name = name;
          replicas = c.replicas;
          cost_per_replica_month = c.cost_per_replica_month;
          cost_month = cost;
        }
          ∷ [];
  }

  missing_text : ComponentInventory F → String
  missing_text c = sprintf (
      "no "
      ∷ (if is_some c.replicas then "price" else "replica count")
      ∷ " supplied — component not priced"
      ∷ [])

  priced_text : String → ComponentInventory F → String → F → String
  unfolding price_text
  priced_text name c currency cost = elim c.replicas [
    | none ↦ ""
    | some n ↦ elim c.cost_per_replica_month [
      | none ↦ ""
      | some p ↦ price_text p currency name n cost
    ]
  ]

  -- the `switch` of the loop of `priceComponents`
  supplied_step :
      Inventory F
      → PoolAllocation F
      → F
      → String
      → ComponentInventory F
      → Option F
      → PoolAllocation F × F
  unfolding missing_text priced_text
  supplied_step inv a total name c none =
      (add_component (leave_out a name (missing_text c)) name c none, total)
  supplied_step inv a total name c (some cost) = (
    add_component
        (with_assumption a (
          assume (sprintf (name ∷ " price" ∷ [])) (priced_text name c inv.currency cost)
            inventory_source))
        name c (some cost),
    f.add total cost,
  )

  -- one round of the loop: the allocation and `total`
  component_step :
      Inventory F
      → PoolAllocation F
      → F
      → String
      → Option (ComponentInventory F)
      → PoolAllocation F × F
  unfolding component_cost supplied_step
  component_step inv a total name none =
      (leave_out a name "not supplied — component not priced", total)
  component_step inv a total name (some c) = supplied_step inv a total name c (component_cost c)

  price_loop :
      Inventory F → PoolInventory F → PoolAllocation F → F → List String → PoolAllocation F × F
  unfolding component_step
  price_loop inv pinv a total [] = (a, total)
  price_loop inv pinv a total (name ∷ names) =
      let s = component_step inv a total name (get name pinv.components) in
      price_loop inv pinv s.0 s.1 names

  abbrev pub priced_count : PoolAllocation F → ℕ
  priced_count a = length (select (λ c. is_some c.cost_month) a.components)

  partial_note : PoolAllocation F → Pool → PoolAllocation F
  partial_note a pool =
      if is_empty a.unpriced_components
      then a
      else with_note a (
          sprintf (
            "the pool is priced from "
            ∷ show_nat (priced_count a)
            ∷ " of its "
            ∷ show_nat (length pool.components)
            ∷ " components; "
            ∷ join ", " a.unpriced_components
            ∷ " not priced, so the pool cost and every tenant's cost from it are lower bounds. Shares are unaffected"
            ∷ []))

  -- what follows the loop
  finish_components : PoolAllocation F → F → Pool → ℕ → PoolAllocation F
  unfolding partial_note
  finish_components a total pool zero = a
  finish_components a total pool (suc _) =
      partial_note (record a { pool_cost_month = some total; costed = true }) pool

  -- `priceComponents`
  unfoldable pub price_components :
      PoolAllocation F → Pool → Inventory F → PoolInventory F → PoolAllocation F
  unfolding price_loop finish_components
  price_components a pool inv pinv =
      let s = price_loop inv pinv a nought pool.components in
      finish_components s.0 s.1 pool (priced_count s.0)
