-- ===== src/Cost/Total/Cross.antt =====
-- internal/cost/total.go: `AllocateAll` and `crossPool`. `totals` is a Go map of pointers; its order
-- here stands for the order of its ranges.
pub mod Pools
pub mod Universe
pub mod Sums
pub mod Whole
pub mod Missing
use obscost.Prelude.{
  String, Bool, true, false, not, ◌&&◌, ◌||◌, Option, none, some, List, [], ◌∷◌, ◌++◌, map,
  if◌then◌else◌, ◌==◌, string_comparable, is_empty, contains, select, str_lt, sprintf,
}
use obscost.Prelude.Sort.{sort_by}
use obscost.Prelude.Map.{Assoc}
use obscost.Float.{Float, nought}
use obscost.Cost.{
  PoolId, pool_query_path, pool_ruler_cpu, pool_order, rule_evaluation_remote, Inventory,
  Measurement, TenantShare, PoolAllocation, has_shares,
}
use obscost.Cost.Allocate.{allocate}
use obscost.Prelude.Names.{add_names}
use obscost.Cost.Total.{TenantTotal, CrossPool, Report, not_modelled_pools, adjust}

module _ {F : Type 0} ⦃f : Float F⦄ where
  -- what `*a.PoolCostMonth` is for a costed pool
  abbrev pub pool_cost : PoolAllocation F → F
  pool_cost a = elim a.pool_cost_month [ none ↦ nought | some c ↦ c ]

  -- the `switch` of the first loop
  pub is_priced : PoolAllocation F → Bool
  unfolding has_shares
  is_priced a = has_shares a && a.costed

  -- by whether there are shares, and whether there is a cost
  classify_as : Bool → Bool → CrossPool F → PoolAllocation F → CrossPool F
  classify_as false costed cp a = record cp { unmeasured = cp.unmeasured ++ a.pool.id ∷ [] }
  classify_as true true cp a = record cp {
    priced = cp.priced ++ a.pool.id ∷ [];
    priced_cost_month = f.add cp.priced_cost_month (pool_cost a);
    partially =
        cp.partially
        ++ (if is_empty a.unpriced_components
            then []
            else record { pool = a.pool.id; unpriced = a.unpriced_components } ∷ []);
  }
  classify_as true false cp a = record cp { unpriced = cp.unpriced ++ a.pool.id ∷ [] }

  pub classify : CrossPool F → PoolAllocation F → CrossPool F
  unfolding has_shares classify_as
  classify cp a = classify_as (has_shares a) a.costed cp a

  pub classify_all : CrossPool F → List (PoolAllocation F) → CrossPool F
  unfolding classify
  classify_all cp [] = cp
  classify_all cp (a ∷ as') = classify_all (classify cp a) as'

  pub empty_cross : Inventory F → CrossPool F
  empty_cross inv = record {
    priced = [];
    partially = [];
    unpriced = [];
    unmeasured = [];
    not_read = [];
    not_modelled = not_modelled_pools;
    currency = inv.currency;
    priced_cost_month = nought;
    platform_cost_month = inv.platform_cost_month;
    priced_fraction = none;
    tenants = [];
    notes = [];
  }

  any_remote : List (PoolAllocation F) → Bool
  any_remote [] = false
  any_remote (a ∷ as') = a.rule_evaluation == rule_evaluation_remote || any_remote as'

  abbrev pub ids : List (PoolAllocation F) → List PoolId
  ids = map (λ a. a.pool.id)

  remote_note : List (PoolAllocation F) → List String
  unfolding any_remote contains
  remote_note priced =
      if any_remote priced
        && contains pool_query_path (ids priced)
        && contains pool_ruler_cpu (ids priced)
      then "rules are evaluated remotely, so a tenant's rule queries drive its share of both the query path (the work) and the ruler (the time spent waiting for it). Each pool's cost is split once, so nothing is counted twice, but a rule-heavy tenant's total weighs the same queries in both"
        ∷ []
      else []

  -- the part on `inventory.platform_cost_month`
  pub add_fraction : CrossPool F → Option F → String → CrossPool F
  add_fraction cp none currency = cp
  add_fraction cp (some platform) currency =
      if f.le cp.priced_cost_month platform
      then record cp { priced_fraction = some (f.div cp.priced_cost_month platform) }
      else record cp {
        notes =
            cp.notes
            ++ sprintf (
                "the priced pools cost "
                ∷ f.format_money cp.priced_cost_month
                ∷ " "
                ∷ currency
                ∷ "/month, more than inventory.platform_cost_month ("
                ∷ f.format_money platform
                ∷ " "
                ∷ currency
                ∷ "), so no priced fraction is shown: one of the two figures is wrong"
                ∷ [])
              ∷ [];
      }

  abbrev pub tenant_names : PoolAllocation F → List String
  tenant_names a = map (λ t. t.tenant) a.tenants

  -- `universe`
  pub universe_of : List String → List (PoolAllocation F) → List String
  unfolding add_names
  universe_of ns [] = ns
  universe_of ns (a ∷ as') = universe_of (add_names ns (tenant_names a)) as'

  abbrev pub zero_total : String → String × TenantTotal F
  zero_total t = (
    t,
    record { tenant = t; cost_month = nought; share = nought; pools = []; not_measured_in = [] },
  )

  abbrev pub add_cost : PoolId → F → TenantTotal F → TenantTotal F
  add_cost id c tt' = record tt' {
    cost_month = f.add tt'.cost_month c;
    pools = tt'.pools ++ record { pool = id; cost_month = c } ∷ [];
  }

  pub charge_one :
      PoolId → TenantShare F → Assoc String (TenantTotal F) → Assoc String (TenantTotal F)
  unfolding adjust
  charge_one id t totals = elim t.cost [
    | none ↦ totals
    | some c ↦ adjust t.tenant (add_cost id c) totals
  ]

  -- the loop over one pool's tenants
  pub charge_pool :
      PoolId → List (TenantShare F) → Assoc String (TenantTotal F) → Assoc String (TenantTotal F)
  unfolding charge_one
  charge_pool id [] totals = totals
  charge_pool id (t ∷ ts) totals = charge_pool id ts (charge_one id t totals)

  -- the range over `totals` that marks who was not measured
  pub mark_missing :
      PoolId → List String → Assoc String (TenantTotal F) → Assoc String (TenantTotal F)
  unfolding contains
  mark_missing id measured [] = []
  mark_missing id measured ((t, tt') ∷ totals) =
      (
        t,
        if contains t measured
            then tt'
            else record tt' { not_measured_in = tt'.not_measured_in ++ id ∷ [] },
      )
      ∷ mark_missing id measured totals

  pub total_pools :
      List (PoolAllocation F) → Assoc String (TenantTotal F) → Assoc String (TenantTotal F)
  unfolding charge_pool mark_missing
  total_pools [] totals = totals
  total_pools (a ∷ as') totals =
      total_pools as'
        (mark_missing a.pool.id (tenant_names a) (charge_pool a.pool.id a.tenants totals))

  -- the last loop: tenants charged somewhere, with their share
  pub keep_charged : F → Assoc String (TenantTotal F) → List (TenantTotal F)
  keep_charged priced_cost [] = []
  keep_charged priced_cost ((t, tt') ∷ totals) =
      let rest = keep_charged priced_cost totals in
      if is_empty tt'.pools
      then rest
      else record tt' { share = f.div tt'.cost_month priced_cost } ∷ rest

  abbrev pub total_less : TenantTotal F → TenantTotal F → Bool
  total_less s t =
      if f.eq s.cost_month t.cost_month
      then str_lt s.tenant t.tenant
      else f.lt t.cost_month s.cost_month

  -- `crossPool` after its early return
  pub cross_priced : CrossPool F → List (PoolAllocation F) → Inventory F → List String → CrossPool F
  unfolding remote_note add_fraction universe_of add_names total_pools keep_charged sort_by
  cross_priced cp priced inv expected =
      let cp' =
        add_fraction (record cp { notes = cp.notes ++ remote_note priced }) cp.platform_cost_month
          inv.currency in
      let totals =
        total_pools priced (map zero_total (universe_of (add_names [] expected) priced)) in
      record cp' { tenants = sort_by total_less (keep_charged cp.priced_cost_month totals) }

  -- `crossPool`
  unfoldable pub cross_pool : List (PoolAllocation F) → Inventory F → List String → CrossPool F
  unfolding classify_all is_priced empty_cross cross_priced select
  cross_pool pools inv expected =
      let cp = classify_all (empty_cross inv) pools in
      let priced = select is_priced pools in
      if is_empty priced then cp else cross_priced cp priced inv expected

  allocate_each : List (Measurement F) → Inventory F → List String → List (PoolAllocation F)
  unfolding allocate
  allocate_each ms inv expected = map (λ m. allocate m inv expected) ms

  -- `AllocateAll`
  unfoldable pub allocate_all : List (Measurement F) → Inventory F → List String → Report F
  unfolding allocate_each cross_pool
  allocate_all ms inv expected =
      let pools = allocate_each ms inv expected in
      record {
        pools = pools;
        cross_pool = record (cross_pool pools inv expected) {
          not_read = select (λ id. not (contains id (ids pools))) pool_order;
        };
      }
