-- ===== src/Cost/Allocate/Tenants.antt =====
-- `Allocate` lists every measured tenant once, in a fixed order.
use mathlib.Core.Path.{fun_ext}
use mathlib.Core.List.{map-map, Perm, map-id}
use mathlib.Core.List.Perm
use obscost.Prelude.{String, Bool, Option, List, map, ◌≡◌, arith}
use obscost.Prelude.Int.{ℤ}
use obscost.Prelude.Order.{IsStrict}
use obscost.Prelude.Sort.{sort_by, sort_by-perm, IsSorted, sort_by-IsSorted, IsSorted-map}
use obscost.Float.{Float, IsOrdered}
use obscost.Float.Ranking.{ranked_before, ranked-IsStrict}
use obscost.Cost.{Inventory, Measurement, TenantShare}
use obscost.Cost.Allocate.{fill, fresh, share_less, allocate}
use obscost.Cost.Allocate.Parts.{divisor, raw_total, tenant_line, allocate-tenants}

module _ {F : Type 0} ⦃f : Float F⦄ where
  tenant_line_keeps :
      (rf : Option F) (total : F) (n : Option ℤ) (c : Option F) (t : TenantShare F)
      → let u = tenant_line rf total n c t in (u.tenant ≡ t.tenant) × (u.driver_raw ≡ t.driver_raw)
  unfolding tenant_line fill
  tenant_line_keeps rf total n c t = ground arith

  module _ (ordered : IsOrdered F) where
    pub share_less-IsStrict : IsStrict (share_less {F = F})
    share_less-IsStrict = ranked-IsStrict ordered (λ t. t.driver_raw) (λ t. t.tenant)

    -- The tenants are sorted by raw driver, largest first, and by name among equals.
    tenants-IsSorted :
        (m : Measurement F) (inv : Inventory F) (expected : List String)
        → IsSorted share_less (allocate m inv expected).tenants
    tenants-IsSorted m inv expected =
        let a = allocate m inv expected in
        let line = tenant_line (divisor m inv) (raw_total m) a.replicas a.pool_cost_month in
        let keeps = tenant_line_keeps (divisor m inv) (raw_total m) a.replicas a.pool_cost_month in
        rw (allocate-tenants m inv expected) (
          IsSorted-map line share_less share_less
            (λ s t. cc ((keeps s).0, (keeps s).1, (keeps t).0, (keeps t).1))
            (sort_by share_less (map fresh m.drivers))
            (sort_by-IsSorted share_less share_less-IsStrict (map fresh m.drivers)))

  abbrev pub driver_pair : TenantShare F → String × F
  driver_pair t = (t.tenant, t.driver_raw)

  driver_pair-line :
      (rf : Option F) (total : F) (n : Option ℤ) (c : Option F)
      → (λ t. driver_pair (tenant_line rf total n c t)) ≡ driver_pair
  driver_pair-line rf total n c =
      fun_ext λ t. let keeps = tenant_line_keeps rf total n c t in cc (keeps.0, keeps.1)

  -- Every measured tenant has one line with its driver, and no other line is there.
  tenants-perm :
      (m : Measurement F) (inv : Inventory F) (expected : List String)
      → Perm (map driver_pair (allocate m inv expected).tenants) m.drivers
  tenants-perm m inv expected =
      let a = allocate m inv expected in
      let line = tenant_line (divisor m inv) (raw_total m) a.replicas a.pool_cost_month in
      rw
        (
          allocate-tenants m inv expected,
          map-map driver_pair line (sort_by share_less (map fresh m.drivers)),
          driver_pair-line (divisor m inv) (raw_total m) a.replicas a.pool_cost_month,
        )
        (Perm.trans (Perm.map driver_pair (sort_by-perm share_less (map fresh m.drivers)))
          (rw (map-map driver_pair fresh m.drivers, map-id m.drivers) Perm.rfl))

  -- A line with a larger raw driver comes first, and lines with the same come in the order of the names.
  abbrev pub larger_first : TenantShare F → TenantShare F → Bool
  larger_first = ranked_before (λ t. t.driver_raw) (λ t. t.tenant)

  -- Where no driver is NaN (the comparisons are those of ordered numbers): every measured tenant has one
  -- line with its driver, no other line is there, and of two lines the one with the larger raw driver
  -- comes first, or the one with the smaller name if the drivers are equal.
  pub tenants_lem :
      IsOrdered F
      → (m : Measurement F) (inv : Inventory F) (expected : List String)
      → Perm (map driver_pair (allocate m inv expected).tenants) m.drivers
        × IsSorted larger_first (allocate m inv expected).tenants
  tenants_lem ordered m inv expected =
      (tenants-perm m inv expected, tenants-IsSorted ordered m inv expected)
