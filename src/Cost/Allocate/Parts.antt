-- ===== src/Cost/Allocate/Parts.antt =====
-- The fields of an allocation, one by one, without the trail.
use mathlib.Core.Path.{fun_ext}
use obscost.Prelude.{
  String, true, false, Option, none, some, List, [], map, ◌≡◌, refl, ap, ◌∙◌, if◌then◌else◌, select,
  is_empty, Bool-cases, inl, inr, string_comparable,
}
use obscost.Prelude.Int.{ℤ}
use obscost.Prelude.Map.{get}
use obscost.Prelude.Sort.{sort_by}
use obscost.Float.{Float, nought, total_of}
use obscost.Cost.{Pool, PoolInventory, Inventory, Measurement, TenantShare, PoolAllocation}
use obscost.Cost.Factor.{divide_by}
use obscost.Cost.Price.{priced_count}
use obscost.Cost.Price.Priced.{
  SplitView, split_view, split_view-price_flat, split_view-price_components,
}
use obscost.Cost.Price.Charged.{
  Charge, charge_view, charged, pool_charge, entry_charge, price_flat-charge,
}
use obscost.Cost.Price.Charged.Loop.{price_components-charge}
use obscost.Cost.Allocate.{
  begin, apply_factor, with_drivers, pool_inventory, price, split, with_driver, fill, fresh,
  share_less, values, unmeasured_of, allocate,
}

module _ {F : Type 0} ⦃f : Float F⦄ where
  -- The divisor of absolute figures, if one is known.
  unfoldable pub divisor : Measurement F → Inventory F → Option F
  unfolding apply_factor begin
  divisor m inv = (apply_factor m inv (begin m inv)).0

  abbrev pub raw_total : Measurement F → F
  raw_total m = total_of (values m.drivers)

  before_price : Measurement F → Inventory F → List String → PoolAllocation F
  unfolding with_drivers
  before_price m inv expected =
      with_drivers (apply_factor m inv (begin m inv)).1 m (divisor m inv) expected

  priced : Measurement F → Inventory F → List String → PoolAllocation F
  unfolding price before_price
  priced m inv expected = price (before_price m inv expected) m.pool inv

  -- What the last loop makes of one tenant.
  unfoldable pub tenant_line : Option F → F → Option ℤ → Option F → TenantShare F → TenantShare F
  unfolding fill
  tenant_line rf total replicas pool_cost t =
      if f.le total nought then with_driver rf t else fill rf total replicas pool_cost t

  split_view-price :
      (a : PoolAllocation F) (pool : Pool) (inv : Inventory F)
      → split_view (price a pool inv) ≡ split_view a
  unfolding price
  split_view-price a pool inv =
      let pinv = pool_inventory inv pool in
      elim (Bool-cases (is_empty pinv.components)) [
        | inl e ↦ rw e (split_view-price_flat a pool inv pinv)
        | inr e ↦ rw e (split_view-price_components a pool inv pinv)
      ]

  pub tenant_line-zero :
      (rf : Option F) (total : F) (n : Option ℤ) (c : Option F)
      → f.le total nought ≡ true
      → tenant_line rf total n c ≡ with_driver rf
  unfolding tenant_line
  tenant_line-zero rf total n c e = fun_ext λ t. rw e

  pub tenant_line-fill :
      (rf : Option F) (total : F) (n : Option ℤ) (c : Option F)
      → f.le total nought ≡ false
      → tenant_line rf total n c ≡ fill rf total n c
  unfolding tenant_line
  tenant_line-fill rf total n c e = fun_ext λ t. rw e

  tenants-split :
      (a : PoolAllocation F) (rf : Option F) (total : F)
      → (split a rf total).tenants
        ≡ map (tenant_line rf total a.replicas a.pool_cost_month) a.tenants
  unfolding split
  tenants-split a rf total = elim (Bool-cases (f.le total nought)) [
    | inl e ↦ rw (e, tenant_line-zero rf total a.replicas a.pool_cost_month e)
    | inr e ↦ rw (e, tenant_line-fill rf total a.replicas a.pool_cost_month e)
  ]

  -- The fields that the last loop leaves alone.
  record Kept (a b : PoolAllocation F) : Type 0 where
    charge : charge_view a ≡ charge_view b
    replicas : a.replicas ≡ b.replicas
    unmeasured : a.unmeasured ≡ b.unmeasured
    total_raw : a.total_raw ≡ b.total_raw
    total : a.total ≡ b.total
    pool : a.pool ≡ b.pool
    replication_factor : a.replication_factor ≡ b.replication_factor
    rule_evaluation : a.rule_evaluation ≡ b.rule_evaluation

  Kept-refl :
      (a : PoolAllocation F) (ts : List (TenantShare F)) (ns : List String)
      → Kept (record a { tenants = ts; notes = ns }) a
  Kept-refl a ts ns = record {
    charge = refl;
    replicas = refl;
    unmeasured = refl;
    total_raw = refl;
    total = refl;
    pool = refl;
    replication_factor = refl;
    rule_evaluation = refl;
  }

  Kept-split : (a : PoolAllocation F) (rf : Option F) (total : F) → Kept (split a rf total) a
  unfolding split
  Kept-split a rf total = elim (Bool-cases (f.le total nought)) [
    | inl e ↦ rw e (Kept-refl a _ _)
    | inr e ↦ rw e (Kept-refl a _ a.notes)
  ]

  Kept-allocate :
      (m : Measurement F) (inv : Inventory F) (expected : List String)
      → Kept (allocate m inv expected) (priced m inv expected)
  unfolding allocate priced before_price divisor
  Kept-allocate m inv expected = Kept-split _ (divisor m inv) (raw_total m)

  split_view-priced :
      (m : Measurement F) (inv : Inventory F) (expected : List String)
      → split_view (priced m inv expected) ≡ split_view (before_price m inv expected)
  unfolding priced
  split_view-priced m inv expected = split_view-price _ m.pool inv

  tenants-allocate :
      (m : Measurement F) (inv : Inventory F) (expected : List String)
      → let p = priced m inv expected in
        (allocate m inv expected).tenants
        ≡ map (tenant_line (divisor m inv) (raw_total m) p.replicas p.pool_cost_month) p.tenants
  unfolding allocate priced before_price divisor
  tenants-allocate m inv expected = tenants-split _ (divisor m inv) (raw_total m)

  tenants-before :
      (m : Measurement F) (inv : Inventory F) (expected : List String)
      → (before_price m inv expected).tenants ≡ sort_by share_less (map fresh m.drivers)
  unfolding before_price with_drivers
  tenants-before m inv expected = refl

  -- The tenants of an allocation: every driver, sorted, with its figures.
  pub allocate-tenants :
      (m : Measurement F) (inv : Inventory F) (expected : List String)
      → let a = allocate m inv expected in
        a.tenants
        ≡ map
            (tenant_line (divisor m inv) (raw_total m) a.replicas a.pool_cost_month)
            (sort_by share_less (map fresh m.drivers))
  allocate-tenants m inv expected =
      let kept = Kept-allocate m inv expected in
      let p = priced m inv expected in
      let line = tenant_line (divisor m inv) (raw_total m) in
      tenants-allocate m inv expected
      ∙ ap (map (line p.replicas p.pool_cost_month)) (
          ap (λ (v : SplitView F). v.tenants) (split_view-priced m inv expected)
          ∙ tenants-before m inv expected)
      ∙ cc (kept.replicas, ap (λ (c : Charge F). c.pool_cost_month) kept.charge)

  uncharged-factor :
      (m : Measurement F) (inv : Inventory F) (a : PoolAllocation F)
      → charge_view a ≡ charged none [] none
      → priced_count a ≡ 0
      → (charge_view (apply_factor m inv a).1 ≡ charged none [] none)
        × (priced_count (apply_factor m inv a).1 ≡ 0)
  unfolding apply_factor
  uncharged-factor m inv a h z = elim (Bool-cases m.unreplicated) [
    | inl e ↦ rw e (h, z)
    | inr e ↦ rw e (h, z)
  ]

  charge-price :
      (a : PoolAllocation F) (pool : Pool) (inv : Inventory F)
      → charge_view a ≡ charged none [] none
      → priced_count a ≡ 0
      → charge_view (price a pool inv) ≡ pool_charge pool (pool_inventory inv pool)
  unfolding price pool_charge
  charge-price a pool inv h z =
      let pinv = pool_inventory inv pool in
      elim (Bool-cases (is_empty pinv.components)) [
        | inl e ↦ rw e (price_flat-charge a pool inv pinv h)
        | inr e ↦ rw e (price_components-charge a pool inv pinv h z)
      ]

  pub charge_view-allocate :
      (m : Measurement F) (inv : Inventory F) (expected : List String)
      → charge_view (allocate m inv expected) ≡ pool_charge m.pool (pool_inventory inv m.pool)
  unfolding priced before_price
  charge_view-allocate m inv expected =
      let (h, z) =
        uncharged-factor m inv (begin m inv) (unfold begin in refl) (unfold begin select in refl) in
      (Kept-allocate m inv expected).charge
      ∙ charge-price _ m.pool inv (unfold with_drivers in h) (unfold with_drivers in z)

  pool_charge-entry :
      (pool : Pool) (o : Option (PoolInventory F))
      → pool_charge pool (elim o [
        | none ↦ record { replicas = none; cost_per_replica_month = none; components = [] }
        | some p ↦ p
      ])
        ≡ entry_charge pool o
  unfolding pool_charge
  pool_charge-entry pool none = refl
  pool_charge-entry pool (some pinv) = refl

  -- In any arithmetic: a pool that the inventory does not have gets no cost and no count. One that is filled
  -- in directly costs its count times its price, if both are given, and reports this count; one that is
  -- filled in by components costs the sum, in the pool's order, of count times price over its components
  -- that have both, reports no count, and lists the others. It is costed exactly if it has a cost.
  pub allocate-charge :
      (m : Measurement F) (inv : Inventory F) (expected : List String)
      → charge_view (allocate m inv expected) ≡ entry_charge m.pool (get m.pool.id inv.pools)
  allocate-charge m inv expected =
      charge_view-allocate m inv expected
      ∙ (unfold pool_inventory in pool_charge-entry m.pool (get m.pool.id inv.pools))

  pub allocate-unmeasured :
      (m : Measurement F) (inv : Inventory F) (expected : List String)
      → (allocate m inv expected).unmeasured ≡ unmeasured_of m.drivers expected
  allocate-unmeasured m inv expected =
      (Kept-allocate m inv expected).unmeasured
      ∙ ap (λ (v : SplitView F). v.unmeasured) (split_view-priced m inv expected)
      ∙ (unfold before_price with_drivers in refl)

  pub allocate-total_raw :
      (m : Measurement F) (inv : Inventory F) (expected : List String)
      → (allocate m inv expected).total_raw
        ≡ (if is_empty m.drivers then none else some (raw_total m))
  allocate-total_raw m inv expected =
      (Kept-allocate m inv expected).total_raw
      ∙ ap (λ (v : SplitView F). v.total_raw) (split_view-priced m inv expected)
      ∙ (unfold before_price with_drivers in refl)

  pub allocate-total :
      (m : Measurement F) (inv : Inventory F) (expected : List String)
      → (allocate m inv expected).total
        ≡ (if is_empty m.drivers then none else divide_by (raw_total m) (divisor m inv))
  allocate-total m inv expected =
      (Kept-allocate m inv expected).total
      ∙ ap (λ (v : SplitView F). v.total) (split_view-priced m inv expected)
      ∙ (unfold before_price with_drivers in refl)

  factor-replication_factor :
      (m : Measurement F) (inv : Inventory F) (a : PoolAllocation F)
      → a.replication_factor ≡ none
      → (apply_factor m inv a).1.replication_factor
        ≡ (if m.unreplicated then none else (apply_factor m inv a).0)
  unfolding apply_factor
  factor-replication_factor m inv a h = elim (Bool-cases m.unreplicated) [
    | inl e ↦ rw e h
    | inr e ↦ rw e
  ]

  pub allocate-replication_factor :
      (m : Measurement F) (inv : Inventory F) (expected : List String)
      → (allocate m inv expected).replication_factor
        ≡ (if m.unreplicated then none else divisor m inv)
  unfolding divisor
  allocate-replication_factor m inv expected =
      (Kept-allocate m inv expected).replication_factor
      ∙ ap (λ (v : SplitView F). v.replication_factor) (split_view-priced m inv expected)
      ∙ (unfold before_price with_drivers divisor in
          factor-replication_factor m inv (begin m inv) (unfold begin in refl))
