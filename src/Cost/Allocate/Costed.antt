-- ===== src/Cost/Allocate/Costed.antt =====
-- Which pools of `Allocate` have shares, and which have a cost.
use obscost.Prelude.{
  String, Bool, true, false, Option, none, some, List, ◌≡◌, refl, sym, ap, ◌∙◌, if◌then◌else◌,
  Bool-cases, inl, inr, is_empty, is_some,
}
use obscost.Float.{Float, nought}
use obscost.Cost.{Pool, PoolInventory, Inventory, Measurement, has_shares}
use obscost.Cost.Allocate.{allocate, pool_inventory}
use obscost.Cost.Allocate.Parts.{raw_total, charge_view-allocate, allocate-total_raw}
use obscost.Cost.Price.Charged.{Charge, pool_charge}

module _ {F : Type 0} ⦃f : Float F⦄ where
  positive_cases :
      (o : Option F) (empty : Bool) (t : F)
      → o ≡ (if empty then none else some t)
      → elim o [ none ↦ false | some x ↦ f.lt nought x ] ≡ true
      → f.lt nought t ≡ true
  positive_cases none empty t e h = cc h
  positive_cases (some x) true t e h = cc e
  positive_cases (some x) false t e h = cc (e, h)

  pub shares→positive :
      (m : Measurement F) (inv : Inventory F) (expected : List String)
      → has_shares (allocate m inv expected) ≡ true
      → f.lt nought (raw_total m) ≡ true
  unfolding has_shares
  shares→positive m inv expected =
      positive_cases (allocate m inv expected).total_raw (is_empty m.drivers) (raw_total m)
        (allocate-total_raw m inv expected)

  costed-pool_charge :
      (pool : Pool) (pinv : PoolInventory F)
      → (pool_charge pool pinv).costed ≡ is_some (pool_charge pool pinv).pool_cost_month
  unfolding pool_charge
  costed-pool_charge pool pinv = elim (Bool-cases (is_empty pinv.components)) [
    | inl e ↦ rw e refl
    | inr e ↦ rw e refl
  ]

  pub allocate-costed :
      (m : Measurement F) (inv : Inventory F) (expected : List String)
      → (allocate m inv expected).costed ≡ is_some (allocate m inv expected).pool_cost_month
  allocate-costed m inv expected =
      let e = charge_view-allocate m inv expected in
      ap (λ (c : Charge F). c.costed) e
      ∙ costed-pool_charge m.pool (pool_inventory inv m.pool)
      ∙ sym (ap (λ (c : Charge F). is_some c.pool_cost_month) e)
