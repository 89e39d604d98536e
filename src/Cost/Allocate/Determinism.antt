-- ===== src/Cost/Allocate/Determinism.antt =====
-- A Go map is ranged over in any order; an allocation does not show which.
use mathlib.Core.List.{Permᴰ}
use obscost.Prelude.{String, Bool, List, map, ◌≡◌, sym, ap, ◌∙◌, arith, str_lt_total}
use obscost.Prelude.Map.{Assoc}
use obscost.Prelude.Order.{IsStrict, IsTotal}
use obscost.Prelude.Sort.{sort_by, sort_by_unique, map-sort_by}
use obscost.Float.{Float, total_of, IsLinear}
use obscost.Cost.{Inventory, Measurement}
use obscost.Cost.Price.Charged.{Charge, charge_view}
use obscost.Cost.Allocate.{fresh, share_less, allocate}
use obscost.Cost.Allocate.Parts.{divisor, allocate-tenants, charge_view-allocate}
use obscost.Cost.Allocate.Tenants.{share_less-IsStrict}
use obscost.Cost.Allocate.Shares.{total-values}

module _ {F : Type 0} ⦃f : Float F⦄ where
  abbrev pair_less : String × F → String × F → Bool
  pair_less a b = share_less (fresh a) (fresh b)

  module _ (linear : IsLinear F) where
    pair_less-IsStrict : IsStrict pair_less
    pair_less-IsStrict = record {
      asym = λ a b. (share_less-IsStrict linear.ordered).asym (fresh a) (fresh b);
      le_trans =
          λ a b c. (share_less-IsStrict linear.ordered).le_trans (fresh a) (fresh b) (fresh c);
    }

    pair_less-IsTotal : IsTotal pair_less
    pair_less-IsTotal (s, x) (t, y) h k = ground (
      arith,
      linear.eq_of_not_lt x y,
      linear.eq-not_lt x y,
      linear.eq-not_lt y x,
      linear.lt_asym x y,
      str_lt_total s t,
    )

    sorted-perm :
        {xs ys : Assoc String F}
        → Permᴰ xs ys
        → sort_by share_less (map fresh xs) ≡ sort_by share_less (map fresh ys)
    sorted-perm {xs} {ys} p =
        sym (map-sort_by fresh share_less xs)
        ∙ ap (map fresh) (sort_by_unique pair_less pair_less-IsStrict pair_less-IsTotal p)
        ∙ map-sort_by fresh share_less ys

    -- Where no driver is NaN and drivers that compare equal are the same number: if a map is ranged over
    -- in two orders, and the sums of its drivers in these orders agree (in `float64` they may differ by
    -- rounding, which is all that the order can change), the lines are the same, in the same order.
    pub tenants-order_free :
        (m : Measurement F) (inv : Inventory F) (expected : List String) {drivers : Assoc String F}
        → Permᴰ m.drivers drivers
        → total_of (map (λ d. d.1) m.drivers) ≡ total_of (map (λ d. d.1) drivers)
        → (allocate m inv expected).tenants
          ≡ (allocate (record m { drivers = drivers }) inv expected).tenants
    unfolding divisor
    tenants-order_free m inv expected {drivers} p sums =
        let m' : Measurement F = record m { drivers = drivers } in
        let same : charge_view (allocate m inv expected) ≡ charge_view (allocate m' inv expected) =
          charge_view-allocate m inv expected ∙ sym (charge_view-allocate m' inv expected) in
        allocate-tenants m inv expected
        ∙ cc (
          same,
          sorted-perm p,
          sums,
          total-values m.drivers,
          total-values drivers,
          ap (λ (c : Charge F). c.replicas) same,
          ap (λ (c : Charge F). c.pool_cost_month) same,
        )
        ∙ sym (allocate-tenants m' inv expected)
