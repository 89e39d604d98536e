-- ===== src/Cost/Allocate/Divisor.antt =====
-- The replication factor divides absolute figures and cancels in shares.
use mathlib.Core.Path.{fun_ext}
use mathlib.Core.List.{map-map}
use obscost.Prelude.{
  String, ◌||◌, Option, none, some, List, [], ◌∷◌, map, ◌≡◌, refl, sym, ap, ◌∙◌, arith,
  if◌then◌else◌, Bool-cases, inl, inr, All, is_empty,
}
use obscost.Prelude.Int.{ℤ}
use obscost.Prelude.Sort.{sort_by}
use obscost.Float.{Float, nought, one}
use obscost.Cost.{Inventory, Measurement, TenantShare}
use obscost.Cost.Factor.{resolve_replication_factor, divide_by}
use obscost.Cost.Price.Charged.{Charge, charge_view}
use obscost.Cost.Allocate.{pool_inventory, fill, fresh, share_less, allocate}
use obscost.Cost.Allocate.Parts.{
  divisor, raw_total, tenant_line, allocate-tenants, charge_view-allocate, allocate-total,
  allocate-replication_factor,
}

pub record Figures (F : Type 0) : Type 0 where
  pub tenant : String
  pub share : Option F
  pub equivalent_replicas : Option F
  pub cost : Option F

module _ {F : Type 0} ⦃f : Float F⦄ where
  -- What does not depend on the replication factor.
  abbrev pub figures : TenantShare F → Figures F
  figures t = record {
    tenant = t.tenant;
    share = t.share;
    equivalent_replicas = t.equivalent_replicas;
    cost = t.cost;
  }

  figures-line :
      (rf rf' : Option F) (total : F) (n : Option ℤ) (c : Option F)
      → ◌≡◌ {A = TenantShare F → Figures F}
          (λ t. figures (tenant_line rf total n c t))
          (λ t. figures (tenant_line rf' total n c t))
  unfolding tenant_line fill
  figures-line rf rf' total n c =
      fun_ext λ t. elim (Bool-cases (f.le total nought)) [ inl e ↦ rw e | inr e ↦ rw e ]

  figures-allocate :
      (m : Measurement F) (inv : Inventory F) (expected : List String) (rf : Option F)
      → let a = allocate m inv expected in
        map figures a.tenants
        ≡ map
            (λ t. figures (tenant_line rf (raw_total m) a.replicas a.pool_cost_month t))
            (sort_by share_less (map fresh m.drivers))
  figures-allocate m inv expected rf =
      let a = allocate m inv expected in
      let sorted = sort_by share_less (map fresh m.drivers) in
      ap (map figures) (allocate-tenants m inv expected)
      ∙ map-map figures (tenant_line (divisor m inv) (raw_total m) a.replicas a.pool_cost_month)
          sorted
      ∙ ap (λ g. map g sorted)
          (figures-line (divisor m inv) rf (raw_total m) a.replicas a.pool_cost_month)

  -- Shares, replica equivalents and costs are the same for every replication factor, supplied,
  -- measured or unknown.
  pub factor_cancels :
      (m : Measurement F) (inv : Inventory F) (expected : List String) (supplied : Option ℤ)
      (measured : Option F)
      → map figures
          (allocate
            (record m { replication_factor = measured })
            (record inv { replication_factor = supplied })
            expected).tenants
        ≡ map figures (allocate m inv expected).tenants
  unfolding pool_inventory
  factor_cancels m inv expected supplied measured =
      let m' : Measurement F = record m { replication_factor = measured } in
      let inv' : Inventory F = record inv { replication_factor = supplied } in
      let same : charge_view (allocate m' inv' expected) ≡ charge_view (allocate m inv expected) =
        charge_view-allocate m' inv' expected ∙ sym (charge_view-allocate m inv expected) in
      figures-allocate m' inv' expected none
      ∙ ap
          (λ (c : Charge F).
            map (λ t. figures (tenant_line none (raw_total m) c.replicas c.pool_cost_month t))
              (sort_by share_less (map fresh m.drivers)))
          same
      ∙ sym (figures-allocate m inv expected none)

  -- The factor that is in force: 1 where each series is counted once, else the operator's, else
  -- Mimir's if it is at least 1.
  unfoldable pub known_factor : Measurement F → Inventory F → Option F
  known_factor m inv =
      if m.unreplicated || m.deduplicated then some one else elim inv.replication_factor [
        | some n ↦ some (f.of_int n)
        | none ↦ elim m.replication_factor [
          | none ↦ none
          | some v ↦ if f.le one v then some v else none
        ]
      ]

  divisor-known : (m : Measurement F) (inv : Inventory F) → divisor m inv ≡ known_factor m inv
  unfolding divisor resolve_replication_factor known_factor
  divisor-known m inv = ground arith

  -- A raw figure over a factor; nothing without a factor.
  abbrev pub quotient : F → Option F → Option F
  quotient x none = none
  quotient x (some k) = some (f.div x k)

  divide_by-quotient : (x : F) (k : Option F) → divide_by x k ≡ quotient x k
  unfolding divide_by
  divide_by-quotient x none = refl
  divide_by-quotient x (some k) = refl

  line-driver :
      (rf : Option F) (total : F) (n : Option ℤ) (c : Option F) (ts : List (TenantShare F))
      → All (λ t. t.driver ≡ quotient t.driver_raw rf) (map (tenant_line rf total n c) ts)
  unfolding tenant_line fill
  line-driver rf total n c [] = tt
  line-driver rf total n c (t ∷ ts) = elim (Bool-cases (f.le total nought)) [
    | inl e ↦ rw e (divide_by-quotient t.driver_raw rf, line-driver rf total n c ts)
    | inr e ↦ rw e (divide_by-quotient t.driver_raw rf, line-driver rf total n c ts)
  ]

  -- Let the factor in force be 1 where the driver counts each series once, else the operator's, else
  -- Mimir's if it is at least 1, else unknown. Every tenant's absolute figure is its raw driver over this
  -- factor, and withheld if the factor is unknown; so is the pool's total, which is also absent without a
  -- measured tenant; and the factor is the one that is reported, unless replication does not apply.
  pub absolute_figures :
      (m : Measurement F) (inv : Inventory F) (expected : List String)
      → let a = allocate m inv expected in
        All (λ t. t.driver ≡ quotient t.driver_raw (known_factor m inv)) a.tenants
        × (a.total
            ≡ (if is_empty m.drivers then none else quotient (raw_total m) (known_factor m inv)))
        × (a.replication_factor ≡ (if m.unreplicated then none else known_factor m inv))
  absolute_figures m inv expected =
      let a = allocate m inv expected in
      rw (← divisor-known m inv) (
        rw (allocate-tenants m inv expected) (
            line-driver (divisor m inv) (raw_total m) a.replicas a.pool_cost_month
              (sort_by share_less (map fresh m.drivers))),
        rw (← divide_by-quotient (raw_total m) (divisor m inv)) (allocate-total m inv expected),
        allocate-replication_factor m inv expected,
      )
