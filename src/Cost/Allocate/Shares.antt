-- ===== src/Cost/Allocate/Shares.antt =====
-- `Allocate` splits the whole pool: the shares sum to 1, the costs to the pool's cost.
use mathlib.Core.Path.{fun_ext}
use mathlib.Core.List.{map-map}
use obscost.Prelude.{
  String, Bool-cases, inl, inr, true, false, not, Option, none, some, List, [], ◌∷◌, map, ◌≡◌, refl,
  ap, ◌∙◌, All,
}
use obscost.Prelude.Int.{ℤ}
use obscost.Prelude.Sort.{sort_by, sort_by-All}
use obscost.Float.{Float, nought, one, total_of, IsOrdered, IsExact}
use obscost.Float.Sums.{total-div, total-mul, total-sort_by}
use obscost.Cost.{Inventory, Measurement, TenantShare}
use obscost.Cost.Allocate.{fill, fresh, share_less, values, allocate}
use obscost.Cost.Allocate.Parts.{
  divisor, raw_total, tenant_line, tenant_line-fill, allocate-tenants,
}

abbrev pub value_of : {F : Type 0} ⦃f : Float F⦄ → Option F → F
value_of none = nought
value_of (some x) = x

module _ {F : Type 0} ⦃f : Float F⦄ where
  pub total-values :
      (drivers : List (String × F)) → total_of (map (λ d. d.1) drivers) ≡ total_of (values drivers)
  total-values drivers = ap total_of (go drivers)
    where
      go : (ds : List (String × F)) → map (λ d. d.1) ds ≡ values ds
      go [] = refl
      go ((t, v) ∷ ds) = ap (λ vs. v ∷ vs) (go ds)

  abbrev pub HasShare : F → TenantShare F → Type 0
  HasShare total t = t.share ≡ some (f.div t.driver_raw total)

  abbrev pub HasCost : F → F → TenantShare F → Type 0
  HasCost total c t = t.cost ≡ some (f.mul (f.div t.driver_raw total) c)

  module _ (rf : Option F) (total : F) (n : Option ℤ) (c : Option F) where
    fill-HasShare : (ts : List (TenantShare F)) → All (HasShare total) (map (fill rf total n c) ts)
    unfolding fill
    fill-HasShare [] = tt
    fill-HasShare (t ∷ ts) = (refl, fill-HasShare ts)

    share-fill :
        (t : TenantShare F) → value_of (fill rf total n c t).share ≡ f.div t.driver_raw total
    unfolding fill
    share-fill t = refl

  fill-HasCost :
      (rf : Option F) (total : F) (n : Option ℤ) (c : F) (ts : List (TenantShare F))
      → All (HasCost total c) (map (fill rf total n (some c)) ts)
  unfolding fill
  fill-HasCost rf total n c [] = tt
  fill-HasCost rf total n c (t ∷ ts) = (refl, fill-HasCost rf total n c ts)

  cost-fill :
      (rf : Option F) (total : F) (n : Option ℤ) (c : F) (t : TenantShare F)
      → value_of (fill rf total n (some c) t).cost ≡ f.mul (f.div t.driver_raw total) c
  unfolding fill
  cost-fill rf total n c t = refl

  module _ (ordered : IsOrdered F) (exact : IsExact F) where
    open exact use {div_self, one-mul}

    -- Sorted or not, the raw drivers sum to the total.
    total-sorted :
        (m : Measurement F)
        → total_of (map (λ t. t.driver_raw) (sort_by share_less (map fresh m.drivers)))
          ≡ raw_total m
    total-sorted m =
        total-sort_by exact (λ t. t.driver_raw) share_less (map fresh m.drivers)
        ∙ ap total_of (map-map (λ t. t.driver_raw) fresh m.drivers)
        ∙ total-values m.drivers

    positive→filled : (total : F) → f.lt nought total ≡ true → f.le total nought ≡ false
    positive→filled total h = ordered.le-eq-not_lt total nought ∙ ap not h

    shares-of-lines :
        (m : Measurement F) (rf : Option F) (n : Option ℤ) (c : Option F)
        → f.lt nought (raw_total m) ≡ true
        → total_of (
            map
              (λ t. value_of t.share)
              (map (fill rf (raw_total m) n c) (sort_by share_less (map fresh m.drivers))))
          ≡ one
    shares-of-lines m rf n c h =
        ap total_of (
          map-map (λ t. value_of t.share) (fill rf (raw_total m) n c)
            (sort_by share_less (map fresh m.drivers))
          ∙ ap (λ g. map g (sort_by share_less (map fresh m.drivers)))
              (fun_ext (share-fill rf (raw_total m) n c)))
        ∙ total-div exact (λ t. t.driver_raw) (raw_total m)
            (sort_by share_less (map fresh m.drivers))
        ∙ ap (λ x. f.div x (raw_total m)) (total-sorted m)
        ∙ div_self (raw_total m) h

    -- In arithmetic without rounding and NaN (the laws of `IsExact` and `IsOrdered`, which `float64`
    -- satisfies only up to rounding): if the measured total is positive, every tenant has the share
    -- driver / total, and the shares sum to 1.
    pub shares-sum :
        (m : Measurement F) (inv : Inventory F) (expected : List String)
        → f.lt nought (raw_total m) ≡ true
        → let ts = (allocate m inv expected).tenants in
          All (HasShare (raw_total m)) ts × (total_of (map (λ t. value_of t.share) ts) ≡ one)
    shares-sum m inv expected h =
        let a = allocate m inv expected in
        let sorted = sort_by share_less (map fresh m.drivers) in
        rw
          (
            allocate-tenants m inv expected,
            tenant_line-fill (divisor m inv) (raw_total m) a.replicas a.pool_cost_month
                (positive→filled (raw_total m) h),
          )
          (
            fill-HasShare (divisor m inv) (raw_total m) a.replicas a.pool_cost_month sorted,
            shares-of-lines m (divisor m inv) a.replicas a.pool_cost_month h,
          )

    costs-of-lines :
        (m : Measurement F) (rf : Option F) (n : Option ℤ) (c : F)
        → f.lt nought (raw_total m) ≡ true
        → total_of (
            map
              (λ t. value_of t.cost)
              (map (fill rf (raw_total m) n (some c)) (sort_by share_less (map fresh m.drivers))))
          ≡ c
    costs-of-lines m rf n c h =
        let sorted = sort_by share_less (map fresh m.drivers) in
        ap total_of (
          map-map (λ t. value_of t.cost) (fill rf (raw_total m) n (some c)) sorted
          ∙ ap (λ g. map g sorted) (fun_ext (cost-fill rf (raw_total m) n c)))
        ∙ total-mul exact (λ t. f.div t.driver_raw (raw_total m)) c sorted
        ∙ ap (λ x. f.mul x c)
            (total-div exact (λ t. t.driver_raw) (raw_total m) sorted
              ∙ ap (λ x. f.div x (raw_total m)) (total-sorted m)
              ∙ div_self (raw_total m) h)
        ∙ one-mul c

    -- In arithmetic without rounding and NaN (the laws of `IsExact` and `IsOrdered`, which `float64`
    -- satisfies only up to rounding): if the measured total is positive and the pool has a cost, every
    -- tenant is charged driver / total of it, and the charges sum to it.
    pub costs-sum :
        (m : Measurement F) (inv : Inventory F) (expected : List String) (c : F)
        → f.lt nought (raw_total m) ≡ true
        → (allocate m inv expected).pool_cost_month ≡ some c
        → let ts = (allocate m inv expected).tenants in
          All (HasCost (raw_total m) c) ts × (total_of (map (λ t. value_of t.cost) ts) ≡ c)
    costs-sum m inv expected c h e =
        let a = allocate m inv expected in
        let sorted = sort_by share_less (map fresh m.drivers) in
        rw
          (
            allocate-tenants m inv expected,
            e,
            tenant_line-fill (divisor m inv) (raw_total m) a.replicas (some c)
                (positive→filled (raw_total m) h),
          )
          (
            fill-HasCost (divisor m inv) (raw_total m) a.replicas c sorted,
            costs-of-lines m (divisor m inv) a.replicas c h,
          )

  abbrev scaled : F → Option F → Option F
  scaled s none = none
  scaled s (some x) = some (f.mul s x)

  abbrev number : Option ℤ → Option F
  number none = none
  number (some n) = some (f.of_int n)

  -- What a line says for a total of the drivers, a count of replicas and a cost of the pool.
  pub data IsLine (total : F) (n : Option ℤ) (c : Option F) (t : TenantShare F) : Type 0 where
    without_total :
        f.le total nought ≡ true
        → t.share ≡ none
        → t.equivalent_replicas ≡ none
        → t.cost ≡ none
        → IsLine total n c t
    in_proportion :
        f.le total nought ≡ false
        → t.share ≡ some (f.div t.driver_raw total)
        → t.equivalent_replicas ≡ scaled (f.div t.driver_raw total) (number n)
        → t.cost ≡ scaled (f.div t.driver_raw total) c
        → IsLine total n c t

  fill-IsLine :
      (rf : Option F) (total : F) (n : Option ℤ) (c : Option F) (t : TenantShare F)
      → f.le total nought ≡ false
      → IsLine total n c (fill rf total n c t)
  unfolding fill
  fill-IsLine rf total none none t e = in_proportion e refl refl refl
  fill-IsLine rf total (some k) none t e = in_proportion e refl refl refl
  fill-IsLine rf total none (some x) t e = in_proportion e refl refl refl
  fill-IsLine rf total (some k) (some x) t e = in_proportion e refl refl refl

  abbrev IsFresh : TenantShare F → Type 0
  IsFresh t = (t.share ≡ none) × (t.equivalent_replicas ≡ none) × (t.cost ≡ none)

  map-fresh : (ds : List (String × F)) → All IsFresh (map fresh ds)
  map-fresh [] = tt
  map-fresh ((t, v) ∷ ds) = ((refl, refl, refl), map-fresh ds)

  lines-IsLine :
      (rf : Option F) (total : F) (n : Option ℤ) (c : Option F) (ts : List (TenantShare F))
      → All IsFresh ts
      → All (IsLine total n c) (map (tenant_line rf total n c) ts)
  unfolding tenant_line
  lines-IsLine rf total n c [] h = tt
  lines-IsLine rf total n c (t ∷ ts) ((s, r, k), h) = elim (Bool-cases (f.le total nought)) [
    | inl e ↦ rw e (without_total e s r k, lines-IsLine rf total n c ts h)
    | inr e ↦ rw e (fill-IsLine rf total n c t e, lines-IsLine rf total n c ts h)
  ]

  -- In any arithmetic, `float64` included: if the sum of the drivers is not above 0, no tenant has a
  -- share, a replica equivalent or a cost, whatever the prices. Otherwise each tenant has the share
  -- driver / total, that share of the replicas where their number is known, and that share of the pool's
  -- cost where the pool is costed.
  pub lines_lem :
      (m : Measurement F) (inv : Inventory F) (expected : List String)
      → let a = allocate m inv expected in
        All (IsLine (total_of (map (λ d. d.1) m.drivers)) a.replicas a.pool_cost_month) a.tenants
  lines_lem m inv expected =
      let a = allocate m inv expected in
      rw (total-values m.drivers, allocate-tenants m inv expected)
        (lines-IsLine (divisor m inv) (raw_total m) a.replicas a.pool_cost_month
          (sort_by share_less (map fresh m.drivers))
          (sort_by-All share_less IsFresh (map fresh m.drivers) (map-fresh m.drivers)))
