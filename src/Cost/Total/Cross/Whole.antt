-- ===== src/Cost/Total/Cross/Whole.antt =====
-- A total across pools hands out the whole cost of the priced pools, and no more.
use obscost.Prelude.{
  nil_of_is_empty, string_comparable, String, true, List, [], ◌∷◌, map, ◌≡◌, refl, sym, ap, ◌∙◌,
  arith, Bool-cases, Option-cases, inl, inr, is_empty, All, select,
}
use obscost.Prelude.Sort.{sort_by}
use obscost.Prelude.Map.{Assoc}
use obscost.Float.{Float, nought, one, sum_from, total_of, IsOrdered, IsExact}
use obscost.Float.Sums.{total-cons, total-sort_by, total-div}
use obscost.Cost.{TenantShare, Inventory, Measurement, PoolAllocation}
use obscost.Cost.Allocate.{allocate}
use obscost.Cost.Allocate.Costed.{shares→positive, allocate-costed}
use obscost.Cost.Allocate.Shares.{value_of, costs-sum}
use obscost.Prelude.Names.{add_names}
use obscost.Cost.Total.{TenantTotal}
use obscost.Cost.Total.Cross.{
  pool_cost, is_priced, universe_of, zero_total, keep_charged, total_less, allocate_each,
  allocate_all,
}
use obscost.Cost.Total.Cross.Universe.{universe-AreKnown, keys-zero_total}
use obscost.Cost.Total.Cross.Sums.{
  cost_sum, charged_sum, pools_sum, AreIdle, AreIdle-total_pools, sum-total_pools,
}
use obscost.Cost.Total.Cross.Pools.{final_totals, cross_pool-coverage, tenants-cross_pool}

AreIdle-zero_total :
    (F : Type 0) ⦃f : Float F⦄ (ns : List String) → AreIdle (map (zero_total {F = F}) ns)
AreIdle-zero_total F [] = tt
AreIdle-zero_total F (n ∷ ns) = (λ h. refl, AreIdle-zero_total F ns)

module _ {F : Type 0} ⦃f : Float F⦄ where
  module _ (exact : IsExact F) where
    open exact use {zero-add}

    sum-zero_total : (ns : List String) → cost_sum (map (zero_total {F = F}) ns) ≡ nought
    sum-zero_total [] = refl
    sum-zero_total (n ∷ ns) = zero-add _ ∙ sum-zero_total ns

    sum-keep_charged :
        (c : F) (m : Assoc String (TenantTotal F))
        → AreIdle m
        → total_of (map (λ t. t.cost_month) (keep_charged c m)) ≡ cost_sum m
    unfolding keep_charged sum_from
    sum-keep_charged c [] h = refl
    sum-keep_charged c ((t, v) ∷ m) (h, hs) = elim (Bool-cases (is_empty v.pools)) [
      | inl e ↦ rw (e, h e) (sum-keep_charged c m hs ∙ sym (zero-add _))
      | inr e ↦ rw e (
          total-cons exact v.cost_month (map (λ t. t.cost_month) (keep_charged c m))
          ∙ ap (f.add v.cost_month) (sum-keep_charged c m hs))
    ]

    sum-final_totals :
        (priced : List (PoolAllocation F)) (expected : List String)
        → cost_sum (final_totals priced expected) ≡ pools_sum priced
    sum-final_totals priced expected =
        let names = universe_of (add_names [] expected) priced in
        sum-total_pools exact names priced (map zero_total names) (keys-zero_total F names)
          (universe-AreKnown (add_names [] expected) priced)
        ∙ ap (λ x. f.add x (pools_sum priced)) (sum-zero_total names)
        ∙ zero-add (pools_sum priced)

    -- A pool hands out its whole cost.
    abbrev pub IsWhole : PoolAllocation F → Type 0
    IsWhole a = charged_sum a.tenants ≡ pool_cost a

    pools_sum-IsWhole :
        (pools : List (PoolAllocation F))
        → All IsWhole pools
        → pools_sum pools ≡ total_of (map pool_cost pools)
    unfolding sum_from
    pools_sum-IsWhole [] h = refl
    pools_sum-IsWhole (a ∷ pools) (h, hs) =
        ap (λ x. f.add x (pools_sum pools)) h
        ∙ ap (f.add (pool_cost a)) (pools_sum-IsWhole pools hs)
        ∙ sym (total-cons exact (pool_cost a) (map pool_cost pools))

    charged_sum-total :
        (ts : List (TenantShare F)) → charged_sum ts ≡ total_of (map (λ t. value_of t.cost) ts)
    unfolding sum_from
    charged_sum-total [] = refl
    charged_sum-total (t ∷ ts) =
        ap (f.add (value_of t.cost)) (charged_sum-total ts)
        ∙ sym (total-cons exact (value_of t.cost) (map (λ s. value_of s.cost) ts))

  allocate-IsWhole :
      (ordered : IsOrdered F) (exact : IsExact F)
      → (m : Measurement F) (inv : Inventory F) (expected : List String)
      → is_priced (allocate m inv expected) ≡ true
      → IsWhole exact (allocate m inv expected)
  unfolding is_priced
  allocate-IsWhole ordered exact m inv expected h =
      let a = allocate m inv expected in
      charged_sum-total exact a.tenants ∙ elim (Option-cases a.pool_cost_month) [
        | inl e ↦ ground (arith, e, allocate-costed m inv expected)
        | inr (c, e) ↦
            (costs-sum ordered exact m inv expected c
              (shares→positive m inv expected (ground arith)) e).1
            ∙ (rw e refl)
      ]

  select-allocate_each :
      (ordered : IsOrdered F) (exact : IsExact F)
      → (ms : List (Measurement F)) (inv : Inventory F) (expected : List String)
      → All (IsWhole exact) (select is_priced (allocate_each ms inv expected))
  unfolding allocate_each select
  select-allocate_each ordered exact [] inv expected = tt
  select-allocate_each ordered exact (m ∷ ms) inv expected =
      elim (Bool-cases (is_priced (allocate m inv expected))) [
        | inl e ↦ rw e (
          allocate-IsWhole ordered exact m inv expected e,
          select-allocate_each ordered exact ms inv expected,
        )
        | inr e ↦ rw e (select-allocate_each ordered exact ms inv expected)
      ]

  kept : List (PoolAllocation F) → List String → List (TenantTotal F)
  kept priced expected =
      keep_charged (total_of (map pool_cost priced)) (final_totals priced expected)

  module _ (exact : IsExact F) where
    total-kept :
        (priced : List (PoolAllocation F)) (expected : List String)
        → All (IsWhole exact) priced
        → total_of (map (λ t. t.cost_month) (sort_by total_less (kept priced expected)))
          ≡ total_of (map pool_cost priced)
    unfolding kept
    total-kept priced expected whole =
        let c = total_of (map pool_cost priced) in
        let names = universe_of (add_names [] expected) priced in
        total-sort_by exact (λ t. t.cost_month) total_less (kept priced expected)
        ∙ sum-keep_charged exact c (final_totals priced expected)
            (AreIdle-total_pools priced (map zero_total names) (AreIdle-zero_total F names))
        ∙ sum-final_totals exact priced expected
        ∙ pools_sum-IsWhole exact priced whole

    share-keep_charged :
        (c : F) (m : Assoc String (TenantTotal F))
        → map (λ t. t.share) (keep_charged c m) ≡ map (λ t. f.div t.cost_month c) (keep_charged c m)
    unfolding keep_charged
    share-keep_charged c [] = refl
    share-keep_charged c ((t, v) ∷ m) = elim (Bool-cases (is_empty v.pools)) [
      | inl e ↦ rw e (share-keep_charged c m)
      | inr e ↦ rw e (ap (λ xs. f.div v.cost_month c ∷ xs) (share-keep_charged c m))
    ]

    shares-kept :
        (priced : List (PoolAllocation F)) (expected : List String)
        → All (IsWhole exact) priced
        → total_of (map (λ t. t.share) (sort_by total_less (kept priced expected)))
          ≡ f.div (total_of (map pool_cost priced)) (total_of (map pool_cost priced))
    unfolding kept
    shares-kept priced expected whole =
        let c = total_of (map pool_cost priced) in
        total-sort_by exact (λ t. t.share) total_less (kept priced expected)
        ∙ ap total_of (share-keep_charged c (final_totals priced expected))
        ∙ total-div exact (λ t. t.cost_month) c (kept priced expected)
        ∙ ap (λ x. f.div x c)
            (sym (total-sort_by exact (λ t. t.cost_month) total_less (kept priced expected))
              ∙ total-kept priced expected whole)

    module _ (ordered : IsOrdered F) where
      nothing_priced :
          (priced : List (PoolAllocation F))
          → is_empty priced ≡ true
          → f.lt nought (total_of (map pool_cost priced)) ≡ true
          → ⊥
      unfolding sum_from
      nothing_priced [] e h = cc (h, ordered.lt_asym nought nought h)
      nothing_priced (a ∷ priced) e h = cc e

      -- In arithmetic without rounding and NaN (the laws of `IsExact` and `IsOrdered`, which `float64`
      -- satisfies only up to rounding): the tenants' costs over all priced pools sum to the priced cost,
      -- which is the sum of the costs of the pools that have shares and a cost.
      pub tenants-total :
          (ms : List (Measurement F)) (inv : Inventory F) (expected : List String)
          → let cp = (allocate_all ms inv expected).cross_pool in
            (total_of (map (λ t. t.cost_month) cp.tenants) ≡ cp.priced_cost_month)
            × (cp.priced_cost_month
                ≡ total_of (map pool_cost (select is_priced (allocate_all ms inv expected).pools)))
      unfolding allocate_all kept sum_from
      tenants-total ms inv expected =
          let pools = allocate_each ms inv expected in
          let priced = select is_priced pools in
          let (_, _, _, cost, _) = cross_pool-coverage pools inv expected in
          (
            rw (tenants-cross_pool pools inv expected, cost)
                (elim (Bool-cases (is_empty priced)) [
                  | inl e ↦ rw (e, nil_of_is_empty priced e) refl
                  | inr e ↦ rw e (
                      total-kept priced expected
                        (select-allocate_each ordered exact ms inv expected))
                ]),
            cost,
          )

      -- In arithmetic without rounding and NaN (the laws of `IsExact` and `IsOrdered`, which `float64`
      -- satisfies only up to rounding): if the priced cost is positive, the shares of it of the tenants
      -- that are listed sum to 1.
      pub tenants-shares :
          (ms : List (Measurement F)) (inv : Inventory F) (expected : List String)
          → f.lt nought (allocate_all ms inv expected).cross_pool.priced_cost_month ≡ true
          → total_of (map (λ t. t.share) (allocate_all ms inv expected).cross_pool.tenants) ≡ one
      unfolding allocate_all kept sum_from
      tenants-shares ms inv expected h =
          let pools = allocate_each ms inv expected in
          let priced = select is_priced pools in
          let (_, _, _, cost, _) = cross_pool-coverage pools inv expected in
          let positive = sym (ap (f.lt nought) cost) ∙ h in
          rw (tenants-cross_pool pools inv expected) (elim (Bool-cases (is_empty priced)) [
            | inl e ↦ absurd (nothing_priced priced e positive)
            | inr e ↦ rw e (
                shares-kept priced expected (select-allocate_each ordered exact ms inv expected)
                ∙ exact.div_self (total_of (map pool_cost priced)) positive)
          ])
