-- ===== src/Cost/Total/Cross/Pools.antt =====
-- Which pools a cross-pool total covers.
use obscost.Prelude.{
  string_comparable, ◌+◌, String, Bool, true, false, not, ◌&&◌, Option, none, some, List, [], ◌∷◌,
  ◌++◌, map, ◌≡◌, refl, sym, ap, ◌∙◌, arith, if◌then◌else◌, Bool-cases, inl, inr, is_empty, select,
  length,
}
use mathlib.Core.List.{append-nil, append_assoc}
use obscost.Prelude.Sort.{sort_by}
use obscost.Prelude.Map.{Assoc}
use obscost.Float.{Float, sum_from, total_of}
use obscost.Cost.{PoolId, Inventory, PoolAllocation, has_shares}
use obscost.Prelude.Names.{add_names}
use obscost.Cost.Total.{TenantTotal, CrossPool}
use obscost.Cost.Total.Cross.{
  pool_cost, is_priced, classify_as, classify, classify_all, empty_cross, ids, add_fraction,
  cross_priced, cross_pool, universe_of, zero_total, total_pools, keep_charged, total_less,
}

-- What a total says of the pools it covers, apart from the rest.
record Coverage (F : Type 0) : Type 0 where
  priced : List PoolId
  unpriced : List PoolId
  unmeasured : List PoolId
  cost : F

module _ {F : Type 0} ⦃f : Float F⦄ where
  abbrev pub is_unmeasured : PoolAllocation F → Bool
  is_unmeasured a = not (has_shares a)

  abbrev pub is_unpriced : PoolAllocation F → Bool
  is_unpriced a = has_shares a && not a.costed

  -- The coverage that a walk over the pools adds to what is there.
  record Covers (cp cp' : CrossPool F) (pools : List (PoolAllocation F)) : Type 0 where
    priced : cp'.priced ≡ cp.priced ++ ids (select is_priced pools)
    unpriced : cp'.unpriced ≡ cp.unpriced ++ ids (select is_unpriced pools)
    unmeasured : cp'.unmeasured ≡ cp.unmeasured ++ ids (select is_unmeasured pools)
    cost :
        cp'.priced_cost_month
        ≡ sum_from cp.priced_cost_month (map pool_cost (select is_priced pools))
    platform : cp'.platform_cost_month ≡ cp.platform_cost_month
    fraction : cp'.priced_fraction ≡ cp.priced_fraction
    tenants : cp'.tenants ≡ cp.tenants
    notes : cp'.notes ≡ cp.notes

  Covers-cons :
      (cp cp' : CrossPool F) (a : PoolAllocation F) (pools : List (PoolAllocation F)) (h c : Bool)
      → has_shares a ≡ h
      → a.costed ≡ c
      → Covers (classify_as h c cp a) cp' pools
      → Covers cp cp' (a ∷ pools)
  unfolding classify_as select is_priced sum_from
  Covers-cons cp cp' a pools false c eh ec v = record {
    priced = rw eh v.priced;
    unpriced = rw eh v.unpriced;
    unmeasured = rw eh (v.unmeasured ∙ append_assoc cp.unmeasured (a.pool.id ∷ []) _);
    cost = rw eh v.cost;
    platform = v.platform;
    fraction = v.fraction;
    tenants = v.tenants;
    notes = v.notes;
  }
  Covers-cons cp cp' a pools true true eh ec v = record {
    priced = rw (eh, ec) (v.priced ∙ append_assoc cp.priced (a.pool.id ∷ []) _);
    unpriced = rw (eh, ec) v.unpriced;
    unmeasured = rw eh v.unmeasured;
    cost = rw (eh, ec) v.cost;
    platform = v.platform;
    fraction = v.fraction;
    tenants = v.tenants;
    notes = v.notes;
  }
  Covers-cons cp cp' a pools true false eh ec v = record {
    priced = rw (eh, ec) v.priced;
    unpriced = rw (eh, ec) (v.unpriced ∙ append_assoc cp.unpriced (a.pool.id ∷ []) _);
    unmeasured = rw eh v.unmeasured;
    cost = rw (eh, ec) v.cost;
    platform = v.platform;
    fraction = v.fraction;
    tenants = v.tenants;
    notes = v.notes;
  }

  Covers-classify_all :
      (cp : CrossPool F) (pools : List (PoolAllocation F)) → Covers cp (classify_all cp pools) pools
  unfolding classify_all classify select sum_from
  Covers-classify_all cp [] = record {
    priced = sym (append-nil cp.priced);
    unpriced = sym (append-nil cp.unpriced);
    unmeasured = sym (append-nil cp.unmeasured);
    cost = refl;
    platform = refl;
    fraction = refl;
    tenants = refl;
    notes = refl;
  }
  Covers-classify_all cp (a ∷ pools) =
      Covers-cons cp (classify_all (classify cp a) pools) a pools (has_shares a) a.costed refl refl
        (Covers-classify_all (classify cp a) pools)

  -- A share of the platform is stated where the priced pools do not cost more than it.
  abbrev pub fraction_of : F → Option F → Option F
  fraction_of cost none = none
  fraction_of cost (some platform) = if f.le cost platform then some (f.div cost platform) else none

  abbrev coverage : CrossPool F → Coverage F
  coverage cp = record {
    priced = cp.priced;
    unpriced = cp.unpriced;
    unmeasured = cp.unmeasured;
    cost = cp.priced_cost_month;
  }

  coverage-add_fraction :
      (cp : CrossPool F) (platform : Option F) (currency : String)
      → coverage (add_fraction cp platform currency) ≡ coverage cp
  unfolding add_fraction
  coverage-add_fraction cp none currency = refl
  coverage-add_fraction cp (some p) currency = elim (Bool-cases (f.le cp.priced_cost_month p)) [
    | inl e ↦ rw e refl
    | inr e ↦ rw e refl
  ]

  coverage-cross_pool :
      (pools : List (PoolAllocation F)) (inv : Inventory F) (expected : List String)
      → coverage (cross_pool pools inv expected) ≡ coverage (classify_all (empty_cross inv) pools)
  unfolding cross_pool cross_priced
  coverage-cross_pool pools inv expected = elim (Bool-cases (is_empty (select is_priced pools))) [
    | inl e ↦ rw e refl
    | inr e ↦ rw e (coverage-add_fraction _ _ inv.currency)
  ]

  length-split :
      (pools : List (PoolAllocation F))
      → length (ids (select is_priced pools))
          + length (ids (select is_unpriced pools))
          + length (ids (select is_unmeasured pools))
        ≡ length pools
  unfolding select is_priced
  length-split [] = refl
  length-split (a ∷ pools) = ground (arith, length-split pools)

  -- Every pool of the input is listed in exactly one of the three groups, in the order of the input:
  -- priced, with shares but no cost, or without shares. The priced cost is the sum of the priced
  -- pools' costs, and the groups together are as long as the input.
  pub cross_pool-coverage :
      (pools : List (PoolAllocation F)) (inv : Inventory F) (expected : List String)
      → ((cross_pool pools inv expected).priced ≡ ids (select is_priced pools))
        × ((cross_pool pools inv expected).unpriced ≡ ids (select is_unpriced pools))
        × ((cross_pool pools inv expected).unmeasured ≡ ids (select is_unmeasured pools))
        × ((cross_pool pools inv expected).priced_cost_month
            ≡ total_of (map pool_cost (select is_priced pools)))
        × (length (cross_pool pools inv expected).priced
              + length (cross_pool pools inv expected).unpriced
              + length (cross_pool pools inv expected).unmeasured
            ≡ length pools)
  unfolding empty_cross
  cross_pool-coverage pools inv expected =
      let same = coverage-cross_pool pools inv expected in
      let v = Covers-classify_all (empty_cross inv) pools in
      let p = ap Coverage.priced same ∙ v.priced in
      let u = ap Coverage.unpriced same ∙ v.unpriced in
      let m = ap Coverage.unmeasured same ∙ v.unmeasured in
      (p, u, m, ap Coverage.cost same ∙ v.cost, rw (p, u, m) (length-split pools))

  fraction-add_fraction :
      (cp : CrossPool F) (platform : Option F) (currency : String)
      → cp.priced_fraction ≡ none
      → (add_fraction cp platform currency).priced_fraction
        ≡ fraction_of cp.priced_cost_month platform
  unfolding add_fraction
  fraction-add_fraction cp none currency h = h
  fraction-add_fraction cp (some p) currency h = elim (Bool-cases (f.le cp.priced_cost_month p)) [
    | inl e ↦ rw e refl
    | inr e ↦ rw e h
  ]

  -- With no priced pool no fraction is stated. Otherwise it is the sum of the priced pools' costs over
  -- the platform's cost, stated exactly where the inventory gives a platform cost and the sum is not
  -- above it.
  cross_pool-fraction :
      (pools : List (PoolAllocation F)) (inv : Inventory F) (expected : List String)
      → (cross_pool pools inv expected).priced_fraction ≡ (
          if is_empty (select is_priced pools)
          then none
          else fraction_of
              (total_of (map pool_cost (select is_priced pools)))
              inv.platform_cost_month)
  unfolding cross_pool cross_priced empty_cross
  cross_pool-fraction pools inv expected =
      let v = Covers-classify_all (empty_cross inv) pools in
      elim (Bool-cases (is_empty (select is_priced pools))) [
        | inl e ↦ rw e v.fraction
        | inr e ↦ rw e (fraction-add_fraction _ _ inv.currency v.fraction ∙ cc (v.cost, v.platform))
      ]

  tenants-add_fraction :
      (cp : CrossPool F) (platform : Option F) (currency : String)
      → (add_fraction cp platform currency).tenants ≡ cp.tenants
  unfolding add_fraction
  tenants-add_fraction cp none currency = refl
  tenants-add_fraction cp (some p) currency = elim (Bool-cases (f.le cp.priced_cost_month p)) [
    | inl e ↦ rw e refl
    | inr e ↦ rw e refl
  ]

  -- `totals` after the loops over the pools
  abbrev pub final_totals : List (PoolAllocation F) → List String → Assoc String (TenantTotal F)
  final_totals priced expected =
      total_pools priced (map zero_total (universe_of (add_names [] expected) priced))

  pub tenants-cross_pool :
      (pools : List (PoolAllocation F)) (inv : Inventory F) (expected : List String)
      → (cross_pool pools inv expected).tenants ≡ (
          if is_empty (select is_priced pools)
          then []
          else sort_by total_less (
              keep_charged
                (total_of (map pool_cost (select is_priced pools)))
                (final_totals (select is_priced pools) expected)))
  unfolding cross_pool cross_priced empty_cross
  tenants-cross_pool pools inv expected =
      let v = Covers-classify_all (empty_cross inv) pools in
      elim (Bool-cases (is_empty (select is_priced pools))) [
        | inl e ↦ rw e v.tenants
        | inr e ↦ rw e (
            ap
              (λ c.
                sort_by total_less
                  (keep_charged c (final_totals (select is_priced pools) expected)))
              v.cost)
      ]
