-- ===== src/Cost/Total/Cross/Missing.antt =====
-- In which priced pools a tenant of the total was not measured.
use mathlib.Core.List.{append_assoc, append-nil}
use obscost.Prelude.{
  String, not, Option, none, some, List, [], ◌∷◌, ◌++◌, map, ◌≡◌, refl, sym, ap, ◌∙◌, if◌then◌else◌,
  ◌==◌, string_comparable, Bool-cases, inl, inr, is_empty, contains, select, All,
}
use obscost.Prelude.Sort.{sort_by-All}
use obscost.Prelude.Map.{Assoc}
use obscost.Float.{Float, total_of}
use obscost.Cost.{PoolId, Inventory, TenantShare, PoolAllocation}
use obscost.Prelude.Names.{add_names}
use obscost.Cost.Total.{TenantTotal, adjust}
use obscost.Cost.Total.Cross.{
  pool_cost, is_priced, ids, tenant_names, universe_of, zero_total, add_cost, charge_one,
  charge_pool, mark_missing, total_pools, keep_charged, total_less, cross_pool,
}
use obscost.Cost.Total.Cross.Pools.{final_totals, tenants-cross_pool}

module _ {F : Type 0} ⦃f : Float F⦄ where
  -- The pools that did not measure a tenant, in their order.
  abbrev pub missed_by : String → List (PoolAllocation F) → List PoolId
  missed_by t pools = ids (select (λ a. not (contains t (tenant_names a))) pools)

  abbrev Missed : List PoolId → String → TenantTotal F → Type 0
  Missed missed t v = (v.tenant ≡ t) × (v.not_measured_in ≡ missed)

  -- What holds of the entries after the pools that are done.
  abbrev AreMissed : (String → List PoolId) → Assoc String (TenantTotal F) → Type 0
  AreMissed missed [] = Unit
  AreMissed missed ((t, v) ∷ m) = Missed (missed t) t v × AreMissed missed m

  AreMissed-adjust :
      (missed : String → List PoolId) (k : String) (id : PoolId) (c : F)
      (m : Assoc String (TenantTotal F))
      → AreMissed missed m
      → AreMissed missed (adjust k (add_cost id c) m)
  unfolding adjust
  AreMissed-adjust missed k id c [] h = tt
  AreMissed-adjust missed k id c ((j, v) ∷ m) (h, hs) = elim (Bool-cases (k == j)) [
    | inl e ↦ rw e (h, hs)
    | inr e ↦ rw e (h, AreMissed-adjust missed k id c m hs)
  ]

  AreMissed-charge_one :
      (missed : String → List PoolId) (id : PoolId) (t : TenantShare F)
      (m : Assoc String (TenantTotal F))
      → AreMissed missed m
      → AreMissed missed (charge_one id t m)
  unfolding charge_one
  AreMissed-charge_one missed id t m h = go t.cost
    where
      go :
          (c : Option F)
          → AreMissed missed (elim c [ none ↦ m | some x ↦ adjust t.tenant (add_cost id x) m ])
      go none = h
      go (some x) = AreMissed-adjust missed t.tenant id x m h

  AreMissed-charge_pool :
      (missed : String → List PoolId) (id : PoolId) (ts : List (TenantShare F))
      (m : Assoc String (TenantTotal F))
      → AreMissed missed m
      → AreMissed missed (charge_pool id ts m)
  unfolding charge_pool
  AreMissed-charge_pool missed id [] m h = h
  AreMissed-charge_pool missed id (t ∷ ts) m h =
      AreMissed-charge_pool missed id ts (charge_one id t m) (AreMissed-charge_one missed id t m h)

  AreMissed-mark_missing :
      (missed : String → List PoolId) (id : PoolId) (ns : List String)
      (m : Assoc String (TenantTotal F))
      → AreMissed missed m
      → AreMissed (λ t. missed t ++ (if contains t ns then [] else id ∷ [])) (mark_missing id ns m)
  unfolding mark_missing
  AreMissed-mark_missing missed id ns [] h = tt
  AreMissed-mark_missing missed id ns ((t, v) ∷ m) ((same, h), hs) =
      let rest = AreMissed-mark_missing missed id ns m hs in
      elim (Bool-cases (contains t ns)) [
        | inl e ↦ rw e ((same, h ∙ sym (append-nil (missed t))), rest)
        | inr e ↦ rw e ((same, ap (λ xs. xs ++ id ∷ []) h), rest)
      ]

  AreMissed-imp :
      (p q : String → List PoolId)
      → ((t : String) → p t ≡ q t)
      → (m : Assoc String (TenantTotal F)) → AreMissed p m
      → AreMissed q m
  AreMissed-imp p q same [] h = tt
  AreMissed-imp p q same ((t, v) ∷ m) ((e, h), hs) = ((e, h ∙ same t), AreMissed-imp p q same m hs)

  missed-step :
      (missed : String → List PoolId) (a : PoolAllocation F) (pools : List (PoolAllocation F))
      (t : String)
      → (missed t ++ (if contains t (tenant_names a) then [] else a.pool.id ∷ []))
          ++ missed_by t pools
        ≡ missed t ++ missed_by t (a ∷ pools)
  unfolding select
  missed-step missed a pools t = elim (Bool-cases (contains t (tenant_names a))) [
    | inl e ↦ rw e (append_assoc (missed t) [] (missed_by t pools))
    | inr e ↦ rw e (append_assoc (missed t) (a.pool.id ∷ []) (missed_by t pools))
  ]

  AreMissed-total_pools :
      (pools : List (PoolAllocation F)) (missed : String → List PoolId)
      (m : Assoc String (TenantTotal F))
      → AreMissed missed m
      → AreMissed (λ t. missed t ++ missed_by t pools) (total_pools pools m)
  unfolding total_pools select
  AreMissed-total_pools [] missed m h =
      AreMissed-imp missed _ (λ t. sym (append-nil (missed t))) m h
  AreMissed-total_pools (a ∷ pools) missed m h = AreMissed-imp _ _ (missed-step missed a pools) _ (
      AreMissed-total_pools pools
        (λ t. missed t ++ (if contains t (tenant_names a) then [] else a.pool.id ∷ [])) _
        (AreMissed-mark_missing missed a.pool.id (tenant_names a) _
          (AreMissed-charge_pool missed a.pool.id a.tenants m h)))

AreMissed-zero_total :
    (F : Type 0) ⦃f : Float F⦄ (ns : List String)
    → AreMissed (λ t. []) (map (zero_total {F = F}) ns)
AreMissed-zero_total F [] = tt
AreMissed-zero_total F (n ∷ ns) = ((refl, refl), AreMissed-zero_total F ns)

module _ {F : Type 0} ⦃f : Float F⦄ where
  keep_charged-missed :
      (pools : List (PoolAllocation F)) (c : F) (m : Assoc String (TenantTotal F))
      → AreMissed (λ t. missed_by t pools) m
      → All (λ v. v.not_measured_in ≡ missed_by v.tenant pools) (keep_charged c m)
  unfolding keep_charged
  keep_charged-missed pools c [] h = tt
  keep_charged-missed pools c ((t, v) ∷ m) ((e, h), hs) = elim (Bool-cases (is_empty v.pools)) [
    | inl idle ↦ rw idle (keep_charged-missed pools c m hs)
    | inr idle ↦ rw idle (rw e h, keep_charged-missed pools c m hs)
  ]

  -- A tenant of the total is listed as not measured in exactly the priced pools that have no share
  -- for it, in the order of the pools.
  pub not_measured_in_lem :
      (pools : List (PoolAllocation F)) (inv : Inventory F) (expected : List String)
      → All
          (λ t. t.not_measured_in ≡ missed_by t.tenant (select is_priced pools))
          (cross_pool pools inv expected).tenants
  not_measured_in_lem pools inv expected =
      let priced = select is_priced pools in
      let c = total_of (map pool_cost priced) in
      rw (tenants-cross_pool pools inv expected) (elim (Bool-cases (is_empty priced)) [
        | inl e ↦ rw e tt
        | inr e ↦ rw e (
            sort_by-All total_less (λ t. t.not_measured_in ≡ missed_by t.tenant priced)
              (keep_charged c (final_totals priced expected))
              (keep_charged-missed priced c (final_totals priced expected) (
                AreMissed-total_pools priced (λ t. []) _
                  (AreMissed-zero_total F (universe_of (add_names [] expected) priced)))))
      ])
