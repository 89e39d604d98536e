-- ===== src/Cost/Total/Cross/Universe.antt =====
-- The tenants of a cross-pool total: `universe` of internal/cost/total.go, and the keys of `totals`.
use obscost.Prelude.{
  String, true, Option, none, some, List, [], ◌∷◌, map, ◌≡◌, refl, ap, ◌∙◌, arith, ◌==◌,
  string_comparable, Bool-cases, inl, inr, contains, All, All-imp, contains-keys,
}
use obscost.Prelude.Map.{Assoc, keys}
use obscost.Float.{Float}
use obscost.Cost.{PoolId, TenantShare, PoolAllocation}
use obscost.Cost.Total.{TenantTotal, adjust}
use obscost.Prelude.Names.{add_names, contains-add_names}
use obscost.Cost.Total.Cross.{
  tenant_names, universe_of, zero_total, add_cost, charge_one, charge_pool, mark_missing,
}

keys-adjust {ℓ} :
    {V : Type ℓ} (k : String) (g : V → V) (m : Assoc String V) → keys (adjust k g m) ≡ keys m
unfolding adjust
keys-adjust k g [] = refl
keys-adjust k g ((j, v) ∷ m) = elim (Bool-cases (k == j)) [
  | inl e ↦ rw e refl
  | inr e ↦ rw e (ap (λ ks. j ∷ ks) (keys-adjust k g m))
]

pub keys-zero_total :
    (F : Type 0) ⦃f : Float F⦄ (ns : List String) → keys (map (zero_total {F = F}) ns) ≡ ns
keys-zero_total F [] = refl
keys-zero_total F (n ∷ ns) = ap (λ ks. n ∷ ks) (keys-zero_total F ns)

module _ {F : Type 0} ⦃f : Float F⦄ where
  universe-grows :
      (t : String) (ns : List String) (pools : List (PoolAllocation F))
      → contains t ns ≡ true
      → contains t (universe_of ns pools) ≡ true
  unfolding universe_of
  universe-grows t ns [] h = h
  universe-grows t ns (a ∷ pools) h =
      universe-grows t (add_names ns (tenant_names a)) pools
        (ground (arith, contains-add_names t ns (tenant_names a)))

  -- Every tenant of a pool is among the names.
  abbrev pub AreKnown : List String → List (TenantShare F) → Type 0
  AreKnown names = All (λ t. contains t.tenant names ≡ true)

  pub universe-AreKnown :
      (ns : List String) (pools : List (PoolAllocation F))
      → All (λ a. AreKnown (universe_of ns pools) a.tenants) pools
  unfolding universe_of
  universe-AreKnown ns [] = tt
  universe-AreKnown ns (a ∷ pools) = (
    All-imp
        (λ t h.
          universe-grows t.tenant (add_names ns (tenant_names a)) pools
            (ground (arith, contains-add_names t.tenant ns (tenant_names a))))
        a.tenants (contains-keys (λ t. t.tenant) a.tenants),
    universe-AreKnown (add_names ns (tenant_names a)) pools,
  )

  pub keys-charge_one :
      (id : PoolId) (t : TenantShare F) (m : Assoc String (TenantTotal F))
      → keys (charge_one id t m) ≡ keys m
  unfolding charge_one
  keys-charge_one id t m = go t.cost
    where
      go :
          (c : Option F)
          → keys (elim c [ none ↦ m | some x ↦ adjust t.tenant (add_cost id x) m ]) ≡ keys m
      go none = refl
      go (some x) = keys-adjust t.tenant (add_cost id x) m

  pub keys-charge_pool :
      (id : PoolId) (ts : List (TenantShare F)) (m : Assoc String (TenantTotal F))
      → keys (charge_pool id ts m) ≡ keys m
  unfolding charge_pool
  keys-charge_pool id [] m = refl
  keys-charge_pool id (t ∷ ts) m =
      keys-charge_pool id ts (charge_one id t m) ∙ keys-charge_one id t m

  pub keys-mark_missing :
      (id : PoolId) (ns : List String) (m : Assoc String (TenantTotal F))
      → keys (mark_missing id ns m) ≡ keys m
  unfolding mark_missing
  keys-mark_missing id ns [] = refl
  keys-mark_missing id ns ((t, v) ∷ m) = ap (λ ks. t ∷ ks) (keys-mark_missing id ns m)
