-- ===== src/Cost/Total/Cross/Sums.antt =====
-- What the loops of `crossPool` do to the sum of the tenants' costs.
use obscost.Prelude.{
  String, true, false, Option, none, some, List, [], ◌∷◌, ◌++◌, ◌≡◌, refl, sym, ap, ◌∙◌, arith,
  ◌==◌, string_comparable, Bool-cases, inl, inr, is_empty, contains, All,
}
use obscost.Prelude.Map.{Assoc, keys}
use obscost.Float.{Float, nought, IsExact}
use obscost.Float.Sums.{add-zero}
use obscost.Cost.{PoolId, TenantShare, PoolAllocation}
use obscost.Cost.Allocate.Shares.{value_of}
use obscost.Cost.Total.{TenantTotal, adjust}
use obscost.Cost.Total.Cross.{
  tenant_names, add_cost, charge_one, charge_pool, mark_missing, total_pools,
}
use obscost.Cost.Total.Cross.Universe.{
  AreKnown, keys-charge_one, keys-charge_pool, keys-mark_missing,
}

is_empty-snoc {ℓ} : {A : Type ℓ} (xs : List A) (x : A) → is_empty (xs ++ x ∷ []) ≡ false
is_empty-snoc [] x = refl
is_empty-snoc (y ∷ xs) x = refl

module _ {F : Type 0} ⦃f : Float F⦄ where
  -- Sums from the right, which induction follows.
  abbrev pub cost_sum : Assoc String (TenantTotal F) → F
  cost_sum [] = nought
  cost_sum ((t, v) ∷ m) = f.add v.cost_month (cost_sum m)

  abbrev pub charged_sum : List (TenantShare F) → F
  charged_sum [] = nought
  charged_sum (t ∷ ts) = f.add (value_of t.cost) (charged_sum ts)

  abbrev pub pools_sum : List (PoolAllocation F) → F
  pools_sum [] = nought
  pools_sum (a ∷ pools) = f.add (charged_sum a.tenants) (pools_sum pools)

  -- A tenant that no pool charged has no cost.
  abbrev IsIdle : TenantTotal F → Type 0
  IsIdle v = is_empty v.pools ≡ true → v.cost_month ≡ nought

  abbrev pub AreIdle : Assoc String (TenantTotal F) → Type 0
  AreIdle [] = Unit
  AreIdle ((t, v) ∷ m) = IsIdle v × AreIdle m

  IsIdle-add_cost : (id : PoolId) (c : F) (v : TenantTotal F) → IsIdle (add_cost id c v)
  IsIdle-add_cost id c v h = cc (h, is_empty-snoc v.pools (record { pool = id; cost_month = c }))

  AreIdle-adjust :
      (k : String) (id : PoolId) (c : F) (m : Assoc String (TenantTotal F))
      → AreIdle m
      → AreIdle (adjust k (add_cost id c) m)
  unfolding adjust
  AreIdle-adjust k id c [] h = tt
  AreIdle-adjust k id c ((j, v) ∷ m) (h, hs) = elim (Bool-cases (k == j)) [
    | inl e ↦ rw e (IsIdle-add_cost id c v, hs)
    | inr e ↦ rw e (h, AreIdle-adjust k id c m hs)
  ]

  AreIdle-charge_one :
      (id : PoolId) (t : TenantShare F) (m : Assoc String (TenantTotal F))
      → AreIdle m
      → AreIdle (charge_one id t m)
  unfolding charge_one
  AreIdle-charge_one id t m h = go t.cost
    where
      go :
          (c : Option F)
          → AreIdle (elim c [ none ↦ m | some x ↦ adjust t.tenant (add_cost id x) m ])
      go none = h
      go (some x) = AreIdle-adjust t.tenant id x m h

  AreIdle-charge_pool :
      (id : PoolId) (ts : List (TenantShare F)) (m : Assoc String (TenantTotal F))
      → AreIdle m
      → AreIdle (charge_pool id ts m)
  unfolding charge_pool
  AreIdle-charge_pool id [] m h = h
  AreIdle-charge_pool id (t ∷ ts) m h =
      AreIdle-charge_pool id ts (charge_one id t m) (AreIdle-charge_one id t m h)

  AreIdle-mark_missing :
      (id : PoolId) (ns : List String) (m : Assoc String (TenantTotal F))
      → AreIdle m
      → AreIdle (mark_missing id ns m)
  unfolding mark_missing
  AreIdle-mark_missing id ns [] h = tt
  AreIdle-mark_missing id ns ((t, v) ∷ m) (h, hs) = elim (Bool-cases (contains t ns)) [
    | inl e ↦ rw e (h, AreIdle-mark_missing id ns m hs)
    | inr e ↦ rw e (h, AreIdle-mark_missing id ns m hs)
  ]

  pub AreIdle-total_pools :
      (pools : List (PoolAllocation F)) (m : Assoc String (TenantTotal F))
      → AreIdle m
      → AreIdle (total_pools pools m)
  unfolding total_pools
  AreIdle-total_pools [] m h = h
  AreIdle-total_pools (a ∷ pools) m h = AreIdle-total_pools pools _ (
      AreIdle-mark_missing a.pool.id (tenant_names a) _
        (AreIdle-charge_pool a.pool.id a.tenants m h))

  module _ (exact : IsExact F) where
    open exact use {add_comm, add_assoc, zero-add}

    sum-adjust :
        (k : String) (id : PoolId) (c : F) (m : Assoc String (TenantTotal F))
        → contains k (keys m) ≡ true
        → cost_sum (adjust k (add_cost id c) m) ≡ f.add (cost_sum m) c
    unfolding adjust contains
    sum-adjust k id c [] h = cc
    sum-adjust k id c ((j, v) ∷ m) h = elim (Bool-cases (k == j)) [
      | inl e ↦ rw e (
          add_assoc v.cost_month c (cost_sum m)
          ∙ ap (f.add v.cost_month) (add_comm c (cost_sum m))
          ∙ sym (add_assoc v.cost_month (cost_sum m) c))
      | inr e ↦ rw e (
          ap (f.add v.cost_month) (sum-adjust k id c m (ground arith))
          ∙ sym (add_assoc v.cost_month (cost_sum m) c))
    ]

    sum-charge_one :
        (id : PoolId) (t : TenantShare F) (m : Assoc String (TenantTotal F))
        → contains t.tenant (keys m) ≡ true
        → cost_sum (charge_one id t m) ≡ f.add (cost_sum m) (value_of t.cost)
    unfolding charge_one
    sum-charge_one id t m h = go t.cost
      where
        go :
            (c : Option F)
            → cost_sum (elim c [ none ↦ m | some x ↦ adjust t.tenant (add_cost id x) m ])
              ≡ f.add (cost_sum m) (value_of c)
        go none = sym (add-zero exact (cost_sum m))
        go (some x) = sum-adjust t.tenant id x m h

    sum-charge_pool :
        (id : PoolId) (names : List String) (ts : List (TenantShare F))
        (m : Assoc String (TenantTotal F))
        → keys m ≡ names
        → AreKnown names ts
        → cost_sum (charge_pool id ts m) ≡ f.add (cost_sum m) (charged_sum ts)
    unfolding charge_pool
    sum-charge_pool id names [] m e h = sym (add-zero exact (cost_sum m))
    sum-charge_pool id names (t ∷ ts) m e (h, hs) =
        sum-charge_pool id names ts (charge_one id t m) (keys-charge_one id t m ∙ e) hs
        ∙ ap (λ x. f.add x (charged_sum ts)) (sum-charge_one id t m (rw e h))
        ∙ add_assoc (cost_sum m) (value_of t.cost) (charged_sum ts)

    sum-mark_missing :
        (id : PoolId) (ns : List String) (m : Assoc String (TenantTotal F))
        → cost_sum (mark_missing id ns m) ≡ cost_sum m
    unfolding mark_missing
    sum-mark_missing id ns [] = refl
    sum-mark_missing id ns ((t, v) ∷ m) = elim (Bool-cases (contains t ns)) [
      | inl e ↦ rw e (ap (f.add v.cost_month) (sum-mark_missing id ns m))
      | inr e ↦ rw e (ap (f.add v.cost_month) (sum-mark_missing id ns m))
    ]

    pub sum-total_pools :
        (names : List String) (pools : List (PoolAllocation F)) (m : Assoc String (TenantTotal F))
        → keys m ≡ names
        → All (λ a. AreKnown names a.tenants) pools
        → cost_sum (total_pools pools m) ≡ f.add (cost_sum m) (pools_sum pools)
    unfolding total_pools
    sum-total_pools names [] m e h = sym (add-zero exact (cost_sum m))
    sum-total_pools names (a ∷ pools) m e (h, hs) =
        let charged = charge_pool a.pool.id a.tenants m in
        sum-total_pools names pools (mark_missing a.pool.id (tenant_names a) charged)
          (keys-mark_missing a.pool.id (tenant_names a) charged
            ∙ keys-charge_pool a.pool.id a.tenants m
            ∙ e)
          hs
        ∙ ap (λ x. f.add x (pools_sum pools))
            (sum-mark_missing a.pool.id (tenant_names a) charged
              ∙ sum-charge_pool a.pool.id names a.tenants m e h)
        ∙ add_assoc (cost_sum m) (charged_sum a.tenants) (pools_sum pools)
