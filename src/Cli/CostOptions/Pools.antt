-- ===== src/Cli/CostOptions/Pools.antt =====
-- The pools that `selectPools` gives for a text.
use mathlib.Core.Path.{fun_ext}
use obscost.Prelude.{
  String, Bool, true, false, ◌||◌, List, [], ◌∷◌, ◌≡◌, refl, sym, ap, ◌∙◌, arith, ◌==◌,
  string_comparable, is_empty, contains, select, split_on, All, All-select, Bool-cases, inl, inr,
}
use obscost.Cost.{PoolId, pool_order}
use obscost.Promapi.{trim_space}
use obscost.Cli.CostOptions.{
  Checked, passes, refuses, ◌>>=◌, names_in, split_tenants, want_pools, in_pool_order, select_pools,
}

abbrev pub IsPool : PoolId → Type 0
IsPool id = contains id pool_order ≡ true

-- A blank text stands for all pools. Another one names known pools only, at least one, and stands for
-- those that it names, in the order of the pools.
pub data Chosen (flag : String) (pools : List PoolId) : Type 0 where
  all_pools : trim_space flag ≡ "" → pools ≡ pool_order → Chosen flag pools
  named :
      (trim_space flag == "") ≡ false
      → All IsPool (split_tenants flag)
      → is_empty pools ≡ false
      → pools ≡ select (λ id. contains id (split_tenants flag)) pool_order
      → Chosen flag pools

pool_order-known : All IsPool pool_order
unfolding contains
pool_order-known = (refl, (refl, (refl, tt)))

pub Chosen-All : (flag : String) (pools : List PoolId) → Chosen flag pools → All IsPool pools
Chosen-All flag pools (all_pools blank same) = rw same pool_order-known
Chosen-All flag pools (named text known full same) =
    rw same (All-select IsPool (λ id. contains id (split_tenants flag)) pool_order pool_order-known)

module _ {F : Type 0} where
  want_pools-passes :
      (want : List PoolId) (raws : List String) (out : List PoolId)
      → want_pools {F = F} want raws ≡ passes out
      → All IsPool (names_in raws)
        × ((id : PoolId) → contains id out ≡ (contains id (names_in raws) || contains id want))
  unfolding want_pools names_in
  want_pools-passes want [] out h =
      let same : want ≡ out = cc h in (tt, λ id. ap (contains id) (sym same))
  want_pools-passes want (raw ∷ raws) out h = elim (Bool-cases (trim_space raw == "")) [
    | inl e ↦ rw e (want_pools-passes want raws out (rw e at h))
    | inr e ↦ elim (Bool-cases (contains (trim_space raw) pool_order)) [
      | inr k ↦ cc (rw (e, k) at h)
      | inl k ↦
          let (known, members) =
            want_pools-passes (trim_space raw ∷ want) raws out (rw (e, k) at h) in
          rw e ((k, known), λ id. members id ∙ (unfold contains in ground arith))
    ]
  ]

  in_pool_order-passes :
      (flag : String) (want pools : List PoolId)
      → in_pool_order {F = F} flag want ≡ passes pools
      → (is_empty pools ≡ false) × (pools ≡ select (λ id. contains id want) pool_order)
  in_pool_order-passes flag want pools h =
      elim (Bool-cases (is_empty (select (λ id. contains id want) pool_order))) [
        | inl e ↦ cc (rw e at h)
        | inr e ↦
            let same : select (λ id. contains id want) pool_order ≡ pools = cc (rw e at h) in
            (rw same at e, sym same)
      ]

  Chosen-want :
      (flag : String) (pools : List PoolId) (c : Checked F (List PoolId))
      → (trim_space flag == "") ≡ false
      → want_pools [] (split_on 44 flag) ≡ c
      → (c >>= in_pool_order flag) ≡ passes pools
      → Chosen flag pools
  unfolding split_tenants
  Chosen-want flag pools (refuses e) text w h = cc h
  Chosen-want flag pools (passes want) text w h =
      let (known, members) = want_pools-passes [] (split_on 44 flag) want w in
      let (full, same) = in_pool_order-passes flag want pools h in
      named text known full (
        same
        ∙ ap (λ p. select p pool_order)
            (fun_ext λ id. members id ∙ (unfold contains in ground arith)))

  pub Chosen-select_pools :
      (flag : String) (pools : List PoolId)
      → select_pools {F = F} flag ≡ passes pools
      → Chosen flag pools
  unfolding select_pools
  Chosen-select_pools flag pools h = elim (Bool-cases (trim_space flag == "")) [
    | inl e ↦ all_pools ((string_comparable.equal_iff (trim_space flag) "").0 e) (cc (rw e at h))
    | inr e ↦ Chosen-want flag pools (want_pools [] (split_on 44 flag)) e refl (rw e at h)
  ]

  -- Known pools are all collected.
  want_pools-IsPool :
      (want : List PoolId) (raws : List String)
      → All IsPool (names_in raws)
      → (out : List PoolId) × (want_pools {F = F} want raws ≡ passes out)
  unfolding want_pools names_in
  want_pools-IsPool want [] known = (want, refl)
  want_pools-IsPool want (raw ∷ raws) known = elim (Bool-cases (trim_space raw == "")) [
    | inl e ↦ rw e (want_pools-IsPool want raws (rw e at known))
    | inr e ↦
        let here_and_later : IsPool (trim_space raw) × All IsPool (names_in raws) = rw e at known in
        rw (e, here_and_later.0) (want_pools-IsPool (trim_space raw ∷ want) raws here_and_later.1)
  ]

  pub select_pools-Chosen :
      (flag : String) (pools : List PoolId)
      → Chosen flag pools
      → select_pools {F = F} flag ≡ passes pools
  unfolding select_pools split_tenants
  select_pools-Chosen flag pools (all_pools blank same) = rw (blank, same) refl
  select_pools-Chosen flag pools (named text known full same) =
      let (want, collected) = want_pools-IsPool [] (split_on 44 flag) known in
      let (_, members) = want_pools-passes [] (split_on 44 flag) want collected in
      let tests : ◌≡◌ {A = PoolId → Bool} (λ id. contains id want)
          (λ id. contains id (names_in (split_on 44 flag))) =
        fun_ext λ id. members id ∙ (unfold contains in ground arith) in
      let chosen : select (λ id. contains id want) pool_order ≡ pools =
        ap (λ p. select p pool_order) tests ∙ sym same in
      rw (text, collected, chosen, full) refl
