-- ===== src/Cost/Price/Charged/Loop.antt =====
-- The loop of `priceComponents`, round by round: what it has added up, left out and counted.
use mathlib.Core.List.{append-nil, append_assoc}
use obscost.Prelude.{
  ℕ, zero, suc, ◌+◌, String, false, Option, none, some, List, [], ◌∷◌, ◌++◌, ◌≡◌, refl, sym, ap,
  ◌∙◌, arith, is_some, is_empty, select, select-append, length, length-append, if◌then◌else◌,
  string_comparable, Bool-cases, inl, inr,
}
use obscost.Prelude.Int.{ℤ}
use obscost.Prelude.Map.{get}
use obscost.Float.{Float, nought, sum_from, total_of}
use obscost.Cost.{
  Pool, ComponentInventory, PoolInventory, Inventory, ComponentAllocation, PoolAllocation,
}
use obscost.Cost.Price.{
  priced_count, component_cost, supplied_step, component_step, price_loop, finish_components,
  partial_note, price_components,
}
use obscost.Cost.Price.Charged.{
  Charge, charge_view, charged, cost_case, component_cost_lem, cost_of, costs_of, unpriced_of,
  some_total,
}

module _ {F : Type 0} ⦃f : Float F⦄ where
  abbrev plus_cost : F → Option F → F
  plus_cost t none = t
  plus_cost t (some x) = f.add t x

  abbrev left_out_by : String → Option F → List String
  left_out_by name none = name ∷ []
  left_out_by name (some x) = []

  abbrev count_by : Option F → ℕ
  count_by none = 0
  count_by (some x) = 1

  -- What the loop has left out and counted so far.
  record IsAfter (a b : PoolAllocation F) (names : List String) (n : ℕ) : Type 0 where
    costed : b.costed ≡ a.costed
    cost : b.pool_cost_month ≡ a.pool_cost_month
    replicas : b.replicas ≡ a.replicas
    unpriced : b.unpriced_components ≡ a.unpriced_components ++ names
    counted : priced_count b ≡ priced_count a + n

  count-append :
      (a : PoolAllocation F) (c : ComponentAllocation F)
      → length (select (λ x. is_some x.cost_month) (a.components ++ c ∷ []))
        ≡ priced_count a + (if is_some c.cost_month then 1 else 0)
  unfolding select
  count-append a c = rw select-append (rw length-append (ground arith))

  supplied-IsAfter :
      (inv : Inventory F) (a : PoolAllocation F) (t : F) (name : String) (c : ComponentInventory F)
      (x : Option F)
      → IsAfter a (supplied_step inv a t name c x).0 (left_out_by name x) (count_by x)
  unfolding supplied_step
  supplied-IsAfter inv a t name c none = record {
    costed = refl;
    cost = refl;
    replicas = refl;
    unpriced = refl;
    counted = count-append a _;
  }
  supplied-IsAfter inv a t name c (some x) = record {
    costed = refl;
    cost = refl;
    replicas = refl;
    unpriced = sym (append-nil a.unpriced_components);
    counted = count-append a _;
  }

  step-IsAfter :
      (inv : Inventory F) (a : PoolAllocation F) (t : F) (name : String)
      (c : Option (ComponentInventory F))
      → IsAfter a
          (component_step inv a t name c).0
          (left_out_by name (cost_case c))
          (count_by (cost_case c))
  unfolding component_step cost_case
  step-IsAfter inv a t name none = record {
    costed = refl;
    cost = refl;
    replicas = refl;
    unpriced = refl;
    counted = omega arith;
  }
  step-IsAfter inv a t name (some c) =
      rw (← component_cost_lem c) (supplied-IsAfter inv a t name c (component_cost c))

  supplied-total :
      (inv : Inventory F) (a : PoolAllocation F) (t : F) (name : String) (c : ComponentInventory F)
      (x : Option F)
      → (supplied_step inv a t name c x).1 ≡ plus_cost t x
  unfolding supplied_step
  supplied-total inv a t name c none = refl
  supplied-total inv a t name c (some x) = refl

  step-total :
      (inv : Inventory F) (a : PoolAllocation F) (t : F) (name : String)
      (c : Option (ComponentInventory F))
      → (component_step inv a t name c).1 ≡ plus_cost t (cost_case c)
  unfolding component_step cost_case
  step-total inv a t name none = refl
  step-total inv a t name (some c) =
      rw (← component_cost_lem c) (supplied-total inv a t name c (component_cost c))

  sum_from-costs :
      (pinv : PoolInventory F) (t : F) (name : String) (names : List String)
      → sum_from (plus_cost t (cost_of pinv name)) (costs_of pinv names)
        ≡ sum_from t (costs_of pinv (name ∷ names))
  unfolding costs_of sum_from
  sum_from-costs pinv t name names = ground arith

  loop-total :
      (inv : Inventory F) (pinv : PoolInventory F) (a : PoolAllocation F) (t : F)
      (names : List String)
      → (price_loop inv pinv a t names).1 ≡ sum_from t (costs_of pinv names)
  unfolding price_loop costs_of sum_from
  loop-total inv pinv a t [] = refl
  loop-total inv pinv a t (name ∷ names) =
      let c = get name pinv.components in
      let s = component_step inv a t name c in
      loop-total inv pinv s.0 s.1 names
      ∙ ap (λ u. sum_from u (costs_of pinv names)) (step-total inv a t name c)
      ∙ sum_from-costs pinv t name names

  IsAfter-trans :
      {a b c : PoolAllocation F} {ns ms : List String} {n m : ℕ}
      → IsAfter a b ns n
      → IsAfter b c ms m
      → IsAfter a c (ns ++ ms) (n + m)
  IsAfter-trans {a} {ns = ns} {ms = ms} h k = record {
    costed = k.costed ∙ h.costed;
    cost = k.cost ∙ h.cost;
    replicas = k.replicas ∙ h.replicas;
    unpriced = k.unpriced ∙ ap (λ u. u ++ ms) h.unpriced ∙ append_assoc a.unpriced_components ns ms;
    counted = omega (arith, h.counted, k.counted);
  }

  -- One name more is left out, or counted.
  cons-unpriced :
      (pinv : PoolInventory F) (name : String) (names : List String)
      → unpriced_of pinv (name ∷ names)
        ≡ left_out_by name (cost_of pinv name) ++ unpriced_of pinv names
  unfolding select
  cons-unpriced pinv name names = ground arith

  cons-count :
      (pinv : PoolInventory F) (name : String) (names : List String)
      → length (costs_of pinv (name ∷ names))
        ≡ count_by (cost_of pinv name) + length (costs_of pinv names)
  unfolding costs_of
  cons-count pinv name names = ground arith

  loop-IsAfter :
      (inv : Inventory F) (pinv : PoolInventory F) (a : PoolAllocation F) (t : F)
      (names : List String)
      → IsAfter a
          (price_loop inv pinv a t names).0
          (unpriced_of pinv names)
          (length (costs_of pinv names))
  unfolding price_loop select costs_of
  loop-IsAfter inv pinv a t [] = record {
    costed = refl;
    cost = refl;
    replicas = refl;
    unpriced = sym (append-nil a.unpriced_components);
    counted = omega arith;
  }
  loop-IsAfter inv pinv a t (name ∷ names) =
      let c = get name pinv.components in
      let s = component_step inv a t name c in
      rw (cons-unpriced pinv name names, cons-count pinv name names)
        (IsAfter-trans (step-IsAfter inv a t name c) (loop-IsAfter inv pinv s.0 s.1 names))

  partial_note-charge :
      (a : PoolAllocation F) (pool : Pool) → charge_view (partial_note a pool) ≡ charge_view a
  unfolding partial_note
  partial_note-charge a pool = elim (Bool-cases (is_empty a.unpriced_components)) [
    | inl e ↦ rw e
    | inr e ↦ rw e
  ]

  abbrev counted_total : ℕ → F → Option F
  counted_total zero t = none
  counted_total (suc n) t = some t

  finish-charge :
      (a : PoolAllocation F) (t : F) (pool : Pool) (n : ℕ)
      → a.costed ≡ false
      → a.pool_cost_month ≡ none
      → charge_view (finish_components a t pool n)
        ≡ charged (counted_total n t) a.unpriced_components a.replicas
  unfolding finish_components
  finish-charge a t pool zero h k = cc
  finish-charge a t pool (suc n) h k = partial_note-charge _ pool

  charged_eq :
      (cs : List F) (n : ℕ) (t : F) {us vs : List String} {p q : Option ℤ}
      → n ≡ length cs
      → t ≡ total_of cs
      → us ≡ vs
      → p ≡ q
      → charged (counted_total n t) us p ≡ charged (some_total cs) vs q
  charged_eq [] zero t e k h l = cc
  charged_eq [] (suc n) t e k h l = absurd (omega arith)
  charged_eq (c ∷ cs) zero t e k h l = absurd (omega arith)
  charged_eq (c ∷ cs) (suc n) t e k h l = cc

  pub price_components-charge :
      (a : PoolAllocation F) (pool : Pool) (inv : Inventory F) (pinv : PoolInventory F)
      → charge_view a ≡ charged none [] none
      → priced_count a ≡ 0
      → charge_view (price_components a pool inv pinv)
        ≡ charged
            (some_total (costs_of pinv pool.components))
            (unpriced_of pinv pool.components)
            none
  unfolding price_components
  price_components-charge a pool inv pinv h z =
      let s = price_loop inv pinv a nought pool.components in
      let after = loop-IsAfter inv pinv a nought pool.components in
      let costs = costs_of pinv pool.components in
      let n-eq : priced_count s.0 ≡ length costs = omega (arith, after.counted) in
      finish-charge s.0 s.1 pool (priced_count s.0)
        (after.costed ∙ ap (λ (c : Charge F). c.costed) h)
        (after.cost ∙ ap (λ (c : Charge F). c.pool_cost_month) h)
      ∙ charged_eq costs (priced_count s.0) s.1 n-eq (loop-total inv pinv a nought pool.components)
          (after.unpriced
            ∙ ap (λ (c : Charge F). c.unpriced_components ++ unpriced_of pinv pool.components) h)
          (after.replicas ∙ ap (λ (c : Charge F). c.replicas) h)
