-- ===== src/Cost/Validate/Validity.antt =====
-- The inventories that `Inventory.Validate` accepts, described without its order of checks.
use obscost.Prelude.{
  String, true, Option, none, some, List, [], ◌∷◌, ◌≡◌, ◌↔◌, ◌⊎◌, refl, sym, ◌∙◌, arith,
  if◌then◌else◌, string_comparable, Bool-cases, Option-cases, inl, inr, is_some, is_empty, contains,
  equal_refl, str_lt,
}
use obscost.Prelude.Int.{ℤ}
use obscost.Prelude.Sort.{sort_by}
use obscost.Prelude.Map.{Assoc, keys, get}
use obscost.Float.{Float}
use obscost.Cost.{PoolId, Pool, known_pools, ComponentInventory, PoolInventory, Inventory}
use obscost.Cost.Validate.{
  InventoryError, validate_component, validate_given, validate_form, validate_known, validate_pool,
  first_error, validate, at_component, single_component, replication_factor_below_one,
  platform_cost_not_positive, platform_cost_without_currency, at_pool,
}
use obscost.Cost.Validate.Defensible.{
  orelse_iff, first_error_sound, first_error_complete, sorted_key, IsComponent, IsSplit, IsKnown,
  IsPool, IsDefensible, below_one_iff, not_defensible_iff, check_evaluation_iff, validate_price_iff,
}

no_components :
    (components : List String) (name : String)
    → is_empty components ≡ true
    → contains name components ≡ true
    → ⊥
unfolding contains
no_components [] name e h = cc h
no_components (c ∷ cs) name e h = cc e

module _ {F : Type 0} ⦃f : Float F⦄ where
  module _ (id : PoolId) (pool : Pool) (cs : Assoc String (ComponentInventory F))
      (currency : String) where
    given_sound :
        (name : String) (o : Option (ComponentInventory F))
        → contains name pool.components ≡ true
        → validate_given id name currency o ≡ none
        → IsComponent currency pool name o
    unfolding validate_given
    given_sound name none e h = tt
    given_sound name (some c) e h = (
      e,
      (validate_price_iff (at_component id name) c.replicas c.cost_per_replica_month currency).0 h,
    )

    IsComponent-sound :
        (name : String)
        → validate_component id pool cs currency name ≡ none
        → IsComponent currency pool name (get name cs)
    unfolding validate_component
    IsComponent-sound name h = elim (Bool-cases (contains name pool.components)) [
      | inl e ↦ given_sound name (get name cs) e (ground arith)
      | inr e ↦ ground arith
    ]

    component_complete :
        (name : String) (o : Option (ComponentInventory F))
        → get name cs ≡ o
        → is_some o ≡ true
        → IsComponent currency pool name o
        → validate_component id pool cs currency name ≡ none
    unfolding validate_component validate_given
    component_complete name none e k h = cc k
    component_complete name (some c) e k (known, h) =
        rw (e, known)
          ((validate_price_iff (at_component id name) c.replicas c.cost_per_replica_month
              currency).1
            h)

    components_sound :
        first_error (validate_component id pool cs currency) (sort_by str_lt (keys cs)) ≡ none
        → (name : String) → IsComponent currency pool name (get name cs)
    components_sound h name = elim (Option-cases (get name cs)) [
      | inl e ↦ rw e tt
      | inr (c, e) ↦ IsComponent-sound name (
          first_error_sound (validate_component id pool cs currency) (sort_by str_lt (keys cs)) h
            name (sorted_key name cs (some c) e))
    ]

    components_complete :
        ((name : String) → IsComponent currency pool name (get name cs))
        → first_error (validate_component id pool cs currency) (sort_by str_lt (keys cs)) ≡ none
    components_complete h =
        first_error_complete (validate_component id pool cs currency) (sort_by str_lt (keys cs))
          λ name k.
            component_complete name (get name cs) refl
              (sym (sorted_key name cs (get name cs) refl) ∙ k) (h name)

  module _ (id : PoolId) (currency : String) where
    known_of_some :
        (pool : Pool) (name : String) (o : Option (ComponentInventory F))
        → is_some o ≡ true
        → IsComponent currency pool name o
        → contains name pool.components ≡ true
    known_of_some pool name none e h = cc e
    known_of_some pool name (some c) e (h, _) = h

    form_complete :
        (pool : Pool) (k : String) (c : ComponentInventory F)
        (cs : Assoc String (ComponentInventory F))
        → ((name : String) → IsComponent currency pool name (get name ((k, c) ∷ cs)))
        → (if is_empty pool.components
            then some (single_component id)
            else first_error
                (validate_component id pool ((k, c) ∷ cs) currency)
                (sort_by str_lt (keys ((k, c) ∷ cs))))
          ≡ none
    form_complete pool k c cs h = elim (Bool-cases (is_empty pool.components)) [
      | inl e ↦ absurd (
          no_components pool.components k e (
            known_of_some pool k (get k ((k, c) ∷ cs)) (unfold get in rw (equal_refl k) refl)
              (h k)))
      | inr e ↦ rw e (components_complete id pool ((k, c) ∷ cs) currency h)
    ]

    form_iff :
        (pool : Pool) (n : Option ℤ) (p : Option F) (cs : Assoc String (ComponentInventory F))
        → let pinv : PoolInventory F = record {
          replicas = n;
          cost_per_replica_month = p;
          components = cs;
        } in
          (validate_form id pool pinv currency ≡ none) ↔ ((cs ≡ []) ⊎ IsSplit currency pool pinv)
    unfolding validate_form
    form_iff pool n p [] = (λ h. inl refl, λ h. refl)
    form_iff pool none none ((k, c) ∷ cs) = (
      λ h. inr ((refl, refl), components_sound id pool ((k, c) ∷ cs) currency (ground arith)),
      λ h. elim h [ inl e ↦ cc e | inr (_, split) ↦ form_complete pool k c cs split ],
    )
    form_iff pool (some n) p ((k, c) ∷ cs) =
        (λ h. ground arith, λ h. elim h [ inl e ↦ cc e | inr ((e, _), _) ↦ cc e ])
    form_iff pool none (some p) ((k, c) ∷ cs) =
        (λ h. ground arith, λ h. elim h [ inl e ↦ cc e | inr ((_, e), _) ↦ cc e ])

    IsKnown-iff :
        (p : PoolInventory F) (o : Option Pool)
        → (validate_known id p currency o ≡ none) ↔ IsKnown currency p o
    unfolding validate_known
    IsKnown-iff p none = (λ h. cc h, λ h. absurd h)
    IsKnown-iff p (some pool) =
        orelse_iff _ _
          (validate_price_iff (at_pool id) p.replicas p.cost_per_replica_month currency)
          (form_iff pool p.replicas p.cost_per_replica_month p.components)

    IsPool-iff :
        (o : Option (PoolInventory F)) → (validate_pool currency id o ≡ none) ↔ IsPool currency id o
    unfolding validate_pool
    IsPool-iff none = (λ h. tt, λ h. refl)
    IsPool-iff (some p) = IsKnown-iff p (get id known_pools)

  pools_iff :
      (inv : Inventory F)
      → (first_error
            (λ id. validate_pool inv.currency id (get id inv.pools))
            (sort_by str_lt (keys inv.pools))
          ≡ none)
        ↔ ((id : PoolId) → IsPool inv.currency id (get id inv.pools))
  pools_iff inv =
      let check : PoolId → Option (InventoryError F) =
        λ id. validate_pool inv.currency id (get id inv.pools) in
      let names = sort_by str_lt (keys inv.pools) in
      (
        λ h id. elim (Option-cases (get id inv.pools)) [
          | inl e ↦ rw e tt
          | inr (p, e) ↦
              (IsPool-iff id inv.currency (get id inv.pools)).0
                (first_error_sound check names h id (sorted_key id inv.pools (some p) e))
        ],
        λ h.
            first_error_complete check names
              (λ id k. (IsPool-iff id inv.currency (get id inv.pools)).1 (h id)),
      )

  -- `Validate` accepts an inventory exactly if the replication factor, where given, is at least 1, the
  -- rule evaluation is empty, local or remote, the platform cost, where given, is positive and has a
  -- currency, and every pool is a known one whose count is at least 1, whose price is positive and has
  -- a currency, and which is filled in either directly or by its own components, never both.
  pub validate_iff : (inv : Inventory F) → (validate inv ≡ none) ↔ IsDefensible inv
  unfolding validate
  validate_iff inv =
      orelse_iff _ _ (below_one_iff inv.replication_factor replication_factor_below_one) (
        orelse_iff _ _ (check_evaluation_iff inv.rule_evaluation) (
          orelse_iff _ _
            (not_defensible_iff inv.platform_cost_month inv.currency platform_cost_not_positive
              platform_cost_without_currency)
            (pools_iff inv)))
