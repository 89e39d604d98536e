-- ===== src/Cost/Validate/Defensible.antt =====
-- What an inventory has to satisfy, without the order of the checks, and the single checks.
use obscost.Prelude.{
  String, true, false, Option, none, some, List, [], ◌∷◌, ◌≡◌, ◌≢◌, ◌↔◌, ◌⊎◌, refl, sym, ap, ◌∙◌,
  arith, ◌==◌, string_comparable, Bool-cases, inl, inr, is_some, contains, str_lt,
}
use obscost.Prelude.Int.{ℤ, pos, negsuc}
use obscost.Prelude.Sort.{sort_by, contains-sort_by}
use obscost.Prelude.Map.{Assoc, keys, get, is_some-get}
use obscost.Float.{Float, nought}
use obscost.Cost.{
  PoolId, Pool, known_pools, rule_evaluation_local, rule_evaluation_remote, ComponentInventory,
  PoolInventory, Inventory,
}
use obscost.Cost.Validate.{
  PricePath, InventoryError, ◌orelse◌, below_one, not_defensible, validate_price, first_error,
  check_evaluation, replicas_below_one, price_not_positive, price_without_currency,
}

pub orelse_iff {ℓ κ μ} :
    {E : Type ℓ} {P : Type κ} {Q : Type μ} (a b : Option E)
    → (a ≡ none) ↔ P
    → (b ≡ none) ↔ Q
    → (a orelse b ≡ none) ↔ (P × Q)
orelse_iff none b (p, p') (q, q') = (λ h. (p refl, q h), λ h. q' h.1)
orelse_iff (some e) b (p, p') (q, q') = (λ h. cc h, λ h. cc (p' h.0))

none_of_orelse {ℓ} : {E : Type ℓ} (a b : Option E) → (a orelse b ≡ none) → (a ≡ none) × (b ≡ none)
none_of_orelse none b h = (refl, h)
none_of_orelse (some e) b h = cc h

module _ {ℓ} {E : Type ℓ} (check : String → Option E) where
  pub first_error_sound :
      (names : List String)
      → first_error check names ≡ none
      → (name : String) → contains name names ≡ true
      → check name ≡ none
  unfolding first_error contains
  first_error_sound [] h name k = cc k
  first_error_sound (n ∷ names) h name k =
      let (now, later) = none_of_orelse (check n) (first_error check names) h in
      elim (Bool-cases (name == n)) [
        | inl e ↦ rw ((string_comparable.equal_iff name n).0 e) now
        | inr e ↦ first_error_sound names later name (ground arith)
      ]

  pub first_error_complete :
      (names : List String)
      → ((name : String) → contains name names ≡ true → check name ≡ none)
      → first_error check names ≡ none
  unfolding first_error contains
  first_error_complete [] h = refl
  first_error_complete (n ∷ names) h =
      rw (h n (ground (arith, string_comparable.equal_iff n n)))
        (first_error_complete names (λ name k. h name (ground arith)))

pub sorted_key {ℓ} :
    {V : Type ℓ} (k : String) (m : Assoc String V) (o : Option V)
    → get k m ≡ o
    → contains k (sort_by str_lt (keys m)) ≡ is_some o
sorted_key k m o e = contains-sort_by str_lt k (keys m) ∙ sym (is_some-get k m) ∙ ap is_some e

-- A count is at least 1.
abbrev pub IsCount : Option ℤ → Type 0
IsCount none = Unit
IsCount (some (pos n)) = n ≢ 0
IsCount (some (negsuc n)) = ⊥

module _ {F : Type 0} ⦃f : Float F⦄ where
  -- A price is positive and has a currency.
  abbrev pub IsPrice : String → Option F → Type 0
  IsPrice currency none = Unit
  IsPrice currency (some p) = (f.le p nought ≡ false) × (currency ≢ "")

  abbrev pub IsPriced : String → Option ℤ → Option F → Type 0
  IsPriced currency n p = IsCount n × IsPrice currency p

  -- What one name of `components` may stand for: nothing, or a component of the pool.
  abbrev pub IsComponent : String → Pool → String → Option (ComponentInventory F) → Type 0
  IsComponent currency pool name none = Unit
  IsComponent currency pool name (some c) =
      (contains name pool.components ≡ true) × IsPriced currency c.replicas c.cost_per_replica_month

  -- Only one of the two forms of a pool is filled in.
  abbrev pub IsSplit : String → Pool → PoolInventory F → Type 0
  IsSplit currency pool p =
      ((p.replicas ≡ none) × (p.cost_per_replica_month ≡ none))
      × ((name : String) → IsComponent currency pool name (get name p.components))

  abbrev pub IsKnown : String → PoolInventory F → Option Pool → Type 0
  IsKnown currency p none = ⊥
  IsKnown currency p (some pool) =
      IsPriced currency p.replicas p.cost_per_replica_month
      × ((p.components ≡ []) ⊎ IsSplit currency pool p)

  abbrev pub IsPool : String → PoolId → Option (PoolInventory F) → Type 0
  IsPool currency id none = Unit
  IsPool currency id (some p) = IsKnown currency p (get id known_pools)

  abbrev pub IsDefensible : Inventory F → Type 0
  IsDefensible inv =
      IsCount inv.replication_factor
      × ((contains inv.rule_evaluation ("" ∷ rule_evaluation_local ∷ rule_evaluation_remote ∷ [])
            ≡ true)
          × (IsPrice inv.currency inv.platform_cost_month
              × ((id : PoolId) → IsPool inv.currency id (get id inv.pools))))

  pub below_one_iff :
      (n : Option ℤ) (err : ℤ → InventoryError F) → (below_one n err ≡ none) ↔ IsCount n
  unfolding below_one
  below_one_iff none err = (λ h. tt, λ h. refl)
  below_one_iff (some (pos n)) err = ground arith
  below_one_iff (some (negsuc n)) err = ground arith

  pub not_defensible_iff :
      (p : Option F) (currency : String) (err : F → InventoryError F) (no_unit : InventoryError F)
      → (not_defensible p currency err no_unit ≡ none) ↔ IsPrice currency p
  unfolding not_defensible
  not_defensible_iff none currency err no_unit = (λ h. tt, λ h. refl)
  not_defensible_iff (some p) currency err no_unit =
      ground (arith, string_comparable.equal_iff currency "")

  pub check_evaluation_iff :
      (mode : String)
      → (check_evaluation {F = F} mode ≡ none)
        ↔ (contains mode ("" ∷ rule_evaluation_local ∷ rule_evaluation_remote ∷ []) ≡ true)
  unfolding check_evaluation contains
  check_evaluation_iff mode = ground arith

  pub validate_price_iff :
      (path : PricePath) (n : Option ℤ) (p : Option F) (currency : String)
      → (validate_price path n p currency ≡ none) ↔ IsPriced currency n p
  unfolding validate_price
  validate_price_iff path n p currency =
      orelse_iff _ _ (below_one_iff n (replicas_below_one path))
        (not_defensible_iff p currency (price_not_positive path) (price_without_currency path))
