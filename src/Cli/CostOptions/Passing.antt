-- ===== src/Cli/CostOptions/Passing.antt =====
-- When a step of `check_cost` passes, and with what.
use obscost.Prelude.{String, Bool, true, false, not, Option, none, some, ◌≡◌, ◌↔◌, refl, sym, ap}
use obscost.Prelude.Int.{ℤ}
use obscost.Prelude.Result.{Result, ok, err}
use obscost.Cost.Validate.{InventoryError}
use obscost.Promapi.{Selector, SelectorResult, selects, refused}
use obscost.Cli.Auth.{BackendCreds, AuthResult, granted, denied}
use obscost.Cli.CostOptions.{
  CostConfig, Refusal, Checked, passes, refuses, ◌>>=◌, refuse_if, window_from, loaded_config,
  valid_inventory, selected, credentials,
}

pub not_iff : (b : Bool) → (not b ≡ false) ↔ (b ≡ true)
not_iff true = (λ h. refl, λ h. refl)
not_iff false = (λ h. cc h, λ h. cc h)

pub passes_injective :
    {F A : Type 0} (a b : A) → ◌≡◌ {A = Checked F A} (passes a) (passes b) → a ≡ b
passes_injective a b h = cc h

module _ {F A B : Type 0} where
  pub >>=-passes :
      (c : Checked F A) (k : A → Checked F B) (b : B)
      → (c >>= k) ≡ passes b
      → (a : A) × (c ≡ passes a) × (k a ≡ passes b)
  >>=-passes (passes a) k b h = (a, refl, h)
  >>=-passes (refuses e) k b h = cc h

  pub passes->>= :
      (c : Checked F A) (k : A → Checked F B) (a : A) (b : B)
      → c ≡ passes a
      → k a ≡ passes b
      → (c >>= k) ≡ passes b
  passes->>= (passes a') k a b e h = rw (passes_injective a' a e) h
  passes->>= (refuses x) k a b e h = cc e

module _ {F : Type 0} where
  pub refuse_if_iff :
      (b : Bool) (e : Refusal F) (u : Unit {0}) → (refuse_if b e ≡ passes u) ↔ (b ≡ false)
  refuse_if_iff true e u = (λ h. cc h, λ h. cc h)
  refuse_if_iff false e u = (λ h. refl, λ h. refl)

  pub config_iff :
      (r : Result (CostConfig F)) (cfg : CostConfig F)
      → (loaded_config r ≡ passes cfg) ↔ (r ≡ ok cfg)
  config_iff (ok c) cfg = (λ h. ap ok (passes_injective c cfg h), λ h. ap loaded_config h)
  config_iff (err e) cfg = (λ h. cc h, λ h. cc h)

  pub inventory_iff :
      (o : Option (InventoryError F)) (u : Unit {0}) → (valid_inventory o ≡ passes u) ↔ (o ≡ none)
  inventory_iff none u = (λ h. refl, λ h. refl)
  inventory_iff (some e) u = (λ h. cc h, λ h. cc h)

  pub credentials_iff :
      (r : AuthResult BackendCreds) (c : BackendCreds)
      → (credentials {F = F} r ≡ passes c) ↔ (r ≡ granted c)
  credentials_iff (granted d) c =
      (λ h. ap granted (passes_injective d c h), λ h. ap (credentials {F = F}) h)
  credentials_iff (denied e) c = (λ h. cc h, λ h. cc h)

  pub selected_iff :
      (r : SelectorResult) (source source' : String) (sel : Selector)
      → (selected {F = F} source r ≡ passes (sel, source'))
        ↔ ((r ≡ selects sel) × (source' ≡ source))
  selected_iff (selects s) source source' sel = (
    λ h.
        let same = passes_injective (s, source) (sel, source') h in
        (ap (λ p. selects p.0) same, ap (λ p. p.1) (sym same)),
    λ (h, k). rw k (ap (selected {F = F} source) h),
  )
  selected_iff (refused e) source source' sel = (λ h. cc h, λ h. cc (h.0))

  pub window_from_iff :
      (s : String) (r : Result ℤ) (d : ℤ) → (window_from {F = F} s r ≡ passes d) ↔ (r ≡ ok d)
  window_from_iff s (ok c) d =
      (λ h. ap ok (passes_injective c d h), λ h. ap (window_from {F = F} s) h)
  window_from_iff s (err e) d = (λ h. cc h, λ h. cc h)
