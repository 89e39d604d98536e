-- ===== src/Telemetry/MimirMetrics/Figures.antt =====
-- What the samples of each query add to the figures of one tenant.
use obscost.Prelude.{
  String, not, ◌&&◌, ◌||◌, Option, none, some, List, [], ◌∷◌, ◌≡◌, refl, ap, ◌∙◌, arith, ◌==◌,
  string_comparable, Bool-cases, inl, inr,
}
use obscost.Float.{Float}
use obscost.Promapi.{Sample, label_value}
use obscost.Telemetry.MimirMetrics.{TenantAccum, add_duration, add_count, add_group, add_to_group}
use obscost.Telemetry.MimirMetrics.Union.{
  is_usable, is_measured, add_usable, measured_total, own, all_own,
}

module _ {F : Type 0} ⦃f : Float F⦄ (t : String) where
  own-duration :
      (s : Sample F) (user : String) (o : Option F) (a : TenantAccum F)
      → let b = own add_duration t (add_duration s) user o a in
        (b.duration_seconds ≡ add_usable (user == t && not (t == "")) a.duration_seconds o)
        × (b.duration_observed ≡ (a.duration_observed || is_usable t user o))
        × (b.evaluations ≡ a.evaluations)
  own-duration s user none a = (refl, ground arith, refl)
  own-duration s user (some v) a = elim (Bool-cases (user == t && not (t == ""))) [
    | inl e ↦ rw e (refl, ground arith, refl)
    | inr e ↦ rw e (refl, ground arith, refl)
  ]

  own-count :
      (s : Sample F) (user : String) (o : Option F) (a : TenantAccum F)
      → let b = own add_count t (add_count s) user o a in
        (b.duration_seconds ≡ a.duration_seconds)
        × (b.duration_observed ≡ a.duration_observed)
        × (b.evaluations ≡ add_usable (user == t && not (t == "")) a.evaluations o)
  own-count s user none a = (refl, refl, refl)
  own-count s user (some v) a = elim (Bool-cases (user == t && not (t == ""))) [
    | inl e ↦ rw e (refl, refl, refl)
    | inr e ↦ rw e (refl, refl, refl)
  ]

  own-group :
      (s : Sample F) (user : String) (o : Option F) (a : TenantAccum F)
      → let b = own add_group t (add_group s) user o a in
        (b.duration_seconds ≡ a.duration_seconds)
        × (b.duration_observed ≡ a.duration_observed)
        × (b.evaluations ≡ a.evaluations)
  unfolding add_to_group
  own-group s user none a = (refl, refl, refl)
  own-group s user (some v) a = elim (Bool-cases (user == t && not (t == ""))) [
    | inl e ↦ rw e (refl, refl, refl)
    | inr e ↦ rw e (refl, refl, refl)
  ]

  pub all_own-duration :
      (a : TenantAccum F) (ss : List (Sample F))
      → let b = all_own add_duration t a ss in
        (b.duration_seconds ≡ measured_total t a.duration_seconds ss)
        × (b.duration_observed ≡ (a.duration_observed || is_measured t ss))
        × (b.evaluations ≡ a.evaluations)
  unfolding is_measured measured_total
  all_own-duration a [] = (refl, ground arith, refl)
  all_own-duration a (s ∷ ss) =
      let (d, o, e) =
        all_own-duration (own add_duration t (add_duration s) (label_value "user" s) s.value a)
          ss in
      let (d', o', e') = own-duration s (label_value "user" s) s.value a in
      (d ∙ ap (λ x. measured_total t x ss) d', ground (arith, o, o'), e ∙ e')

  pub all_own-count :
      (a : TenantAccum F) (ss : List (Sample F))
      → let b = all_own add_count t a ss in
        (b.duration_seconds ≡ a.duration_seconds)
        × (b.duration_observed ≡ a.duration_observed)
        × (b.evaluations ≡ measured_total t a.evaluations ss)
  unfolding measured_total
  all_own-count a [] = (refl, refl, refl)
  all_own-count a (s ∷ ss) =
      let (d, o, e) =
        all_own-count (own add_count t (add_count s) (label_value "user" s) s.value a) ss in
      let (d', o', e') = own-count s (label_value "user" s) s.value a in
      (d ∙ d', o ∙ o', e ∙ ap (λ x. measured_total t x ss) e')

  pub all_own-group :
      (a : TenantAccum F) (ss : List (Sample F))
      → let b = all_own add_group t a ss in
        (b.duration_seconds ≡ a.duration_seconds)
        × (b.duration_observed ≡ a.duration_observed)
        × (b.evaluations ≡ a.evaluations)
  all_own-group a [] = (refl, refl, refl)
  all_own-group a (s ∷ ss) =
      let (d, o, e) =
        all_own-group (own add_group t (add_group s) (label_value "user" s) s.value a) ss in
      let (d', o', e') = own-group s (label_value "user" s) s.value a in (d ∙ d', o ∙ o', e ∙ e')
