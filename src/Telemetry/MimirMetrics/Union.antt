-- ===== src/Telemetry/MimirMetrics/Union.antt =====
-- The accumulators of `Read`, for one tenant at a time.
use obscost.Prelude.{
  String, Bool, false, not, ◌&&◌, ◌||◌, Option, none, some, List, [], ◌∷◌, ◌≡◌, refl, sym, ap, ◌∙◌,
  arith, if◌then◌else◌, ◌==◌, string_comparable, equal_comm, Bool-cases, inl, inr, is_some,
  contains, IsDistinct,
}
use obscost.Prelude.Map.{Assoc, keys, get, put, get-put, contains-keys-put, put-IsDistinct}
use obscost.Float.{Float}
use obscost.Promapi.{Sample, label_value}
use obscost.Attribution.{value_or}
use obscost.Telemetry.MimirMetrics.{TenantAccum, no_workload, add_at, union_samples}

module _ {F : Type 0} ⦃f : Float F⦄ where
  -- A sample that counts for a tenant.
  abbrev pub is_usable : String → String → Option F → Bool
  is_usable t user o = user == t && (not (t == "") && is_some o)

  unfoldable pub is_measured : String → List (Sample F) → Bool
  is_measured t [] = false
  is_measured t (s ∷ samples) = is_usable t (label_value "user" s) s.value || is_measured t samples

  abbrev pub add_usable : Bool → F → Option F → F
  add_usable b acc none = acc
  add_usable b acc (some v) = if b then f.add acc v else acc

  -- The sum of a tenant's samples, in their order.
  unfoldable pub measured_total : String → F → List (Sample F) → F
  measured_total t acc [] = acc
  measured_total t acc (s ∷ samples) =
      measured_total t (add_usable (label_value "user" s == t && not (t == "")) acc s.value) samples

  module _ (add : Sample F → F → TenantAccum F → TenantAccum F) (t : String) where
    abbrev pub at : Assoc String (TenantAccum F) → TenantAccum F
    at m = value_or (get t m) no_workload

    -- what one sample of a user adds
    abbrev pub own :
        (F → TenantAccum F → TenantAccum F) → String → Option F → TenantAccum F → TenantAccum F
    own g user none a = a
    own g user (some v) a = if user == t && not (t == "") then g v a else a

    abbrev pub all_own : TenantAccum F → List (Sample F) → TenantAccum F
    all_own a [] = a
    all_own a (s ∷ samples) = all_own (own (add s) (label_value "user" s) s.value a) samples

    at-put :
        (user : String) (a : TenantAccum F) (m : Assoc String (TenantAccum F))
        → at (put user a m) ≡ (if t == user then a else at m)
    at-put user a m =
        ap (λ o. value_or o no_workload) (get-put user t a m)
        ∙ elim (Bool-cases (t == user)) [ inl e ↦ rw e refl | inr e ↦ rw e refl ]

    at-add_at :
        (g : F → TenantAccum F → TenantAccum F) (user : String) (o : Option F)
        (m : Assoc String (TenantAccum F))
        → at (add_at g user o m) ≡ own g user o (at m)
    at-add_at g user none m = refl
    at-add_at g user (some v) m = elim (Bool-cases (user == "")) [
      | inl e ↦ rw e (
          ground (
            arith,
            string_comparable.equal_iff user t,
            string_comparable.equal_iff user "",
            string_comparable.equal_iff t "",
          ))
      | inr e ↦ rw e (
          at-put user (g v (value_or (get user m) no_workload)) m ∙ elim (Bool-cases (user == t)) [
            | inl k ↦
                let same = (string_comparable.equal_iff user t).0 k in
                rw (k, equal_comm t user, k, ap (λ x. x == "") (sym same) ∙ e)
                  (ap (λ x. g v (value_or (get x m) no_workload)) same)
            | inr k ↦ rw (k, equal_comm t user, k) refl
          ])
    ]

    pub at-union_samples :
        (m : Assoc String (TenantAccum F)) (samples : List (Sample F))
        → at (union_samples add m samples) ≡ all_own (at m) samples
    unfolding union_samples
    at-union_samples m [] = refl
    at-union_samples m (s ∷ samples) =
        at-union_samples (add_at (add s) (label_value "user" s) s.value m) samples
        ∙ ap (λ a. all_own a samples) (at-add_at (add s) (label_value "user" s) s.value m)

    contains-add_at :
        (g : F → TenantAccum F → TenantAccum F) (user : String) (o : Option F)
        (m : Assoc String (TenantAccum F))
        → contains t (keys (add_at g user o m)) ≡ (contains t (keys m) || is_usable t user o)
    contains-add_at g user none m = ground arith
    contains-add_at g user (some v) m = elim (Bool-cases (user == "")) [
      | inl e ↦ rw e (
          ground (
            arith,
            string_comparable.equal_iff user t,
            string_comparable.equal_iff user "",
            string_comparable.equal_iff t "",
          ))
      | inr e ↦ rw e (
          ground (
            arith,
            contains-keys-put user t (g v (value_or (get user m) no_workload)) m,
            string_comparable.equal_iff user t,
            string_comparable.equal_iff t user,
            string_comparable.equal_iff user "",
            string_comparable.equal_iff t "",
          ))
    ]

    pub contains-union_samples :
        (m : Assoc String (TenantAccum F)) (samples : List (Sample F))
        → contains t (keys (union_samples add m samples))
          ≡ (contains t (keys m) || is_measured t samples)
    unfolding union_samples is_measured
    contains-union_samples m [] = ground arith
    contains-union_samples m (s ∷ samples) = ground (
      arith,
      contains-union_samples (add_at (add s) (label_value "user" s) s.value m) samples,
      contains-add_at (add s) (label_value "user" s) s.value m,
    )

  IsDistinct-add_at :
      (g : F → TenantAccum F → TenantAccum F) (user : String) (o : Option F)
      (m : Assoc String (TenantAccum F))
      → IsDistinct (keys m)
      → IsDistinct (keys (add_at g user o m))
  IsDistinct-add_at g user none m d = d
  IsDistinct-add_at g user (some v) m d = elim (Bool-cases (user == "")) [
    | inl e ↦ rw e d
    | inr e ↦ rw e (put-IsDistinct user (g v (value_or (get user m) no_workload)) m d)
  ]

  pub IsDistinct-union_samples :
      (add : Sample F → F → TenantAccum F → TenantAccum F) (m : Assoc String (TenantAccum F))
      (samples : List (Sample F))
      → IsDistinct (keys m)
      → IsDistinct (keys (union_samples add m samples))
  unfolding union_samples
  IsDistinct-union_samples add m [] d = d
  IsDistinct-union_samples add m (s ∷ samples) d =
      IsDistinct-union_samples add (add_at (add s) (label_value "user" s) s.value m) samples
        (IsDistinct-add_at (add s) (label_value "user" s) s.value m d)
