-- ===== src/Float/Ranking.antt =====
-- The order of the reports: by a value, largest first, then by a name.
use obscost.Prelude.{String, Bool, arith, if◌then◌else◌, str_lt, str_lt_asym, str_lt_trans}
use obscost.Prelude.Order.{IsStrict}
use obscost.Float.{Float, IsOrdered}

-- A value that is larger comes first, and equal values come in the order of the names.
abbrev pub ranked_before {ℓ} :
    {F : Type 0} ⦃f : Float F⦄ → {A : Type ℓ} → (A → F) → (A → String) → A → A → Bool
ranked_before ⦃f⦄ v name a b =
    if f.eq (v a) (v b) then str_lt (name a) (name b) else f.lt (v b) (v a)

module _ {ℓ} {F : Type 0} ⦃f : Float F⦄ {A : Type ℓ} (ordered : IsOrdered F) (v : A → F)
    (name : A → String) where
  open ordered use {lt_asym, not_lt_trans, eq-not_lt}

  pub ranked-IsStrict : IsStrict (ranked_before v name)
  ranked-IsStrict = record {
    asym = λ a b h. ground (
      arith,
      eq-not_lt (v a) (v b),
      eq-not_lt (v b) (v a),
      lt_asym (v a) (v b),
      lt_asym (v b) (v a),
      str_lt_asym (name a) (name b),
    );
    le_trans = λ a b c h k. ground (
      arith,
      eq-not_lt (v a) (v b),
      eq-not_lt (v b) (v a),
      eq-not_lt (v c) (v b),
      eq-not_lt (v b) (v c),
      eq-not_lt (v c) (v a),
      not_lt_trans (v a) (v b) (v c),
      not_lt_trans (v c) (v b) (v a),
      not_lt_trans (v b) (v a) (v c),
      not_lt_trans (v b) (v c) (v a),
      not_lt_trans (v a) (v c) (v b),
      not_lt_trans (v c) (v a) (v b),
      lt_asym (v a) (v b),
      lt_asym (v b) (v c),
      lt_asym (v a) (v c),
      str_lt_trans (name a) (name b) (name c),
    );
  }
