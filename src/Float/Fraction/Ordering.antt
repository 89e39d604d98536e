-- ===== src/Float/Fraction/Ordering.antt =====
-- Fractions are linearly ordered.
use mathlib.Core.Quot
use mathlib.Core.Quot.{Quot-set}
use native.Mathlib.Nat.{le_of_mul-le-mul_left, mul-le-mul_right}
use obscost.Prelude.{◌+◌, ◌*◌, ◌≤◌, ◌≡◌, refl, true, false, arith}
use obscost.Float.{IsLinear}
use obscost.Float.Fraction.{Frac, Fraction, lt_frac, lt_fraction, fraction_float, ind₃}

le_frac_trans :
    (a b c : Frac)
    → a.num * (b.pre + 1) ≤ b.num * (a.pre + 1)
    → b.num * (c.pre + 1) ≤ c.num * (b.pre + 1)
    → a.num * (c.pre + 1) ≤ c.num * (a.pre + 1)
le_frac_trans a b c h k =
    le_of_mul-le-mul_left {k = b.pre + 1}
      (omega (arith, mul-le-mul_right (c.pre + 1) h, mul-le-mul_right (a.pre + 1) k)) (omega arith)

fraction_lt_asym : (x y z : Fraction) → lt_fraction x y ≡ true → lt_fraction y x ≡ false
fraction_lt_asym = ind₃ _ (λ x y z. hlevel) λ a b c h. ground arith

not_lt_frac_trans : (a b c : Frac) → lt_frac b a ≡ false → lt_frac c b ≡ false → lt_frac c a ≡ false
not_lt_frac_trans a b c h k = ground (arith, le_frac_trans a b c)

fraction_not_lt_trans :
    (x y z : Fraction) → lt_fraction y x ≡ false → lt_fraction z y ≡ false → lt_fraction z x ≡ false
fraction_not_lt_trans = ind₃ _ (λ x y z. hlevel) not_lt_frac_trans

fraction_eq_of_not_lt :
    (x y z : Fraction) → lt_fraction x y ≡ false → lt_fraction y x ≡ false → x ≡ y
fraction_eq_of_not_lt = ind₃ _ (λ x y z. hlevel Quot-set) λ a b c h k. Quot.sound (ground arith)

pub Fraction-IsLinear : IsLinear Fraction
Fraction-IsLinear = record {
  ordered = record {
    lt_asym = λ x y. fraction_lt_asym x y x;
    not_lt_trans = fraction_not_lt_trans;
    le-eq-not_lt = λ x y. refl;
    eq-not_lt = λ x y. refl;
  };
  eq_of_not_lt = λ x y. fraction_eq_of_not_lt x y x;
}
