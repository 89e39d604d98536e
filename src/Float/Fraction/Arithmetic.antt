-- ===== src/Float/Fraction/Arithmetic.antt =====
-- Fractions add, multiply and divide without rounding.
use mathlib.Core.Path.{ap₂}
use mathlib.Core.Quot
use mathlib.Core.Quot.{Quot-set}
use obscost.Prelude.{ℕ, zero, suc, ◌+◌, ◌*◌, ◌<◌, ◌≡◌, true, sym, ◌∙◌, arith}
use obscost.Float.{IsExact}
use obscost.Float.Fraction.{
  Frac, frac, Fraction, to_fraction, fraction, times_pre, add_frac, mul_frac, div_by,
  fraction_float, lt_fraction, lift₂, add_left, add_right, ind₃,
}

fraction_zero-add : (x : Fraction) → lift₂ add_frac add_left add_right (fraction 0 0) x ≡ x
fraction_zero-add = Quot.ind (λ x. Quot-set _ _) λ a. Quot.sound (omega arith)

fraction_add_comm : (x y z : Fraction) → fraction_float.add x y ≡ fraction_float.add y x
fraction_add_comm = ind₃ _ (λ x y z. Quot-set _ _) λ a b c. Quot.sound (omega arith)

same_frac : {n m p q : ℕ} → n ≡ m → p ≡ q → fraction n p ≡ fraction m q
same_frac e k = ap₂ fraction e k

-- Numerator and denominator times the same number.
scaled : (n p k : ℕ) → fraction (n * (k + 1)) (times_pre p k) ≡ fraction n p
scaled n p k = Quot.sound (omega arith)

fraction_add_assoc :
    (x y z : Fraction)
    → fraction_float.add (fraction_float.add x y) z ≡ fraction_float.add x (fraction_float.add y z)
fraction_add_assoc = ind₃ _ (λ x y z. Quot-set _ _) λ a b c. same_frac (omega arith) (omega arith)

fraction_mul_comm : (x y z : Fraction) → fraction_float.mul x y ≡ fraction_float.mul y x
fraction_mul_comm = ind₃ _ (λ x y z. Quot-set _ _) λ a b c. same_frac (omega arith) (omega arith)

fraction_add-mul :
    (x y z : Fraction)
    → fraction_float.mul (fraction_float.add x y) z
      ≡ fraction_float.add (fraction_float.mul x z) (fraction_float.mul y z)
fraction_add-mul =
    ind₃ _ (λ x y z. Quot-set _ _)
      λ a b c.
        let s = mul_frac (add_frac a b) c in
        sym (scaled s.num s.pre c.pre) ∙ same_frac (omega arith) (omega arith)

fraction_zero-mul : (x : Fraction) → fraction_float.mul (fraction 0 0) x ≡ fraction 0 0
fraction_zero-mul = Quot.ind (λ x. Quot-set _ _) λ a. Quot.sound (omega arith)

fraction_one-mul : (x : Fraction) → fraction_float.mul (fraction 1 0) x ≡ x
fraction_one-mul = Quot.ind (λ x. Quot-set _ _) λ a. Quot.sound (omega arith)

add-div_by :
    (a b : Frac) (n q : ℕ)
    → to_fraction (div_by (add_frac a b) n q) ≡ to_fraction (add_frac (div_by a n q) (div_by b n q))
add-div_by a b zero q = Quot.sound (omega arith)
add-div_by a b (suc n) q =
    let s = div_by (add_frac a b) (suc n) q in
    sym (scaled s.num s.pre n) ∙ same_frac (omega arith) (omega arith)

fraction_add-div :
    (x y z : Fraction)
    → fraction_float.div (fraction_float.add x y) z
      ≡ fraction_float.add (fraction_float.div x z) (fraction_float.div y z)
fraction_add-div = ind₃ _ (λ x y z. Quot-set _ _) λ a b c. add-div_by a b c.num c.pre

zero-div_by : (n q : ℕ) → to_fraction (div_by (frac 0 0) n q) ≡ fraction 0 0
zero-div_by zero q = Quot.sound (omega arith)
zero-div_by (suc n) q = Quot.sound (omega arith)

fraction_zero-div : (x : Fraction) → fraction_float.div (fraction 0 0) x ≡ fraction 0 0
fraction_zero-div = Quot.ind (λ x. Quot-set _ _) λ a. zero-div_by a.num a.pre

mul-div_by :
    (a b : Frac) (n q : ℕ)
    → to_fraction (div_by (mul_frac a b) n q) ≡ to_fraction (mul_frac a (div_by b n q))
mul-div_by a b zero q = Quot.sound (omega arith)
mul-div_by a b (suc n) q = same_frac (omega arith) (omega arith)

fraction_mul-div :
    (x y z : Fraction)
    → fraction_float.div (fraction_float.mul x y) z ≡ fraction_float.mul x (fraction_float.div y z)
fraction_mul-div = ind₃ _ (λ x y z. Quot-set _ _) λ a b c. mul-div_by a b c.num c.pre

div_self_by : (n p : ℕ) → 0 < n → to_fraction (div_by (frac n p) n p) ≡ fraction 1 0
div_self_by zero p h = absurd (omega arith)
div_self_by (suc n) p h = Quot.sound (omega arith)

fraction_div_self :
    (x : Fraction) → lt_fraction (fraction 0 0) x ≡ true → fraction_float.div x x ≡ fraction 1 0
fraction_div_self = Quot.ind (λ x. hlevel Quot-set) λ a h. div_self_by a.num a.pre (ground arith)

-- Fractions compute without rounding.
pub Fraction-IsExact : IsExact Fraction
Fraction-IsExact = record {
  zero-add = fraction_zero-add;
  add_comm = λ x y. fraction_add_comm x y x;
  add_assoc = fraction_add_assoc;
  add-mul = fraction_add-mul;
  zero-mul = fraction_zero-mul;
  one-mul = fraction_one-mul;
  mul_comm = λ x y. fraction_mul_comm x y x;
  add-div = fraction_add-div;
  zero-div = fraction_zero-div;
  mul-div = fraction_mul-div;
  div_self = fraction_div_self;
}
