-- ===== src/Float/Fraction.antt =====
-- A type of numbers for the laws of the parent: fractions that are not negative, up to cross
-- multiplication.
pub mod Arithmetic
pub mod Ordering
use mathlib.Core.Path.{ap, sym}
use mathlib.Core.Quot
use mathlib.Core.Quot.{Quot, Quot-set}
use native.Mathlib.Nat.{lt_of_mul-lt-mul_left, mul-lt-mul_of_pos_left}
use obscost.Prelude.{ℕ, zero, suc, ◌+◌, ◌*◌, ◌<◌, ◌≡◌, refl, Bool, not, ◌&&◌, arith, ltb}
use obscost.Prelude.Int.{pos, negsuc}
use obscost.Float.{Float}

-- num / (pre + 1)
pub record Frac : Type 0 where
  pub num : ℕ
  pub pre : ℕ

abbrev pub frac : ℕ → ℕ → Frac
frac n p = record { num = n; pre = p }

abbrev pub SameFrac : Frac → Frac → Type 0
SameFrac a b = a.num * (b.pre + 1) ≡ b.num * (a.pre + 1)

abbrev pub Fraction : Type 0
Fraction = Quot SameFrac

abbrev pub to_fraction : Frac → Fraction
to_fraction = Quot.mk

abbrev pub fraction : ℕ → ℕ → Fraction
fraction n p = Quot.mk (frac n p)

-- (p + 1) * (q + 1) - 1
abbrev pub times_pre : ℕ → ℕ → ℕ
times_pre p q = p * q + p + q

abbrev pub add_frac : Frac → Frac → Frac
add_frac a b = frac (a.num * (b.pre + 1) + b.num * (a.pre + 1)) (times_pre a.pre b.pre)

abbrev pub mul_frac : Frac → Frac → Frac
mul_frac a b = frac (a.num * b.num) (times_pre a.pre b.pre)

abbrev pub div_by : Frac → ℕ → ℕ → Frac
div_by a zero q = frac 0 0
div_by a (suc n) q = frac (a.num * (q + 1)) (times_pre a.pre n)

abbrev pub div_frac : Frac → Frac → Frac
div_frac a b = div_by a b.num b.pre

abbrev pub lt_frac : Frac → Frac → Bool
lt_frac a b = ltb (a.num * (b.pre + 1)) (b.num * (a.pre + 1))

pub add_left : (a a' b : Frac) → SameFrac a a' → SameFrac (add_frac a b) (add_frac a' b)
add_left a a' b e = omega (arith, ap (λ (t : ℕ). t * ((b.pre + 1) * (b.pre + 1))) e)

pub add_right : (a b b' : Frac) → SameFrac b b' → SameFrac (add_frac a b) (add_frac a b')
add_right a b b' e = omega (arith, ap (λ (t : ℕ). t * ((a.pre + 1) * (a.pre + 1))) e)

pub mul_left : (a a' b : Frac) → SameFrac a a' → SameFrac (mul_frac a b) (mul_frac a' b)
mul_left a a' b e = omega (arith, ap (λ (t : ℕ). t * (b.num * (b.pre + 1))) e)

pub mul_right : (a b b' : Frac) → SameFrac b b' → SameFrac (mul_frac a b) (mul_frac a b')
mul_right a b b' e = omega (arith, ap (λ (t : ℕ). t * (a.num * (a.pre + 1))) e)

pub div_by_left : (a a' : Frac) (n q : ℕ) → SameFrac a a' → SameFrac (div_by a n q) (div_by a' n q)
div_by_left a a' zero q e = refl
div_by_left a a' (suc n) q e = omega (arith, ap (λ (t : ℕ). t * ((n + 1) * (q + 1))) e)

pub div_by_right :
    (a : Frac) (n q n' q' : ℕ)
    → n * (q' + 1) ≡ n' * (q + 1)
    → SameFrac (div_by a n q) (div_by a n' q')
div_by_right a zero q zero q' e = refl
div_by_right a zero q (suc n') q' e = absurd (omega arith)
div_by_right a (suc n) q zero q' e = absurd (omega arith)
div_by_right a (suc n) q (suc n') q' e = omega (arith, ap (λ (t : ℕ). t * (a.num * (a.pre + 1))) e)

lt_left_half :
    (a a' b : Frac)
    → SameFrac a a'
    → a.num * (b.pre + 1) < b.num * (a.pre + 1)
    → a'.num * (b.pre + 1) < b.num * (a'.pre + 1)
lt_left_half a a' b e h = lt_of_mul-lt-mul_left (a.pre + 1) (
    omega (
      arith,
      ap (λ (t : ℕ). t * (b.pre + 1)) e,
      mul-lt-mul_of_pos_left {k = a'.pre + 1} h (omega arith),
    ))

lt_right_half :
    (a b b' : Frac)
    → SameFrac b b'
    → a.num * (b.pre + 1) < b.num * (a.pre + 1)
    → a.num * (b'.pre + 1) < b'.num * (a.pre + 1)
lt_right_half a b b' e h = lt_of_mul-lt-mul_left (b.pre + 1) (
    omega (
      arith,
      ap (λ (t : ℕ). t * (a.pre + 1)) e,
      mul-lt-mul_of_pos_left {k = b'.pre + 1} h (omega arith),
    ))

pub lt_left : (a a' b : Frac) → SameFrac a a' → lt_frac a b ≡ lt_frac a' b
lt_left a a' b e = ground (arith, lt_left_half a a' b e, lt_left_half a' a b (sym e))

pub lt_right : (a b b' : Frac) → SameFrac b b' → lt_frac a b ≡ lt_frac a b'
lt_right a b b' e = ground (arith, lt_right_half a b b' e, lt_right_half a b' b (sym e))

module _ (op : Frac → Frac → Frac)
    (cl : (a a' b : Frac) → SameFrac a a' → SameFrac (op a b) (op a' b))
    (cr : (a b b' : Frac) → SameFrac b b' → SameFrac (op a b) (op a b')) where
  abbrev pub lift₂ : Fraction → Fraction → Fraction
  lift₂ x y =
      Quot.lift (Quot-set {r = SameFrac})
        (λ a.
          Quot.lift (Quot-set {r = SameFrac}) (λ b. Quot.mk (op a b))
            (λ b b' r. Quot.sound (cr a b b' r)) y)
        (λ a a' r.
          Quot.ind
            {β = λ q.
              Quot.lift (Quot-set {r = SameFrac}) (λ b. Quot.mk (op a b))
                (λ b b' r. Quot.sound (cr a b b' r)) q
              ≡ Quot.lift (Quot-set {r = SameFrac}) (λ b. Quot.mk (op a' b))
                  (λ b b' r. Quot.sound (cr a' b b' r)) q}
            (λ q. Quot-set {r = SameFrac} _ _) (λ b. Quot.sound (cl a a' b r)) y)
        x

abbrev pub lt_fraction : Fraction → Fraction → Bool
lt_fraction x y =
    Quot.lift (hlevel) (λ a. Quot.lift (hlevel) (λ b. lt_frac a b) (λ b b' r. lt_right a b b' r) y)
      (λ a a' r.
        Quot.ind
          {β = λ q.
            Quot.lift (hlevel) (λ b. lt_frac a b) (λ b b' r. lt_right a b b' r) q
            ≡ Quot.lift (hlevel) (λ b. lt_frac a' b) (λ b b' r. lt_right a' b b' r) q}
          (λ q. hlevel) (λ b. lt_left a a' b r) y)
      x

-- Negative integers have no fraction here and read as 0; no text is computed.
instance abbrev pub fraction_float : Float Fraction
fraction_float = record {
  of_nat = λ n. fraction n 0;
  of_int = elim [ pos n ↦ fraction n 0 | negsuc n ↦ fraction 0 0 ];
  add = lift₂ add_frac add_left add_right;
  mul = lift₂ mul_frac mul_left mul_right;
  div =
      lift₂ div_frac (λ a a' b e. div_by_left a a' b.num b.pre e)
        (λ a b b' e. div_by_right a b.num b.pre b'.num b'.pre e);
  lt = lt_fraction;
  le = λ x y. not (lt_fraction y x);
  eq = λ x y. not (lt_fraction x y) && not (lt_fraction y x);
  format_number = λ x. "";
  format_rounded = λ x. "";
  format_money = λ x. "";
  format_duration = λ d. "";
}

module _ (P : Fraction → Fraction → Fraction → Type 0)
    (prop : (x y z : Fraction) → IsProp (P x y z))
    (at : (a b c : Frac) → P (Quot.mk a) (Quot.mk b) (Quot.mk c)) where
  pub ind₃ : (x y z : Fraction) → P x y z
  ind₃ =
      Quot.ind (λ x. hlevel prop)
        λ a. Quot.ind (λ y. hlevel prop) λ b. Quot.ind (λ z. prop _ _ z) λ c. at a b c
