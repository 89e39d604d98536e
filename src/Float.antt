-- ===== src/Float.antt =====
-- What the code does with a `float64`: the operations it calls, the texts it asks the standard
-- library for, and the laws that theorems take as hypotheses.
pub mod Fraction
pub mod Sums
pub mod Ranking
use obscost.Prelude.{ℕ, ◌≡◌, Bool, true, false, not, ◌&&◌, String, List, [], ◌∷◌}
use obscost.Prelude.Int.{ℤ}

pub record Float (F : Type 0) : Type 0 where
  -- `float64(n)` of an unsigned and of a signed integer
  pub of_nat : ℕ → F
  pub of_int : ℤ → F
  pub add : F → F → F
  pub mul : F → F → F
  pub div : F → F → F
  pub lt : F → F → Bool
  pub le : F → F → Bool
  pub eq : F → F → Bool
  -- `%g`, `%.0f` and `%.2f`
  pub format_number : F → String
  pub format_rounded : F → String
  pub format_money : F → String
  -- `time.Duration.String`, of nanoseconds
  pub format_duration : ℤ → String

module _ {F : Type 0} ⦃f : Float F⦄ where
  abbrev pub nought : F
  nought = f.of_nat 0

  abbrev pub one : F
  one = f.of_nat 1

  abbrev pub hundred : F
  hundred = f.of_nat 100

  -- a sum by `+=` from 0, in the order of the slice
  unfoldable pub sum_from : F → List F → F
  sum_from acc [] = acc
  sum_from acc (x ∷ xs) = sum_from (f.add acc x) xs

  abbrev pub total_of : List F → F
  total_of = sum_from nought

-- The comparisons of `float64` on values that are not NaN.
pub record IsOrdered (F : Type 0) ⦃f : Float F⦄ : Type 0 where
  pub lt_asym : (a b : F) → f.lt a b ≡ true → f.lt b a ≡ false
  pub not_lt_trans : (a b c : F) → f.lt b a ≡ false → f.lt c b ≡ false → f.lt c a ≡ false
  pub le-eq-not_lt : (a b : F) → f.le a b ≡ not (f.lt b a)
  pub eq-not_lt : (a b : F) → f.eq a b ≡ (not (f.lt a b) && not (f.lt b a))

-- Values that compare equal are the same value: no NaN, and one zero.
pub record IsLinear (F : Type 0) ⦃f : Float F⦄ : Type 0 where
  pub ordered : IsOrdered F
  pub open ordered use *
  pub eq_of_not_lt : (a b : F) → f.lt a b ≡ false → f.lt b a ≡ false → a ≡ b

-- Sums, products and quotients without rounding: the arithmetic that the formulas are meant in.
pub record IsExact (F : Type 0) ⦃f : Float F⦄ : Type 0 where
  pub zero-add : (a : F) → f.add nought a ≡ a
  pub add_comm : (a b : F) → f.add a b ≡ f.add b a
  pub add_assoc : (a b c : F) → f.add (f.add a b) c ≡ f.add a (f.add b c)
  pub add-mul : (a b c : F) → f.mul (f.add a b) c ≡ f.add (f.mul a c) (f.mul b c)
  pub zero-mul : (a : F) → f.mul nought a ≡ nought
  pub one-mul : (a : F) → f.mul one a ≡ a
  pub mul_comm : (a b : F) → f.mul a b ≡ f.mul b a
  pub add-div : (a b c : F) → f.div (f.add a b) c ≡ f.add (f.div a c) (f.div b c)
  pub zero-div : (a : F) → f.div nought a ≡ nought
  pub mul-div : (a b c : F) → f.div (f.mul a b) c ≡ f.mul a (f.div b c)
  pub div_self : (a : F) → f.lt nought a ≡ true → f.div a a ≡ one
