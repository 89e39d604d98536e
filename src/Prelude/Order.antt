-- ===== src/Prelude/Order.antt =====
-- What a comparison passed to `sort.Slice` has to satisfy, and that Go's order of strings does.
use mathlib.Core.Path.{◌≡◌}
use mathlib.Core.Bool.{Bool, true, false}
use obscost.Prelude.Text.{str_lt, str_lt_asym, str_lt_total, str_lt_trans}

-- A strict weak order: "not greater" is transitive.
pub record IsStrict {ℓ} {A : Type ℓ} (less : A → A → Bool) : Type ℓ where
  pub asym : (a b : A) → less a b ≡ true → less b a ≡ false
  pub le_trans : (a b c : A) → less b a ≡ false → less c b ≡ false → less c a ≡ false

-- Only equal values are left in either order.
abbrev pub IsTotal {ℓ} : {A : Type ℓ} → (A → A → Bool) → Type ℓ
IsTotal {A} less = (a b : A) → less a b ≡ false → less b a ≡ false → a ≡ b

pub str_lt-IsStrict : IsStrict str_lt
str_lt-IsStrict = record { asym = str_lt_asym; le_trans = str_lt_trans }

pub str_lt-IsTotal : IsTotal str_lt
str_lt-IsTotal = str_lt_total
