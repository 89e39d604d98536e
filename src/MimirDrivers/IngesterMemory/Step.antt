-- ===== src/MimirDrivers/IngesterMemory/Step.antt =====
-- How many points the averaging subquery asks for.
use obscost.Prelude.{ℕ, ◌-◌, ◌*◌, ◌/◌, ◌%◌, ◌<◌, ◌≤◌, ◌≡◌, refl, arith, ltb, Bool-cases, inl, inr}
use obscost.Prelude.Int.{ℤ, pos, negsuc, pos_part}
use obscost.MimirDrivers.IngesterMemory.{second, minute, subquery_step, points}

div_bound : (n k b : ℕ) → n < b * k → n / k < b
div_bound n k b h = grind arith

-- The step is a minute or more, whole seconds where the window gives more, and a positive window has fewer
-- than 1464 points.
pub subquery_step_lem :
    (window : ℤ)
    → (minute ≤ subquery_step window)
      × (subquery_step window % second ≡ 0)
      × (pos_part (points window) < 1464)
unfolding subquery_step points
subquery_step_lem (pos n) = elim (Bool-cases (ltb (n / 1440) minute)) [
  | inl e ↦ rw e (omega arith, refl, ground (arith, e))
  | inr e ↦ rw e (
    ground (arith, e),
    omega arith,
    div_bound n (n / 1440 - n / 1440 % second) 1464 (ground (arith, e)),
  )
]
subquery_step_lem (negsuc n) = (omega arith, refl, ground arith)
