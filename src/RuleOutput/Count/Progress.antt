-- ===== src/RuleOutput/Count/Progress.antt =====
-- The steps that the goroutines of `Count` have left.
use obscost.Prelude.{ℕ, suc, ◌+◌, ◌*◌, String, length}
use obscost.Prelude.Map.{Assoc}
use obscost.RuleOutput.Join.{MetricCount}
use obscost.RuleOutput.Count.{Job, Limits, Counting, Run, here, next}

module _ (l : Limits) (results : Job → Assoc String MetricCount) where
  abbrev pub left : Counting → ℕ
  left s = 2 * length s.waiting + length s.running

  abbrev pub steps : {s u : Counting} → Run l results s u → ℕ
  steps here = 0
  steps (next r step) = suc (steps r)
