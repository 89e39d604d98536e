-- ===== src/RuleOutput/Join/Rows.antt =====
-- Which status and series a rule gets.
use obscost.Prelude.{
  String, Option, none, some, nat_beq, List, [], ◌≡◌, refl, sym, ap, ◌∙◌, arith, if◌then◌else◌,
  ◌==◌, string_comparable, Bool-cases, inl, inr, All, All-map,
}
use obscost.Prelude.Int.{ℤ, pos, negsuc}
use obscost.Prelude.Map.{Assoc, get}
use obscost.Prelude.Sort.{sort_by-All}
use obscost.Float.{Float}
use obscost.Rule.{Kind, recording, alerting, AnnotatedRule}
use obscost.RuleOutput.Join.{
  Status, status_series, status_no_series, status_not_measured, status_no_output, RuleOutput,
  is_recording, counted, by_series, rule_row, row_of_kind, less_rule, writers_of, MetricCount,
  metric_series, join_tenant,
}
use obscost.RuleOutput.Join.Totals.{count_in}

-- What a rule's kind and count say.
abbrev pub status_of : Kind → Option ℤ → Status
status_of alerting o = status_no_output
status_of recording none = status_not_measured
status_of recording (some (pos n)) = if nat_beq n 0 then status_no_series else status_series
status_of recording (some (negsuc n)) = status_series

counted_lem :
    (tenant : String) (c : Option MetricCount)
    → ((counted tenant c).series ≡ metric_series tenant c)
      × ((counted tenant c).status ≡ status_of recording (metric_series tenant c))
counted_lem tenant none = elim (Bool-cases (tenant == "")) [
  | inl e ↦ rw e (refl, refl)
  | inr e ↦ rw e (refl, refl)
]
counted_lem tenant (some c) = elim (Bool-cases (tenant == "")) [
  | inl e ↦ rw e (refl, refl)
  | inr e ↦ rw e (go c.series)
]
  where
    go :
        (o : Option ℤ)
        → ((by_series c.err o).series ≡ o) × ((by_series c.err o).status ≡ status_of recording o)
    go none = (refl, refl)
    go (some (pos n)) = elim (Bool-cases (nat_beq n 0)) [
      | inl e ↦ ground (arith, e)
      | inr e ↦ ground (arith, e)
    ]
    go (some (negsuc n)) = ground arith

module _ {F : Type 0} ⦃f : Float F⦄ {Ast : Type 0} (tenant : String)
    (rules : List (AnnotatedRule Ast)) (tc : Assoc String MetricCount) (active : Option F) where
  -- A row with the series and the status of its metric's count.
  abbrev pub IsRow : RuleOutput F → Type 0
  IsRow r =
      (r.series ≡ (if is_recording r.kind then count_in tenant tc r.output_metric else none))
      × (r.status ≡ status_of r.kind r.series)

  IsRow-row_of_kind :
      (kind : Kind) (ar : AnnotatedRule Ast)
      → IsRow (row_of_kind kind tenant tc active (writers_of [] rules) ar)
  IsRow-row_of_kind alerting ar = (refl, refl)
  IsRow-row_of_kind recording ar =
      let (series, status) = counted_lem tenant (get ar.rule.record_name tc) in
      (series, status ∙ ap (status_of recording) (sym series))

  -- In a tenant's report each row's series is the count of the metric that its rule records, the same that
  -- the totals take, and nothing for an alerting rule; its status is "no output" for an alerting rule,
  -- "not measured" without a count, "no series" at a count of 0 and "series" at any other.
  pub join_tenant-IsRow : All IsRow (join_tenant tenant rules tc active).rules
  unfolding join_tenant rule_row
  join_tenant-IsRow = sort_by-All less_rule IsRow _ (
      All-map IsRow (rule_row tenant tc active (writers_of [] rules))
        (λ ar. IsRow-row_of_kind ar.rule.kind ar) rules)
