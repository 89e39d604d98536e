-- ===== src/RuleOutput/Join/Totals.antt =====
-- What the totals of a tenant say.
use obscost.Prelude.{
  ◌+◌, String, Bool, true, not, ◌&&◌, ◌||◌, Option, none, some, List, [], ◌∷◌, ◌++◌, map, ◌≡◌, refl,
  arith, string_comparable, Bool-cases, inl, inr, is_some, is_empty, length, select, contains,
  IsDistinct,
}
use obscost.Prelude.Int.{ℤ, pos, ◌+ℤ◌, wrap_int}
use obscost.Prelude.Map.{Assoc, keys, get, put, contains-keys-put, put-IsDistinct}
use obscost.Float.{Float}
use obscost.Rule.{AnnotatedRule}
use obscost.Attribution.{value_or}
use obscost.Attribution.Accumulate.{get_list}
use obscost.RuleOutput.Join.{
  is_recording, is_writer, rule_ref, writers_of, MetricCount, metric_series, MetricTotals,
  add_metric, add_metrics, join_tenant,
}

length-keys {ℓ κ} : {K : Type ℓ} {V : Type κ} (m : Assoc K V) → length m ≡ length (keys m)
length-keys [] = refl
length-keys ((k, v) ∷ m) = omega (arith, length-keys m)

is_empty-keys {ℓ κ} : {K : Type ℓ} {V : Type κ} (m : Assoc K V) → is_empty m ≡ is_empty (keys m)
is_empty-keys [] = refl
is_empty-keys (entry ∷ m) = refl

module _ {Ast : Type 0} where
  abbrev pub record_name : AnnotatedRule Ast → String
  record_name ar = ar.rule.record_name

  contains-writers_of :
      (t : String) (m : Assoc String (List String)) (ars : List (AnnotatedRule Ast))
      → contains t (keys (writers_of m ars))
        ≡ (contains t (keys m) || contains t (map record_name (select is_writer ars)))
  unfolding writers_of contains select
  contains-writers_of t m [] = ground arith
  contains-writers_of t m (ar ∷ ars) =
      let v = get_list ar.rule.record_name m ++ rule_ref ar ∷ [] in
      elim (Bool-cases (is_writer ar)) [
        | inl e ↦ rw e (
            ground (
              arith,
              contains-writers_of t (put ar.rule.record_name v m) ars,
              contains-keys-put ar.rule.record_name t v m,
            ))
        | inr e ↦ rw e (contains-writers_of t m ars)
      ]

  writers_of-IsDistinct :
      (m : Assoc String (List String)) (ars : List (AnnotatedRule Ast))
      → IsDistinct (keys m)
      → IsDistinct (keys (writers_of m ars))
  unfolding writers_of
  writers_of-IsDistinct m [] h = h
  writers_of-IsDistinct m (ar ∷ ars) h =
      let v = get_list ar.rule.record_name m ++ rule_ref ar ∷ [] in
      elim (Bool-cases (is_writer ar)) [
        | inl e ↦ rw e (
            writers_of-IsDistinct (put ar.rule.record_name v m) ars
              (put-IsDistinct ar.rule.record_name v m h))
        | inr e ↦ rw e (writers_of-IsDistinct m ars h)
      ]

module _ (tenant : String) (tc : Assoc String MetricCount) where
  -- The series count of a metric, if the tenant is known and the metric was counted.
  abbrev pub count_in : String → Option ℤ
  count_in m = metric_series tenant (get m tc)

  abbrev pub is_measured : String → Bool
  is_measured m = is_some (count_in m)

  abbrev add_option : Option ℤ → Option ℤ → Option ℤ
  add_option acc none = acc
  add_option acc (some n) = some (wrap_int (value_or acc (pos 0) +ℤ n))

  -- The sum of the known counts of some metrics in 64 bits, from the left; nothing if none is known.
  unfoldable pub sum_counts : Option ℤ → List String → Option ℤ
  unfolding wrap_int get
  sum_counts acc [] = acc
  sum_counts acc (m ∷ ms) = sum_counts (add_option acc (count_in m)) ms

  record IsTotal (s t : MetricTotals) (ms : List String) : Type 0 where
    not_measured : t.not_measured ≡ s.not_measured + length (select (λ m. not (is_measured m)) ms)
    complete : t.complete ≡ (s.complete && is_empty (select (λ m. not (is_measured m)) ms))
    series : t.series ≡ sum_counts s.series ms

  IsTotal-cons :
      (s t : MetricTotals) (m : String) (ms : List String) (o : Option ℤ)
      → count_in m ≡ o
      → IsTotal (add_metric s o) t ms
      → IsTotal s t (m ∷ ms)
  unfolding sum_counts select
  IsTotal-cons s t m ms none e h = record {
    not_measured = rw e (omega (arith, h.not_measured));
    complete = rw e (ground (arith, h.complete));
    series = rw e h.series;
  }
  IsTotal-cons s t m ms (some n) e h = record {
    not_measured = rw e h.not_measured;
    complete = rw e h.complete;
    series = rw e h.series;
  }

  IsTotal-add_metrics :
      (s : MetricTotals) (ms : List String) → IsTotal s (add_metrics tenant tc s ms) ms
  unfolding add_metrics sum_counts select
  IsTotal-add_metrics s [] = record {
    not_measured = omega arith;
    complete = ground arith;
    series = refl;
  }
  IsTotal-add_metrics s (m ∷ ms) =
      IsTotal-cons s _ m ms (count_in m) refl (IsTotal-add_metrics (add_metric s (count_in m)) ms)

length-halves {ℓ} :
    {A : Type ℓ} (b : A → Bool) (xs : List A)
    → length (select b xs) + length (select (λ x. not (b x)) xs) ≡ length xs
unfolding select
length-halves b [] = omega arith
length-halves b (x ∷ xs) = elim (Bool-cases (b x)) [
  | inl e ↦ rw e (omega (arith, length-halves b xs))
  | inr e ↦ rw e (omega (arith, length-halves b xs))
]

module _ {F : Type 0} ⦃f : Float F⦄ {Ast : Type 0} (tenant : String)
    (rules : List (AnnotatedRule Ast)) (tc : Assoc String MetricCount) (active : Option F) where
  abbrev pub metrics : List String
  metrics = keys (writers_of [] rules)

  abbrev pub is_missing : String → Bool
  is_missing m = not (is_measured tenant tc m)

  -- Every rule of a tenant is counted as recording or alerting. The metrics are the names that recording
  -- rules write, each once; the totals count them, count those without a series count, are complete
  -- exactly if there is a metric and none lacks a count, and their series are the sum of the known counts
  -- in 64 bits, each metric once, or nothing where no count is known.
  pub join_tenant-totals :
      let t = join_tenant tenant rules tc active in
      (t.recording_rules + t.alerting_rules ≡ length rules)
      × IsDistinct metrics
      × ((m : String) → contains m metrics ≡ contains m (map record_name (select is_writer rules)))
      × (t.output_metrics ≡ length metrics)
      × (t.not_measured_metrics ≡ length (select is_missing metrics))
      × (t.output_series_complete
          ≡ (not (is_empty metrics) && is_empty (select is_missing metrics)))
      × (t.output_series ≡ sum_counts tenant tc none metrics)
  unfolding join_tenant contains
  join_tenant-totals =
      let start : MetricTotals = record { not_measured = 0; complete = true; series = none } in
      let h = IsTotal-add_metrics tenant tc start metrics in
      (
        length-halves (λ ar. is_recording ar.rule.kind) rules,
        writers_of-IsDistinct [] rules tt,
        (λ m. contains-writers_of m [] rules),
        length-keys (writers_of [] rules),
        omega (arith, h.not_measured),
        ground (arith, h.complete, is_empty-keys (writers_of [] rules)),
        h.series,
      )
