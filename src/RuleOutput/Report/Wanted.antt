-- ===== src/RuleOutput/Report/Wanted.antt =====
-- `Wanted`, `Count` and `Join` together.
use mathlib.Core.Path.{subst}
use obscost.Prelude.{
  String, Bool, true, false, not, ◌&&◌, ◌||◌, Option, some, List, [], ◌∷◌, ◌++◌, map, ◌≡◌, refl,
  sym, ap, ◌∙◌, arith, ◌==◌, string_comparable, Bool-cases, inl, inr, is_some, contains,
  contains-append, select, All, All-imp, All-select, All-selected, All-both,
}
use obscost.Prelude.Map.{Assoc, get, put, entries-get}
use obscost.Prelude.Map.Nested.{get_in}
use obscost.Prelude.Sort.{sort_by-All}
use obscost.Prelude.Int.{ℤ}
use obscost.Prelude.Result.{Error, Result}
use obscost.Float.{Float}
use obscost.Promapi.{Sample}
use obscost.Rule.{Kind, recording, alerting, AnnotatedRule}
use obscost.Attribution.{value_or}
use obscost.Attribution.Accumulate.{get_list, by_key}
use obscost.Attribution.Aggregate.Buckets.{get_list-put, get_list-by_key, by_key-IsDistinct}
use obscost.RuleOutput.Join.{
  RuleOutput, TenantOutputs, MetricCount, is_recording, less_rule, writers_of, rule_row,
  row_of_kind, join_tenant,
}
use obscost.RuleOutput.Count.{Job, Limits, Counting, with_defaults, prepare, Run}
use obscost.RuleOutput.Count.Writes.{asks}
use obscost.RuleOutput.Count.Reach.{results_of, Run-prepare}
use obscost.RuleOutput.Report.{
  Counts, Denominator, active_of, larger_output, join_all, join, is_wanted, wanted,
}

or_false : (a : Bool) → a ≡ (a || (false || false))
or_false true = refl
or_false false = refl

or_step : (a b c : Bool) → ((a || (b || false)) || c) ≡ (a || (b || c))
or_step true b c = refl
or_step false true c = refl
or_step false false c = refl

and_step :
    (r x y d p k o : Bool)
    → (k ≡ true → y ≡ x)
    → (o && not y) ≡ o
    → (((((r && not x) && d) && (p && k)) || o) && not y) ≡ ((((r && not x) && d) && (p && k)) || o)
and_step r x y d p true o same h = ground (arith, h, same refl)
and_step r x y d p false o same h = ground (arith, h)

module _ {Ast : Type 0} where
  -- Whether a rule of a tenant records a metric.
  unfoldable pub is_output : String → String → List (AnnotatedRule Ast) → Bool
  is_output t n [] = false
  is_output t n (ar ∷ ars) =
      (is_wanted ar && (t == ar.tenant && n == ar.rule.record_name)) || is_output t n ars

  contains-wanted :
      (t n : String) (m : Assoc String (List String)) (rules : List (AnnotatedRule Ast))
      → contains n (get_list t (wanted m rules))
        ≡ (contains n (get_list t m) || is_output t n rules)
  unfolding wanted is_output contains
  contains-wanted t n m [] = ground arith
  contains-wanted t n m (ar ∷ ars) = elim (Bool-cases (is_wanted ar)) [
    | inl e ↦
        let old = get_list ar.tenant m in
        let v = old ++ ar.rule.record_name ∷ [] in
        rw e (
          contains-wanted t n (put ar.tenant v m) ars
          ∙ ap (λ ns. contains n ns || is_output t n ars) (get_list-put t ar.tenant v m)
          ∙ elim (Bool-cases (t == ar.tenant)) [
            | inl k ↦ rw k (
                ap (λ b. b || is_output t n ars) (contains-append n old (ar.rule.record_name ∷ []))
                ∙ ap
                    (λ x.
                      (contains n (get_list x m) || (n == ar.rule.record_name || false))
                      || is_output t n ars)
                    (sym ((string_comparable.equal_iff t ar.tenant).0 k))
                ∙ or_step (contains n (get_list t m)) (n == ar.rule.record_name)
                    (is_output t n ars))
            | inr k ↦ rw k (ground arith)
          ])
    | inr e ↦ rw e (contains-wanted t n m ars)
  ]

  not_empty-is_output :
      (t n : String) (rules : List (AnnotatedRule Ast))
      → (is_output t n rules && not (n == "")) ≡ is_output t n rules
  unfolding is_output
  not_empty-is_output t n [] = refl
  not_empty-is_output t n (ar ∷ ars) =
      and_step (is_recording ar.rule.kind) (ar.rule.record_name == "") (n == "")
        (not (ar.tenant == "")) (t == ar.tenant) (n == ar.rule.record_name) (is_output t n ars)
        (λ k. ap (λ x. x == "") ((string_comparable.equal_iff n ar.rule.record_name).0 k))
        (not_empty-is_output t n ars)

  -- Each rule is among the outputs, if it is wanted.
  abbrev IsListed : List (AnnotatedRule Ast) → AnnotatedRule Ast → Type 0
  IsListed rules ar = (not (is_wanted ar) || is_output ar.tenant ar.rule.record_name rules) ≡ true

  All-IsListed : (rules : List (AnnotatedRule Ast)) → All (IsListed rules) rules
  unfolding is_output
  All-IsListed [] = tt
  All-IsListed (ar ∷ ars) = (
    ground (
      arith,
      string_comparable.equal_iff ar.tenant ar.tenant,
      string_comparable.equal_iff ar.rule.record_name ar.rule.record_name,
    ),
    All-imp (λ a h. ground (arith, h)) ars (All-IsListed ars),
  )

  -- A rule of a tenant, which is wanted only if it is listed.
  abbrev IsOwn : List (AnnotatedRule Ast) → String → AnnotatedRule Ast → Type 0
  IsOwn rules tenant ar = ((ar.tenant == tenant) ≡ true) × IsListed rules ar

module _ {Ast : Type 0} (rules : List (AnnotatedRule Ast)) where
  abbrev groups : Assoc String (List (AnnotatedRule Ast))
  groups = by_key (λ ar. ar.tenant) [] rules

  IsOwn-group :
      (tenant : String) (ars : List (AnnotatedRule Ast))
      → get tenant groups ≡ some ars
      → All (IsOwn rules tenant) ars
  unfolding get
  IsOwn-group tenant ars h =
      let p = λ (ar : AnnotatedRule Ast). ar.tenant == tenant in
      subst (All (IsOwn rules tenant))
        (sym (get_list-by_key (λ ar. ar.tenant) tenant [] rules) ∙ ap (λ o. value_or o []) h)
        (All-both _ _ (select p rules) (All-selected p rules)
          (All-select (IsListed rules) p rules (All-IsListed rules)))

-- A row whose metric has a count, unless it has no tenant or no metric.
abbrev pub IsCounted :
    {F : Type 0} → Assoc String (Assoc String MetricCount) → String → RuleOutput F → Type 0
IsCounted counts tenant row =
    (is_some (get_in tenant row.output_metric counts) || (tenant == "" || row.output_metric == ""))
    ≡ true

abbrev pub AllCounted :
    {F : Type 0} → Assoc String (Assoc String MetricCount) → TenantOutputs F → Type 0
AllCounted counts t = All (IsCounted counts t.tenant) t.rules

module _ {F : Type 0} ⦃f : Float F⦄ {Ast : Type 0} where
  module _ (rules : List (AnnotatedRule Ast)) (counts : Assoc String (Assoc String MetricCount))
      (counted : (t n : String) → is_some (get_in t n counts) ≡ is_output t n rules) where
    IsCounted-row :
        (tenant : String) (tc : Assoc String MetricCount) (active : Option F)
        (w : Assoc String (List String)) (kind : Kind) (ar : AnnotatedRule Ast)
        → ar.rule.kind ≡ kind
        → IsOwn rules tenant ar
        → IsCounted counts tenant (row_of_kind kind tenant tc active w ar)
    IsCounted-row tenant tc active w alerting ar k (own, listed) = ground arith
    IsCounted-row tenant tc active w recording ar k (own, listed) =
        let same = (string_comparable.equal_iff ar.tenant tenant).0 own in
        let listed' : (not ((true && not (ar.rule.record_name == "")) && not (tenant == ""))
              || is_output tenant ar.rule.record_name rules)
            ≡ true =
          rw (k, same) at listed in
        ground (arith, listed', counted tenant ar.rule.record_name)

    IsCounted-rows :
        (tenant : String) (tc : Assoc String MetricCount) (active : Option F)
        (w : Assoc String (List String)) (ars : List (AnnotatedRule Ast))
        → All (IsOwn rules tenant) ars
        → All (IsCounted counts tenant) (map (rule_row tenant tc active w) ars)
    unfolding rule_row
    IsCounted-rows tenant tc active w [] h = tt
    IsCounted-rows tenant tc active w (ar ∷ ars) (own, h) = (
      IsCounted-row tenant tc active w ar.rule.kind ar refl own,
      IsCounted-rows tenant tc active w ars h,
    )

    AllCounted-join_tenant :
        (tenant : String) (ars : List (AnnotatedRule Ast)) (tc : Assoc String MetricCount)
        (active : Option F)
        → All (IsOwn rules tenant) ars
        → AllCounted counts (join_tenant tenant ars tc active)
    unfolding join_tenant
    AllCounted-join_tenant tenant ars tc active h =
        sort_by-All less_rule (IsCounted counts tenant)
          (map (rule_row tenant tc active (writers_of [] ars)) ars)
          (IsCounted-rows tenant tc active (writers_of [] ars) ars h)

    AllCounted-join_all :
        (denom : Option (Denominator F)) (m : Assoc String (List (AnnotatedRule Ast)))
        → All (λ entry. get entry.0 (groups rules) ≡ some entry.1) m
        → All (AllCounted counts) (join_all counts denom m)
    AllCounted-join_all denom [] h = tt
    AllCounted-join_all denom ((tenant, ars) ∷ m) (h, hs) = (
      AllCounted-join_tenant tenant ars _ (active_of denom tenant) (IsOwn-group rules tenant ars h),
      AllCounted-join_all denom m hs,
    )

    AllCounted-join :
        (format_time : ℤ → String) (c : Counts) (denom : Option (Denominator F))
        → c.tenants ≡ counts
        → All (AllCounted counts) (join format_time rules c denom).tenants
    unfolding join
    AllCounted-join format_time c denom h =
        sort_by-All larger_output (AllCounted counts) (join_all c.tenants denom (groups rules)) (
          rw h (
            AllCounted-join_all denom (groups rules)
              (entries-get (groups rules) (by_key-IsDistinct (λ ar. ar.tenant) [] rules tt))))

module _ {F : Type 0} ⦃f : Float F⦄ {Ast : Type 0} (round : F → ℤ) (text : Error → String)
    (answer : Job → Result (List (Sample F))) where
  counts-Run :
      (l : Limits) (rules : List (AnnotatedRule Ast)) {u : Counting}
      → Run
          (with_defaults l)
          (results_of round text answer)
          (prepare (with_defaults l) (wanted [] rules))
          u
      → u.waiting ≡ []
      → u.running ≡ []
      → (t n : String) → is_some (get_in t n u.tenants) ≡ is_output t n rules
  unfolding asks get
  counts-Run l rules {u} r w k t n =
      let (covered, within) = Run-prepare round text answer l (wanted [] rules) t n r in
      let wanted_lem = contains-wanted t n [] rules in
      let nothing = not_empty-is_output t n rules in
      or_false (is_some (get_in t n u.tenants))
      ∙ rw (w, k) at covered
      ∙ ap (λ b. b && not (n == "")) wanted_lem
      ∙ nothing

  -- If the names that the rules want are counted, then when no job is left, in whatever order the
  -- goroutines went and whichever of them failed or gave up, exactly the metrics that a recording rule
  -- of a tenant writes have a count; and in the joined report each row with a tenant and a metric has one.
  pub Run-join :
      (l : Limits) (rules : List (AnnotatedRule Ast)) (format_time : ℤ → String) (c : Counts)
      (denom : Option (Denominator F)) (t n : String) {u : Counting}
      → Run
          (with_defaults l)
          (results_of round text answer)
          (prepare (with_defaults l) (wanted [] rules))
          u
      → u.waiting ≡ []
      → u.running ≡ []
      → c.tenants ≡ u.tenants
      → (is_some (get_in t n u.tenants) ≡ is_output t n rules)
        × All (AllCounted u.tenants) (join format_time rules c denom).tenants
  Run-join l rules format_time c denom t n {u} r w k same =
      let counted = counts-Run l rules r w k in
      (counted t n, AllCounted-join rules u.tenants counted format_time c denom same)
