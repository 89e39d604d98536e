-- ===== src/Attribution/Aggregate/Conservation.antt =====
-- `Aggregate` loses no execution and counts none twice.
use mathlib.Core.List.{map-map, map-id, Perm}
use mathlib.Core.List.Perm
use mathlib.Core.Path.{fun_ext}
use obscost.Prelude.{
  ℕ, ◌+◌, String, Bool, true, not, ◌||◌, List, [], ◌∷◌, ◌++◌, map, ◌≡◌, refl, ap, ◌∙◌, arith, ◌==◌,
  string_comparable, contains, length, select, All, All-imp, All-map, All-select, contains-keys,
  IsDistinct,
}
use obscost.Prelude.Int.{ℤ, pos, pos_part}
use obscost.Prelude.Sort.{
  sort_by, sort_by-perm, sort_by-All, IsSorted, sort_by-IsSorted, contains-keys-sort_by,
  IsDistinct-sort_by,
}
use obscost.Prelude.Map.{Assoc, keys, get}
use obscost.Prelude.Names.{add_names, contains-add_names, add_names-IsDistinct}
use obscost.Prelude.Counting.{sum, sum-sort_by, sum-with_key}
use obscost.Prelude.Buckets.{select-select, gather, gather-perm}
use obscost.Float.{Float, IsOrdered}
use obscost.Float.Ranking.{ranked_before, ranked-IsStrict}
use obscost.Rule.{
  RuleId, rule_id_comparable, AnnotatedRule, RuleExecution, execution_id, definition_id,
}
use obscost.Attribution.{RankMetric, RuleAggregate, TenantAggregate, pick_rank_metric}
use obscost.Attribution.Accumulate.{
  get_list, index_definitions, ids_by_tenant, executions_by_tenant, Sums, no_sums, sum_all,
  TenantState, tenant_loop,
}
use obscost.Attribution.Aggregate.{
  empty_state, tenant_row, tenant_rows, rank_rules, finish_rule, rank_tenant, rank_of_sums,
  rule_less, tenant_less, unmatched_less, aggregate,
}
use obscost.Attribution.Aggregate.Buckets.{of_tenant, get_list-by_tenant, keys-by_tenant}
use obscost.Attribution.Aggregate.Loop.{rule_total, is_unmatched, counted-tenant_loop}
use obscost.Attribution.Aggregate.Rows.{
  row, rows-tenant_rows, left_over, unmatched-tenant_rows, found-index_definitions,
  keys-ids_by_tenant,
}

module _ {F : Type 0} ⦃f : Float F⦄ {Ast : Type 0} (executions : List (RuleExecution F))
    (definitions : List (AnnotatedRule Ast)) where
  abbrev pub defs : Assoc RuleId (AnnotatedRule Ast)
  defs = index_definitions [] definitions

  abbrev pub total : Sums F
  total = sum_all no_sums executions

  abbrev pub metric : RankMetric
  metric = pick_rank_metric total.duration total.samples total.series total.chunks total.bytes

  -- `tenantSet`
  abbrev pub names : List String
  names =
      add_names (add_names [] (keys (ids_by_tenant [] definitions)))
        (keys (executions_by_tenant [] executions))

  abbrev pub executions_of : String → List (RuleExecution F)
  executions_of t = get_list t (executions_by_tenant [] executions)

  pub executions_of-of_tenant : executions_of ≡ (λ t. of_tenant t executions)
  unfolding select get
  executions_of-of_tenant = fun_ext λ t. get_list-by_tenant t [] executions

  names-IsDistinct : IsDistinct names
  names-IsDistinct = add_names-IsDistinct _ _ (add_names-IsDistinct [] _ tt)

  contains-names :
      (t : String)
      → contains t names ≡ (
          contains t (map (λ d. d.tenant) definitions)
          || contains t (map (λ e. e.tenant) executions))
  unfolding contains
  contains-names t =
      contains-add_names t _ _
      ∙ ground (
        arith,
        contains-add_names t [] (keys (ids_by_tenant [] definitions)),
        keys-ids_by_tenant t [] definitions,
        keys-by_tenant t [] executions,
      )

  abbrev pub ranked_row : String → TenantAggregate F
  ranked_row t = rank_tenant metric (rank_of_sums metric (pos (length executions)) total) (
      row executions_of (λ s. length (get_list s (ids_by_tenant [] definitions))) defs metric
        (pos (length executions)) total t)

  pub tenants-aggregate :
      (aggregate executions definitions).tenants ≡ sort_by tenant_less (map ranked_row names)
  unfolding aggregate
  tenants-aggregate = ap (sort_by tenant_less) (
      ap (map (rank_tenant metric (rank_of_sums metric (pos (length executions)) total)))
        (rows-tenant_rows executions_of _ defs metric (pos (length executions)) total [] [] names)
      ∙ map-map _ _ names)

  covered : All (λ e. contains e.tenant names ≡ true) executions
  covered =
      All-imp (λ e h. ground (arith, contains-names e.tenant)) executions
        (contains-keys (λ e. e.tenant) executions)

  -- Each tenant of the report is credited with exactly the executions that name it, and the tenants'
  -- counts sum to the number of executions, which the report states.
  pub tenants-executions :
      let report = aggregate executions definitions in
      All (λ t. t.execution_count ≡ pos (length (of_tenant t.tenant executions))) report.tenants
      × (pos (sum (map (λ t. pos_part t.execution_count) report.tenants)) ≡ report.total_executions)
  unfolding rank_tenant tenant_row aggregate
  tenants-executions = (
    rw tenants-aggregate (
        sort_by-All tenant_less
          (λ t. t.execution_count ≡ pos (length (of_tenant t.tenant executions)))
          (map ranked_row names)
          (All-map (λ t. t.execution_count ≡ pos (length (of_tenant t.tenant executions)))
            ranked_row (λ t. ap (λ g. pos (length (g t))) executions_of-of_tenant) names)),
    ap pos (
        rw tenants-aggregate (
          sum-sort_by (λ t. pos_part t.execution_count) tenant_less (map ranked_row names)
          ∙ ap sum (map-map (λ t. pos_part t.execution_count) ranked_row names)
          ∙ ap (λ g. sum (map (λ t. length (g t)) names)) executions_of-of_tenant
          ∙ sum-with_key (λ e. e.tenant) names names-IsDistinct executions covered)),
  )

  rules-tenant_row :
      (t : String) (count : ℤ) (n : ℕ) (s : TenantState F)
      → sum (
          map
            (λ r. r.execution_count)
            (tenant_row t n count metric (pos (length executions)) total s).rules)
        ≡ rule_total s.rules
  unfolding tenant_row rank_rules finish_rule
  rules-tenant_row t count n s =
      sum-sort_by (λ r. r.execution_count) rule_less _
      ∙ ap sum (map-map (λ r. r.execution_count) _ s.rules)
      ∙ go s.rules
    where
      go :
          (m : Assoc RuleId (RuleAggregate F))
          → sum (map (λ entry. entry.1.execution_count) m) ≡ rule_total m
      go [] = refl
      go ((id, ra) ∷ m) = ap (λ n. ra.execution_count + n) (go m)

  -- In each tenant's row every execution is counted by one of its rules or as unmatched.
  pub tenants-rules :
      All
        (λ t.
          pos (sum (map (λ r. r.execution_count) t.rules) + t.unmatched_executions)
          ≡ t.execution_count)
        (aggregate executions definitions).tenants
  unfolding rank_tenant tenant_row
  tenants-rules = rw tenants-aggregate (
      sort_by-All tenant_less
        (λ t.
          pos (sum (map (λ r. r.execution_count) t.rules) + t.unmatched_executions)
          ≡ t.execution_count)
        (map ranked_row names)
        (All-map
          (λ t.
            pos (sum (map (λ r. r.execution_count) t.rules) + t.unmatched_executions)
            ≡ t.execution_count)
          ranked_row
          (λ t.
            let s = tenant_loop defs (empty_state []) (executions_of t) in
            ap pos (
              ap (λ n. n + s.unmatched_executions)
                (rules-tenant_row t (pos (length (executions_of t)))
                  (length (get_list t (ids_by_tenant [] definitions))) s)
              ∙ counted-tenant_loop defs (empty_state []) (executions_of t)
              ∙ omega arith))
          names))

  left_over-gather :
      (ts : List String)
      → left_over executions_of defs ts
        ≡ gather (λ e. e.tenant) (select (is_unmatched defs) executions) ts
  left_over-gather [] = refl
  left_over-gather (t ∷ ts) =
      ap (λ g. select (is_unmatched defs) (g t) ++ left_over executions_of defs ts)
        executions_of-of_tenant
      ∙ ap (λ us. us ++ left_over executions_of defs ts)
          (select-select (is_unmatched defs) (λ e. e.tenant == t) executions)
      ∙ ap (λ us. of_tenant t (select (is_unmatched defs) executions) ++ us) (left_over-gather ts)

  -- No definition has the id of an execution.
  abbrev pub is_orphan : RuleExecution F → Bool
  is_orphan e = not (contains (execution_id e) (map definition_id definitions))

  unmatched-orphan : is_unmatched {F = F} defs ≡ is_orphan
  unfolding get
  unmatched-orphan = fun_ext λ e. ap not (found-index_definitions (execution_id e) [] definitions)

  abbrev loop_unmatched : List (RuleExecution F)
  loop_unmatched =
      (tenant_rows executions_of (λ t. length (get_list t (ids_by_tenant [] definitions))) defs
        metric (pos (length executions)) total [] [] names).1

  loop_unmatched-perm : Perm loop_unmatched (select is_orphan executions)
  loop_unmatched-perm =
      rw
        (unmatched-tenant_rows executions_of
            (λ t. length (get_list t (ids_by_tenant [] definitions))) defs metric
            (pos (length executions)) total [] [] names
          ∙ left_over-gather names)
        (rw unmatched-orphan (
          gather-perm (λ e. e.tenant) names names-IsDistinct (select is_orphan executions)
            (All-select (λ e. contains e.tenant names ≡ true) is_orphan executions covered)))

  -- The report's unmatched executions are exactly those whose id no definition has, each as often as in
  -- the input.
  pub aggregate-unmatched :
      Perm (aggregate executions definitions).unmatched (select is_orphan executions)
  unfolding aggregate
  aggregate-unmatched = Perm.trans (sort_by-perm unmatched_less loop_unmatched) loop_unmatched-perm

  tenant-ranked_row : map (λ t. t.tenant) (map ranked_row names) ≡ names
  unfolding rank_tenant tenant_row
  tenant-ranked_row = map-map (λ t. t.tenant) ranked_row names ∙ map-id names

  -- The rows are the tenants that own a definition or have an execution, each once; and where no value is
  -- NaN (the comparisons are those of ordered numbers), of two rows the one with the larger rank value
  -- comes first, or the one with the smaller name if the values are equal.
  pub tenants-ranked :
      IsOrdered F
      → let tenants = (aggregate executions definitions).tenants in
        ((t : String)
          → contains t (map (λ row. row.tenant) tenants) ≡ (
              contains t (map (λ d. d.tenant) definitions)
              || contains t (map (λ e. e.tenant) executions)))
        × IsDistinct (map (λ row. row.tenant) tenants)
        × IsSorted (ranked_before (λ (t : TenantAggregate F). t.rank_value) (λ t. t.tenant)) tenants
  tenants-ranked ordered = rw tenants-aggregate (
    λ t.
        contains-keys-sort_by (λ row. row.tenant) tenant_less t (map ranked_row names)
        ∙ ap (contains t) tenant-ranked_row
        ∙ contains-names t,
    IsDistinct-sort_by (λ row. row.tenant) tenant_less (map ranked_row names)
        (rw tenant-ranked_row names-IsDistinct),
    sort_by-IsSorted tenant_less (ranked-IsStrict ordered (λ t. t.rank_value) (λ t. t.tenant))
        (map ranked_row names),
  )
