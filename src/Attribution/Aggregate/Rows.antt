-- ===== src/Attribution/Aggregate/Rows.antt =====
-- The rows of `Aggregate` before they are ranked: one for each name, from that tenant's executions.
use mathlib.Core.List.{append-nil, append_assoc}
use obscost.Prelude.{
  ℕ, String, ◌||◌, List, [], ◌∷◌, ◌++◌, map, ◌≡◌, sym, ap, ◌∙◌, arith, string_comparable, contains,
  is_some, length, select,
}
use obscost.Prelude.Int.{ℤ, pos}
use obscost.Prelude.Map.{Assoc, keys, get, put, get-put, contains-keys-put}
use obscost.Prelude.Names.{add_name}
use obscost.Float.{Float}
use obscost.Rule.{RuleId, rule_id_comparable, AnnotatedRule, RuleExecution, definition_id}
use obscost.Attribution.{RankMetric, TenantAggregate}
use obscost.Attribution.Accumulate.{get_list, index_definitions, ids_by_tenant, Sums, tenant_loop}
use obscost.Attribution.Aggregate.{empty_state, tenant_row, tenant_rows}
use obscost.Attribution.Aggregate.Loop.{is_unmatched, unmatched-tenant_loop, clear-tenant_loop}

module _ {Ast : Type 0} where
  -- The last definition of an id wins; an id is found exactly if some definition has it.
  pub found-index_definitions :
      (id : RuleId) (m : Assoc RuleId (AnnotatedRule Ast)) (ds : List (AnnotatedRule Ast))
      → is_some (get id (index_definitions m ds))
        ≡ (is_some (get id m) || contains id (map definition_id ds))
  unfolding index_definitions contains
  found-index_definitions id m [] = ground arith
  found-index_definitions id m (d ∷ ds) = ground (
    arith,
    found-index_definitions id (put (definition_id d) d m) ds,
    get-put (definition_id d) id d m,
  )

  pub keys-ids_by_tenant :
      (t : String) (m : Assoc String (List RuleId)) (ds : List (AnnotatedRule Ast))
      → contains t (keys (ids_by_tenant m ds))
        ≡ (contains t (keys m) || contains t (map (λ d. d.tenant) ds))
  unfolding ids_by_tenant contains
  keys-ids_by_tenant t m [] = ground arith
  keys-ids_by_tenant t m (d ∷ ds) =
      let v = add_name (get_list d.tenant m) (definition_id d) in
      ground (arith, keys-ids_by_tenant t (put d.tenant v m) ds, contains-keys-put d.tenant t v m)

module _ {F : Type 0} ⦃f : Float F⦄ {Ast : Type 0} (executions_of : String → List (RuleExecution F))
    (defs : Assoc RuleId (AnnotatedRule Ast)) where
  -- What the tenants leave unmatched, one after the other.
  abbrev pub left_over : List String → List (RuleExecution F)
  left_over [] = []
  left_over (t ∷ ts) = select (is_unmatched defs) (executions_of t) ++ left_over ts

module _ {F : Type 0} ⦃f : Float F⦄ {Ast : Type 0} (executions_of : String → List (RuleExecution F))
    (rule_count : String → ℕ) (defs : Assoc RuleId (AnnotatedRule Ast)) (metric : RankMetric)
    (total_executions : ℤ) (total : Sums F) where
  abbrev row_from : String → List (RuleExecution F) → TenantAggregate F
  row_from t u =
      tenant_row t (rule_count t) (pos (length (executions_of t))) metric total_executions total
        (tenant_loop defs (empty_state u) (executions_of t))

  -- The row of a tenant does not depend on what the other tenants left unmatched.
  abbrev pub row : String → TenantAggregate F
  row t = row_from t []

  row_from-eq-row : (t : String) (u : List (RuleExecution F)) → row_from t u ≡ row t
  unfolding tenant_row
  row_from-eq-row t u =
      ap
        (tenant_row t (rule_count t) (pos (length (executions_of t))) metric total_executions total)
        (clear-tenant_loop defs (empty_state u) (executions_of t))
      ∙ sym (
          ap
            (tenant_row t (rule_count t) (pos (length (executions_of t))) metric total_executions
              total)
            (clear-tenant_loop defs (empty_state []) (executions_of t)))

  pub rows-tenant_rows :
      (rows : List (TenantAggregate F)) (u : List (RuleExecution F)) (ts : List String)
      → (tenant_rows executions_of rule_count defs metric total_executions total rows u ts).0
        ≡ rows ++ map row ts
  unfolding tenant_rows
  rows-tenant_rows rows u [] = sym (append-nil rows)
  rows-tenant_rows rows u (t ∷ ts) =
      rows-tenant_rows (rows ++ row_from t u ∷ []) _ ts
      ∙ append_assoc rows (row_from t u ∷ []) (map row ts)
      ∙ ap (λ r. rows ++ r ∷ map row ts) (row_from-eq-row t u)

  pub unmatched-tenant_rows :
      (rows : List (TenantAggregate F)) (u : List (RuleExecution F)) (ts : List String)
      → (tenant_rows executions_of rule_count defs metric total_executions total rows u ts).1
        ≡ u ++ left_over executions_of defs ts
  unfolding tenant_rows
  unmatched-tenant_rows rows u [] = sym (append-nil u)
  unmatched-tenant_rows rows u (t ∷ ts) =
      unmatched-tenant_rows (rows ++ row_from t u ∷ []) _ ts
      ∙ ap (λ us. us ++ left_over executions_of defs ts)
          (unmatched-tenant_loop defs (empty_state u) (executions_of t))
      ∙ append_assoc u (select (is_unmatched defs) (executions_of t))
          (left_over executions_of defs ts)
