-- ===== src/Attribution/Aggregate/Loop.antt =====
-- What the loop over one tenant's executions leaves behind: every execution is counted once, by its
-- rule or as unmatched.
use mathlib.Core.List.{append-nil, append_assoc}
use obscost.Prelude.{
  ℕ, ◌+◌, Bool, true, false, not, Option, none, some, List, [], ◌∷◌, ◌++◌, ◌≡◌, refl, sym, ap, ◌∙◌,
  arith, if◌then◌else◌, ◌==◌, Bool-cases, inl, inr, is_some, length, select,
}
use obscost.Prelude.Map.{Assoc, get, put}
use obscost.Float.{Float}
use obscost.Rule.{Kind, RuleId, rule_id_comparable, AnnotatedRule, RuleExecution, execution_id}
use obscost.Attribution.{RuleAggregate, value_or}
use obscost.Attribution.Accumulate.{
  add_sums, add_observed, new_rule, add_execution, TenantState, join_rule, tenant_step, tenant_loop,
}

length-cons_if {ℓ} :
    {A : Type ℓ} (b : Bool) (a : A) (rest : List A)
    → length (if b then a ∷ rest else rest) ≡ length (if b then a ∷ [] else []) + length rest
length-cons_if true a rest = omega arith
length-cons_if false a rest = omega arith

module _ {F : Type 0} where
  abbrev pub rule_total : Assoc RuleId (RuleAggregate F) → ℕ
  rule_total [] = 0
  rule_total ((id, ra) ∷ m) = ra.execution_count + rule_total m

  abbrev executions_in : Option (RuleAggregate F) → ℕ
  executions_in none = 0
  executions_in (some ra) = ra.execution_count

  rule_total-put :
      (id : RuleId) (ra : RuleAggregate F) (m : Assoc RuleId (RuleAggregate F))
      → rule_total (put id ra m) + executions_in (get id m) ≡ rule_total m + ra.execution_count
  unfolding put get
  rule_total-put id ra [] = omega arith
  rule_total-put id ra ((j, w) ∷ m) = elim (Bool-cases (id == j)) [
    | inl e ↦ rw e (omega arith)
    | inr e ↦ rw e (omega (arith, rule_total-put id ra m))
  ]

module _ {F : Type 0} ⦃f : Float F⦄ {Ast : Type 0} (defs : Assoc RuleId (AnnotatedRule Ast)) where
  -- Whether an execution joins to a definition.
  abbrev pub is_joined : RuleExecution F → Bool
  is_joined e = is_some (get (execution_id e) defs)

  abbrev pub is_unmatched : RuleExecution F → Bool
  is_unmatched e = not (is_joined e)

  unmatched-join_rule :
      (s : TenantState F) (e : RuleExecution F) (d : Option (AnnotatedRule Ast))
      → (join_rule s e d).unmatched ≡ s.unmatched ++ (if not (is_some d) then e ∷ [] else [])
  unmatched-join_rule s e none = refl
  unmatched-join_rule s e (some d) = sym (append-nil s.unmatched)

  pub unmatched-tenant_loop :
      (s : TenantState F) (es : List (RuleExecution F))
      → (tenant_loop defs s es).unmatched ≡ s.unmatched ++ select is_unmatched es
  unfolding tenant_loop tenant_step select
  unmatched-tenant_loop s [] = sym (append-nil s.unmatched)
  unmatched-tenant_loop s (e ∷ es) =
      unmatched-tenant_loop (tenant_step defs s e) es
      ∙ ap (λ xs. xs ++ select is_unmatched es)
          (unmatched-join_rule
            (record s { sums = add_sums s.sums e; observed = add_observed s.observed e }) e
            (get (execution_id e) defs))
      ∙ append_assoc s.unmatched _ _
      ∙ ap (λ xs. s.unmatched ++ xs)
          (elim (Bool-cases (is_joined e)) [ inl h ↦ rw h refl | inr h ↦ rw h refl ])

  counted-value_or :
      (o : Option (RuleAggregate F)) (id : RuleId) (kind : Kind)
      → (value_or o (new_rule id kind)).execution_count ≡ executions_in o
  counted-value_or none id kind = refl
  counted-value_or (some ra) id kind = refl

  counted-join_rule :
      (s : TenantState F) (e : RuleExecution F) (d : Option (AnnotatedRule Ast))
      → rule_total (join_rule s e d).rules + (join_rule s e d).unmatched_executions
        ≡ 1 + (rule_total s.rules + s.unmatched_executions)
  counted-join_rule s e none = omega arith
  counted-join_rule s e (some d) =
      let id = execution_id e in
      let ra = value_or (get id s.rules) (new_rule id d.rule.kind) in
      omega (
        arith,
        rule_total-put id (add_execution ra e) s.rules,
        counted-value_or (get id s.rules) id d.rule.kind,
      )

  pub counted-tenant_loop :
      (s : TenantState F) (es : List (RuleExecution F))
      → rule_total (tenant_loop defs s es).rules + (tenant_loop defs s es).unmatched_executions
        ≡ length es + (rule_total s.rules + s.unmatched_executions)
  unfolding tenant_loop tenant_step
  counted-tenant_loop s [] = omega arith
  counted-tenant_loop s (e ∷ es) =
      let s' = record s { sums = add_sums s.sums e; observed = add_observed s.observed e } in
      omega (
        arith,
        counted-tenant_loop (tenant_step defs s e) es,
        counted-join_rule s' e (get (execution_id e) defs),
      )

  unmatched_executions-join_rule :
      (s : TenantState F) (e : RuleExecution F) (d : Option (AnnotatedRule Ast))
      → (join_rule s e d).unmatched_executions
        ≡ s.unmatched_executions + length (if not (is_some d) then e ∷ [] else [])
  unmatched_executions-join_rule s e none = omega arith
  unmatched_executions-join_rule s e (some d) = omega arith

  pub unmatched_executions-tenant_loop :
      (s : TenantState F) (es : List (RuleExecution F))
      → (tenant_loop defs s es).unmatched_executions
        ≡ s.unmatched_executions + length (select is_unmatched es)
  unfolding tenant_loop tenant_step select
  unmatched_executions-tenant_loop s [] = omega arith
  unmatched_executions-tenant_loop s (e ∷ es) =
      let s' = record s { sums = add_sums s.sums e; observed = add_observed s.observed e } in
      omega (
        arith,
        unmatched_executions-tenant_loop (tenant_step defs s e) es,
        unmatched_executions-join_rule s' e (get (execution_id e) defs),
        length-cons_if (is_unmatched e) e (select is_unmatched es),
      )

  -- The state without the list that the report collects.
  abbrev clear : TenantState F → TenantState F
  clear s = record s { unmatched = [] }

  clear-join_rule :
      (s : TenantState F) (e : RuleExecution F) (d : Option (AnnotatedRule Ast))
      → clear (join_rule s e d) ≡ clear (join_rule (clear s) e d)
  clear-join_rule s e none = refl
  clear-join_rule s e (some d) = refl

  pub clear-tenant_loop :
      (s : TenantState F) (es : List (RuleExecution F))
      → clear (tenant_loop defs s es) ≡ clear (tenant_loop defs (clear s) es)
  unfolding tenant_loop tenant_step
  clear-tenant_loop s [] = refl
  clear-tenant_loop s (e ∷ es) =
      let s' = record s { sums = add_sums s.sums e; observed = add_observed s.observed e } in
      clear-tenant_loop (tenant_step defs s e) es
      ∙ ap (λ t. clear (tenant_loop defs t es)) (clear-join_rule s' e (get (execution_id e) defs))
      ∙ sym (clear-tenant_loop (tenant_step defs (clear s) e) es)
