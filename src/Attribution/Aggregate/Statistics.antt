-- ===== src/Attribution/Aggregate/Statistics.antt =====
-- What the loops of `Aggregate` leave in the statistics of a tenant and of the report.
use obscost.Prelude.{
  ℕ, ◌+◌, ◌%◌, ◌^◌, String, Bool, false, ◌||◌, Option, none, some, List, [], ◌∷◌, map, ◌≡◌, refl,
  ap, ◌∙◌, arith, string_comparable, is_some, All, All-map,
}
use mathlib.Core.Path.{subst}
use obscost.Prelude.Int.{◌+u64◌}
use obscost.Prelude.Map.{Assoc, get}
use obscost.Prelude.Sort.{sort_by-All}
use obscost.Prelude.Counting.{sum}
use obscost.Float.{Float}
use obscost.Rule.{RuleId, rule_id_comparable, AnnotatedRule, RuleExecution, execution_id}
use obscost.Attribution.{TenantAggregate, value_or}
use obscost.Attribution.Accumulate.{
  Sums, Observed, no_sums, add_sums, add_observed, sum_all, TenantState, join_rule, tenant_step,
  tenant_loop,
}
use obscost.Attribution.Aggregate.{empty_state, aggregate, tenant_less, tenant_row, rank_tenant}
use obscost.Attribution.Aggregate.Buckets.{of_tenant}
use obscost.Attribution.Aggregate.Conservation.{
  defs, names, executions_of, executions_of-of_tenant, ranked_row, tenants-aggregate,
}

module _ {F : Type 0} where
  abbrev pub figures : (RuleExecution F → Option ℕ) → List (RuleExecution F) → List ℕ
  figures g es = map (λ e. value_or (g e) 0) es

  -- The sum of one figure of some executions, as a counter of 64 bits holds it.
  abbrev pub total_of : (RuleExecution F → Option ℕ) → List (RuleExecution F) → ℕ
  total_of g es = sum (figures g es) % 2 ^ 64

module _ {F : Type 0} {V : Type 0} where
  -- Whether one of some executions has a figure.
  abbrev pub any_measured : (RuleExecution F → Option V) → List (RuleExecution F) → Bool
  any_measured g [] = false
  any_measured g (e ∷ es) = is_some (g e) || any_measured g es

module _ {F : Type 0} ⦃f : Float F⦄ where
  -- A counter that `add_sums` advances by a figure ends at that figure's sum.
  counter-sum_all :
      (counter : Sums F → ℕ) (g : RuleExecution F → Option ℕ)
      → ((s : Sums F) (e : RuleExecution F)
          → counter (add_sums s e) ≡ (counter s + value_or (g e) 0) % 2 ^ 64)
      → (s : Sums F) (k : ℕ) (es : List (RuleExecution F)) → counter s ≡ k % 2 ^ 64
      → counter (sum_all s es) ≡ (k + sum (figures g es)) % 2 ^ 64
  unfolding sum_all
  counter-sum_all counter g adds s k [] h = omega (arith, h)
  counter-sum_all counter g adds s k (e ∷ es) h =
      counter-sum_all counter g adds (add_sums s e) (k + value_or (g e) 0) es
        (omega (arith, h, adds s e))
      ∙ omega arith

  counter_lem :
      (counter : Sums F → ℕ) (g : RuleExecution F → Option ℕ)
      → ((s : Sums F) (e : RuleExecution F)
          → counter (add_sums s e) ≡ (counter s + value_or (g e) 0) % 2 ^ 64)
      → counter no_sums ≡ 0
      → (es : List (RuleExecution F)) → counter (sum_all no_sums es) ≡ total_of g es
  counter_lem counter g adds h es =
      counter-sum_all counter g adds no_sums 0 es (omega (arith, h)) ∙ omega arith

module _ {F : Type 0} ⦃f : Float F⦄ {Ast : Type 0} (defs : Assoc RuleId (AnnotatedRule Ast)) where
  sums-join_rule :
      (s : TenantState F) (e : RuleExecution F) (d : Option (AnnotatedRule Ast))
      → ((join_rule s e d).sums ≡ s.sums) × ((join_rule s e d).observed ≡ s.observed)
  sums-join_rule s e none = (refl, refl)
  sums-join_rule s e (some d) = (refl, refl)

  sums-tenant_loop :
      (s : TenantState F) (es : List (RuleExecution F))
      → (tenant_loop defs s es).sums ≡ sum_all s.sums es
  unfolding tenant_loop tenant_step sum_all
  sums-tenant_loop s [] = refl
  sums-tenant_loop s (e ∷ es) =
      let s' = record s { sums = add_sums s.sums e; observed = add_observed s.observed e } in
      sums-tenant_loop (tenant_step defs s e) es
      ∙ ap (λ t. sum_all t es) (sums-join_rule s' e (get (execution_id e) defs)).0

  flag-tenant_loop :
      {V : Type 0} (flag : Observed → Bool) (g : RuleExecution F → Option V)
      → ((o : Observed) (e : RuleExecution F) → flag (add_observed o e) ≡ (flag o || is_some (g e)))
      → (s : TenantState F) (es : List (RuleExecution F))
      → flag (tenant_loop defs s es).observed ≡ (flag s.observed || any_measured g es)
  unfolding tenant_loop tenant_step
  flag-tenant_loop flag g marks s [] = ground arith
  flag-tenant_loop flag g marks s (e ∷ es) =
      let s' = record s { sums = add_sums s.sums e; observed = add_observed s.observed e } in
      flag-tenant_loop flag g marks (tenant_step defs s e) es
      ∙ ap (λ o. flag o || any_measured g es) (sums-join_rule s' e (get (execution_id e) defs)).1
      ∙ ground (arith, marks s.observed e)

-- The statistics of a row are those of some executions.
pub record IsMeasured {F : Type 0} (t : TenantAggregate F) (es : List (RuleExecution F))
    : Type 0 where
  samples : t.samples ≡ total_of (λ e. e.samples_processed) es
  series : t.series ≡ total_of (λ e. e.fetched_series) es
  chunks : t.chunks ≡ total_of (λ e. e.fetched_chunks) es
  bytes : t.bytes ≡ total_of (λ e. e.fetched_bytes) es
  samples_observed : t.samples_observed ≡ any_measured (λ e. e.samples_processed) es
  duration_observed : t.duration_observed ≡ any_measured (λ e. e.duration_seconds) es
  series_observed : t.series_observed ≡ any_measured (λ e. e.fetched_series) es
  chunks_observed : t.chunks_observed ≡ any_measured (λ e. e.fetched_chunks) es
  bytes_observed : t.bytes_observed ≡ any_measured (λ e. e.fetched_bytes) es

module _ {F : Type 0} ⦃f : Float F⦄ {Ast : Type 0} (executions : List (RuleExecution F))
    (definitions : List (AnnotatedRule Ast)) where
  ranked_row-IsMeasured :
      (t : String)
      → IsMeasured (ranked_row executions definitions t) (executions_of executions definitions t)
  unfolding rank_tenant tenant_row ◌+u64◌
  ranked_row-IsMeasured t =
      let es = executions_of executions definitions t in
      let loop = tenant_loop (defs executions definitions) (empty_state []) es in
      let sums = sums-tenant_loop (defs executions definitions) (empty_state []) es in
      record {
        samples =
            ap (λ s. s.samples) sums
            ∙ counter_lem (λ s. s.samples) (λ e. e.samples_processed) (λ s e. refl) refl es;
        series =
            ap (λ s. s.series) sums
            ∙ counter_lem (λ s. s.series) (λ e. e.fetched_series) (λ s e. refl) refl es;
        chunks =
            ap (λ s. s.chunks) sums
            ∙ counter_lem (λ s. s.chunks) (λ e. e.fetched_chunks) (λ s e. refl) refl es;
        bytes =
            ap (λ s. s.bytes) sums
            ∙ counter_lem (λ s. s.bytes) (λ e. e.fetched_bytes) (λ s e. refl) refl es;
        samples_observed =
            flag-tenant_loop (defs executions definitions) (λ o. o.samples)
              (λ e. e.samples_processed) (λ o e. refl) (empty_state []) es;
        duration_observed =
            flag-tenant_loop (defs executions definitions) (λ o. o.duration)
              (λ e. e.duration_seconds) (λ o e. refl) (empty_state []) es;
        series_observed =
            flag-tenant_loop (defs executions definitions) (λ o. o.series) (λ e. e.fetched_series)
              (λ o e. refl) (empty_state []) es;
        chunks_observed =
            flag-tenant_loop (defs executions definitions) (λ o. o.chunks) (λ e. e.fetched_chunks)
              (λ o e. refl) (empty_state []) es;
        bytes_observed =
            flag-tenant_loop (defs executions definitions) (λ o. o.bytes) (λ e. e.fetched_bytes)
              (λ o e. refl) (empty_state []) es;
      }

  -- A tenant's samples, series, chunks and bytes are the sums over the executions that name it, and the
  -- report's samples the sum over all, each modulo 2 ^ 64 and with nothing for an execution without the
  -- figure; a tenant's figure, its duration included, counts as observed exactly if one of its executions
  -- has it.
  pub tenants-IsMeasured :
      let report = aggregate executions definitions in
      All (λ t. IsMeasured t (of_tenant t.tenant executions)) report.tenants
      × (report.total_samples ≡ total_of (λ e. e.samples_processed) executions)
  unfolding aggregate rank_tenant tenant_row ◌+u64◌
  tenants-IsMeasured = (
    rw (tenants-aggregate executions definitions) (
        sort_by-All tenant_less (λ t. IsMeasured t (of_tenant t.tenant executions))
          (map (ranked_row executions definitions) (names executions definitions))
          (All-map (λ t. IsMeasured t (of_tenant t.tenant executions))
            (ranked_row executions definitions)
            (λ t.
              subst (λ g. IsMeasured (ranked_row executions definitions t) (g t))
                (executions_of-of_tenant executions definitions) (ranked_row-IsMeasured t))
            (names executions definitions))),
    counter_lem (λ s. s.samples) (λ e. e.samples_processed) (λ s e. refl) refl executions,
  )
