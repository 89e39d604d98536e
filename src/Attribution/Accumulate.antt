-- ===== src/Attribution/Accumulate.antt =====
-- The maps and loops that `Aggregate` of internal/attribution/attribution.go accumulates in. The order
-- of an association list stands for the order of a range over a Go map.
use obscost.Prelude.{
  ◌+◌, ℕ, String, Bool, false, ◌||◌, Option, none, some, List, [], ◌∷◌, ◌++◌, string_comparable,
  is_some,
}
use obscost.Prelude.Int.{◌+u64◌}
use obscost.Prelude.Map.{Assoc, get, put}
use obscost.Prelude.Names.{add_name}
use obscost.Float.{Float, nought}
use obscost.Rule.{
  Kind, RuleId, rule_id_comparable, AnnotatedRule, RuleExecution, execution_id, definition_id,
}
use obscost.Attribution.{RuleAggregate, value_or}

-- `m[k]` of a map to slices or sets: a missing key reads as nil
abbrev pub get_list {ℓ} : {V : Type ℓ} → String → Assoc String (List V) → List V
get_list k m = value_or (get k m) []

module _ {Ast : Type 0} where
  -- `defsByID`
  unfoldable pub index_definitions :
      Assoc RuleId (AnnotatedRule Ast) → List (AnnotatedRule Ast) → Assoc RuleId (AnnotatedRule Ast)
  unfolding put definition_id
  index_definitions m [] = m
  index_definitions m (d ∷ ds) = index_definitions (put (definition_id d) d m) ds

  -- `ruleDefsByTenant`
  unfoldable pub ids_by_tenant :
      Assoc String (List RuleId) → List (AnnotatedRule Ast) → Assoc String (List RuleId)
  unfolding get put add_name definition_id
  ids_by_tenant m [] = m
  ids_by_tenant m (d ∷ ds) =
      ids_by_tenant (put d.tenant (add_name (get_list d.tenant m) (definition_id d)) m) ds

-- `m[key(a)] = append(m[key(a)], a)` over a slice
unfoldable pub by_key :
    {A : Type 0} → (A → String) → Assoc String (List A) → List A → Assoc String (List A)
unfolding get put
by_key key m [] = m
by_key key m (a ∷ as') = by_key key (put (key a) (get_list (key a) m ++ a ∷ []) m) as'

module _ {F : Type 0} where
  -- `executionsByTenant`
  unfoldable pub executions_by_tenant :
      Assoc String (List (RuleExecution F))
      → List (RuleExecution F)
      → Assoc String (List (RuleExecution F))
  unfolding get put
  executions_by_tenant m [] = m
  executions_by_tenant m (e ∷ es) =
      executions_by_tenant (put e.tenant (get_list e.tenant m ++ e ∷ []) m) es

-- The sums over the executions of a report or of one tenant.
pub record Sums (F : Type 0) : Type 0 where
  pub samples : ℕ
  pub duration : F
  pub series : ℕ
  pub chunks : ℕ
  pub bytes : ℕ

pub record Observed : Type 0 where
  pub samples : Bool
  pub duration : Bool
  pub series : Bool
  pub chunks : Bool
  pub bytes : Bool

module _ {F : Type 0} ⦃f : Float F⦄ where
  abbrev pub no_sums : Sums F
  no_sums = record { samples = 0; duration = nought; series = 0; chunks = 0; bytes = 0 }

  abbrev pub add_sums : Sums F → RuleExecution F → Sums F
  add_sums s e = record {
    samples = s.samples +u64 value_or e.samples_processed 0;
    duration = f.add s.duration (value_or e.duration_seconds nought);
    series = s.series +u64 value_or e.fetched_series 0;
    chunks = s.chunks +u64 value_or e.fetched_chunks 0;
    bytes = s.bytes +u64 value_or e.fetched_bytes 0;
  }

  unfoldable pub sum_all : Sums F → List (RuleExecution F) → Sums F
  unfolding ◌+u64◌
  sum_all s [] = s
  sum_all s (e ∷ es) = sum_all (add_sums s e) es

  abbrev pub add_observed : Observed → RuleExecution F → Observed
  add_observed o e = record {
    samples = o.samples || is_some e.samples_processed;
    duration = o.duration || is_some e.duration_seconds;
    series = o.series || is_some e.fetched_series;
    chunks = o.chunks || is_some e.fetched_chunks;
    bytes = o.bytes || is_some e.fetched_bytes;
  }

  abbrev pub new_rule : RuleId → Kind → RuleAggregate F
  new_rule id kind = record {
    rule_id = id;
    kind = kind;
    execution_count = 0;
    execution_share_pct = nought;
    samples = 0;
    sample_share_pct = nought;
    duration_sum = nought;
    series = 0;
    chunks = 0;
    bytes = 0;
    rank_value = nought;
    rank_share_pct = nought;
    rank_observed = false;
    samples_observed = false;
    duration_observed = false;
    series_observed = false;
    chunks_observed = false;
    bytes_observed = false;
  }

  -- `ra.Executions++` and what follows
  abbrev pub add_execution : RuleAggregate F → RuleExecution F → RuleAggregate F
  add_execution ra e = record ra {
    execution_count = ra.execution_count + 1;
    samples = ra.samples +u64 value_or e.samples_processed 0;
    duration_sum = f.add ra.duration_sum (value_or e.duration_seconds nought);
    series = ra.series +u64 value_or e.fetched_series 0;
    chunks = ra.chunks +u64 value_or e.fetched_chunks 0;
    bytes = ra.bytes +u64 value_or e.fetched_bytes 0;
    samples_observed = ra.samples_observed || is_some e.samples_processed;
    duration_observed = ra.duration_observed || is_some e.duration_seconds;
    series_observed = ra.series_observed || is_some e.fetched_series;
    chunks_observed = ra.chunks_observed || is_some e.fetched_chunks;
    bytes_observed = ra.bytes_observed || is_some e.fetched_bytes;
  }

-- The variables of the loop over one tenant's executions; `unmatched` is the report's.
pub record TenantState (F : Type 0) : Type 0 where
  pub sums : Sums F
  pub observed : Observed
  pub rules : Assoc RuleId (RuleAggregate F)
  pub unmatched_executions : ℕ
  pub unmatched_samples : ℕ
  pub unmatched : List (RuleExecution F)

module _ {F : Type 0} ⦃f : Float F⦄ {Ast : Type 0} where
  -- where the execution has no definition, and where it has one
  abbrev pub join_rule :
      TenantState F → RuleExecution F → Option (AnnotatedRule Ast) → TenantState F
  join_rule s e none = record s {
    unmatched_executions = s.unmatched_executions + 1;
    unmatched_samples = s.unmatched_samples +u64 value_or e.samples_processed 0;
    unmatched = s.unmatched ++ e ∷ [];
  }
  join_rule s e (some def) =
      let id = execution_id e in
      record s {
        rules =
            put id (add_execution (value_or (get id s.rules) (new_rule id def.rule.kind)) e)
              s.rules;
      }

  -- the body of the loop over one tenant's executions
  unfoldable pub tenant_step :
      Assoc RuleId (AnnotatedRule Ast) → TenantState F → RuleExecution F → TenantState F
  unfolding get put ◌+u64◌
  tenant_step defs s e =
      join_rule (record s { sums = add_sums s.sums e; observed = add_observed s.observed e }) e
        (get (execution_id e) defs)

  unfoldable pub tenant_loop :
      Assoc RuleId (AnnotatedRule Ast) → TenantState F → List (RuleExecution F) → TenantState F
  unfolding tenant_step
  tenant_loop defs s [] = s
  tenant_loop defs s (e ∷ es) = tenant_loop defs (tenant_step defs s e) es
