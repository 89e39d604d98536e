-- ===== src/Telemetry/MimirLogs/Matched.antt =====
-- The executions that are read of the ruler's log, and the rule definitions.
use mathlib.Core.List.Perm
use obscost.Prelude.{
  ℕ, ◌+◌, String, Bool, true, false, not, Option, none, some, List, [], ◌∷◌, map, ◌≡◌, refl, arith,
  if◌then◌else◌, ◌==◌, string_comparable, contains, contains-keys, select, All, All-select,
  All-selected, All-both, All-append,
}
use obscost.Prelude.Int.{ℤ, ltb_ℤ}
use obscost.Prelude.Map.{Assoc}
use obscost.Prelude.Result.{Result, ok, err}
use obscost.Float.{Float}
use obscost.Rule.{AnnotatedRule, RuleExecution, rule_id_comparable, execution_id, definition_id}
use obscost.Promapi.{trim_space}
use obscost.ExprIndex.{Parser, ExprIndex, LookupResult, found, failed, lookup, build_expr_index}
use obscost.ExprIndex.Lookup.{matches, answer, meaning, lookup_lem}
use obscost.Attribution.Aggregate.{aggregate}
use obscost.Attribution.Aggregate.Conservation.{is_orphan, aggregate-unmatched}
use obscost.Telemetry.{Line, skip, faulty, good, Reading, add_line, read_lines, since}
use obscost.Telemetry.MimirLogs.{
  Values, Fault, looks_like_ruler_query_stats_line, decode_logfmt_line, field, joined_execution,
  timed_execution, execution_from_fields, is_query_stats, decoded_line, read_line,
}

module _ {F : Type 0} ⦃f : Float F⦄ {Ast : Type 0} (parser : Parser Ast) (values : Values F)
    (definitions : List (AnnotatedRule Ast)) where
  abbrev pub IsDefined : RuleExecution F → Type 0
  IsDefined e = contains (execution_id e) (map definition_id definitions) ≡ true

  -- What a lookup finds is a definition of the tenant.
  abbrev IsOwn : String → LookupResult Ast → Type 0
  IsOwn tenant (failed e) = Unit
  IsOwn tenant (found d) =
      (contains (definition_id d) (map definition_id definitions) ≡ true) × (tenant ≡ d.tenant)

  IsOwn-answer :
      (tenant key query : String) (ms : List (AnnotatedRule Ast))
      → All
          (λ d.
            (contains (definition_id d) (map definition_id definitions) ≡ true)
            × (matches parser tenant key d ≡ true))
          ms
      → IsOwn tenant (answer parser tenant key query ms)
  IsOwn-answer tenant key query [] h = tt
  IsOwn-answer tenant key query (d ∷ []) ((k, m), h) =
      (k, (string_comparable.equal_iff tenant d.tenant).0 (ground arith))
  IsOwn-answer tenant key query (d ∷ d' ∷ ms) h = tt

  IsOwn-meaning :
      (tenant query : String) (o : Option Ast)
      → IsOwn tenant (meaning parser definitions tenant query o)
  IsOwn-meaning tenant query none = tt
  IsOwn-meaning tenant query (some ast) =
      let key = parser.show_expr ast in
      let p = matches parser tenant key in
      IsOwn-answer tenant key query (select p definitions) (
        All-both _ _ (select p definitions)
          (All-select _ p definitions (contains-keys definition_id definitions))
          (All-selected p definitions))

  IsOwn-lookup :
      (tenant query : String)
      → IsOwn tenant (lookup parser (build_expr_index parser definitions) tenant query)
  IsOwn-lookup tenant query =
      rw (lookup_lem parser definitions tenant query)
        (IsOwn-meaning tenant query (parser.parse_expr query))

  -- A line that is read is read for a definition.
  abbrev IsKnown : Line F Fault → Type 0
  IsKnown skip = Unit
  IsKnown (faulty c) = Unit
  IsKnown (good e) = IsDefined e

  IsKnown-joined :
      (fields : Assoc String String) (ts : ℤ) (r : LookupResult Ast)
      → IsOwn (field "user" fields) r
      → IsKnown (joined_execution parser values fields ts r)
  unfolding definition_id
  IsKnown-joined fields ts (failed e) h = tt
  IsKnown-joined fields ts (found d) (k, t) = rw t k

  IsKnown-if :
      (b : Bool) (x y : Line F Fault) → IsKnown x → IsKnown y → IsKnown (if b then x else y)
  IsKnown-if true x y k h = k
  IsKnown-if false x y k h = h

  abbrev pub idx : ExprIndex Ast
  idx = build_expr_index parser definitions

  IsKnown-timed :
      (fields : Assoc String String) (r : Result ℤ)
      → IsKnown (timed_execution parser values fields idx r)
  IsKnown-timed fields (err e) = tt
  IsKnown-timed fields (ok ts) =
      IsKnown-joined fields ts (lookup parser idx (field "user" fields) (field "query" fields))
        (IsOwn-lookup (field "user" fields) (field "query" fields))

  IsKnown-execution_from_fields :
      (fields : Assoc String String) → IsKnown (execution_from_fields parser values fields idx)
  unfolding execution_from_fields
  IsKnown-execution_from_fields fields = IsKnown-if (field "user" fields == "") _ _ tt (
      IsKnown-if (field "query" fields == "") _ _ tt (
        IsKnown-if (field "ts" fields == "") _ _ tt
          (IsKnown-timed fields (values.parse_time (field "ts" fields)))))

  IsKnown-decoded_line :
      (line : String) (r : Result (Assoc String String))
      → IsKnown (decoded_line parser values idx line r)
  IsKnown-decoded_line line (err e) = IsKnown-if (looks_like_ruler_query_stats_line line) _ _ tt tt
  IsKnown-decoded_line line (ok fields) =
      IsKnown-if (not (is_query_stats parser values fields)) _ _ tt
        (IsKnown-execution_from_fields fields)

  IsKnown-read_line : (line : String) → IsKnown (read_line parser values idx line)
  unfolding read_line
  IsKnown-read_line line =
      IsKnown-if (trim_space line == "") _ _ tt
        (IsKnown-decoded_line line (decode_logfmt_line (values.decode line)))

  module _ (path : String) (classify : String → Line F Fault)
      (known : (line : String) → IsKnown (classify line)) where
    IsDefined-add_line :
        (n : ℕ) (l : Line F Fault) (r : Reading F Fault)
        → IsKnown l
        → All IsDefined r.executions
        → All IsDefined (add_line path n l r).executions
    IsDefined-add_line n skip r k h = h
    IsDefined-add_line n (faulty c) r k h = h
    IsDefined-add_line n (good e) r k h = All-append IsDefined r.executions (e ∷ []) h (k, tt)

    IsDefined-read_lines :
        (n : ℕ) (r : Reading F Fault) (lines : List String)
        → All IsDefined r.executions
        → All IsDefined (read_lines path classify n r lines).executions
    unfolding read_lines
    IsDefined-read_lines n r [] h = h
    IsDefined-read_lines n r (l ∷ lines) h =
        IsDefined-read_lines (n + 1) (add_line path (n + 1) (classify l) r) lines
          (IsDefined-add_line (n + 1) (classify l) r (known l) h)

  pub IsDefined-read_file :
      (path : String) (lines : List String)
      → All IsDefined
          (read_lines path
            (read_line parser values idx)
            0
            (record { executions = []; read_errors = [] })
            lines).executions
  IsDefined-read_file path lines =
      IsDefined-read_lines path (read_line parser values idx) IsKnown-read_line 0
        (record { executions = []; read_errors = [] }) lines tt

  no_orphan :
      (all executions : List (RuleExecution F))
      → All IsDefined executions
      → select (is_orphan all definitions) executions ≡ []
  unfolding select
  no_orphan all [] h = refl
  no_orphan all (e ∷ es) (k, ks) = rw k (no_orphan all es ks)

  pub IsDefined-since :
      (cutoff : Option ℤ) (executions : List (RuleExecution F))
      → All IsDefined executions
      → All IsDefined (since cutoff executions)
  unfolding since
  IsDefined-since none executions h = h
  IsDefined-since (some c) executions h =
      All-select IsDefined (λ e. not (ltb_ℤ e.timestamp c)) executions h

  pub no_unmatched :
      (executions : List (RuleExecution F))
      → All IsDefined executions
      → (aggregate executions definitions).unmatched ≡ []
  no_unmatched executions h =
      Perm.eq-nil
        (rw (no_orphan executions executions h) at (aggregate-unmatched executions definitions))
