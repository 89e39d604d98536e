-- ===== src/ExprIndex.antt =====
-- internal/telemetry/mimirlogs/exprindex.go: which rule definition a query text of the ruler's log
-- belongs to. The PromQL parser is a parameter.
pub mod Lookup
mod Tests
use obscost.Prelude.{
  String, Bool, true, false, ◌&&◌, Option, none, some, List, [], ◌∷◌, if◌then◌else◌, ◌==◌,
  string_comparable, is_some,
}
use obscost.Prelude.Map.{Assoc, get, put}
use obscost.Prelude.Map.Nested.{nil_or, inner, get_in, put_in}
use obscost.Rule.{AnnotatedRule}

-- `parser.ParseExpr`, with `none` for an error, and `Expr.String`.
pub record Parser (Ast : Type 0) : Type 0 where
  pub parse_expr : String → Option Ast
  pub show_expr : Ast → String

pub record ExprIndex (Ast : Type 0) : Type 0 where
  pub by_tenant_and_expr : Assoc String (Assoc String (AnnotatedRule Ast))
  pub ambiguous : Assoc String (Assoc String Bool)

pub data LookupError : Type 0 where
  not_parsed : String → LookupError
  ambiguous_rule : String → String → LookupError
  no_match : String → String → LookupError

pub data LookupResult (Ast : Type 0) : Type 0 where
  found : AnnotatedRule Ast → LookupResult Ast
  failed : LookupError → LookupResult Ast

abbrev pub is_true : Option Bool → Bool
is_true none = false
is_true (some b) = b

module _ {Ast : Type 0} where
  look_up_key : ExprIndex Ast → String → String → String → LookupResult Ast
  unfolding get
  look_up_key idx tenant query key =
      if is_true (get_in tenant key idx.ambiguous)
      then failed (ambiguous_rule tenant query)
      else elim (get_in tenant key idx.by_tenant_and_expr) [
        | none ↦ failed (no_match tenant query)
        | some d ↦ found d
      ]

module _ {Ast : Type 0} (parser : Parser Ast) where
  -- the body of the loop of `buildExprIndex`
  add_definition : ExprIndex Ast → AnnotatedRule Ast → ExprIndex Ast
  unfolding get put
  add_definition idx d =
      let key = parser.show_expr d.ast in
      if is_some (get_in d.tenant key idx.by_tenant_and_expr)
      then record idx { ambiguous = put_in d.tenant key true idx.ambiguous }
      else record idx { by_tenant_and_expr = put_in d.tenant key d idx.by_tenant_and_expr }

  add_definitions : ExprIndex Ast → List (AnnotatedRule Ast) → ExprIndex Ast
  unfolding add_definition
  add_definitions idx [] = idx
  add_definitions idx (d ∷ ds) = add_definitions (add_definition idx d) ds

  -- `buildExprIndex`
  unfoldable pub build_expr_index : List (AnnotatedRule Ast) → ExprIndex Ast
  unfolding add_definitions
  build_expr_index = add_definitions (record { by_tenant_and_expr = []; ambiguous = [] })

  -- `lookup`
  unfoldable pub lookup : ExprIndex Ast → String → String → LookupResult Ast
  unfolding look_up_key
  lookup idx tenant query = elim (parser.parse_expr query) [
    | none ↦ failed (not_parsed query)
    | some ast ↦ look_up_key idx tenant query (parser.show_expr ast)
  ]
