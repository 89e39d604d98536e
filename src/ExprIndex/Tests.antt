-- ===== src/ExprIndex/Tests.antt =====
-- Lookups among three definitions, with texts for expressions.
use obscost.Prelude.{
  String, none, some, List, [], ◌∷◌, ◌≡◌, refl, if◌then◌else◌, ◌==◌, string_comparable,
}
use obscost.Prelude.Int.{pos}
use obscost.Prelude.Map.{get}
use obscost.Rule.{AnnotatedRule, recording}
use obscost.ExprIndex.{Parser, build_expr_index, lookup, found, failed, ambiguous_rule}
use obscost.ExprIndex.Lookup.{meaning, lookup_lem}

-- Every text but the empty one is an expression, which prints as itself.
abbrev texts : Parser String
texts = record { parse_expr = λ s. if s == "" then none else some s; show_expr = λ s. s }

abbrev define : String → String → String → AnnotatedRule String
define tenant expr name = record {
  rule = record {
    kind = recording;
    record_name = name;
    alert_name = "";
    expr = expr;
    hold_for = pos 0;
    labels = [];
    annotations = [];
  };
  ast = expr;
  group = record { name = "g"; interval = pos 60 };
  tenant = tenant;
  location = record { file = "rules.yaml"; group = "g"; rule = name; line = pos 1 };
}

abbrev definitions : List (AnnotatedRule String)
definitions = define "a" "up" "one" ∷ define "a" "up" "two" ∷ define "b" "up" "three" ∷ []

lookup_lem_example :
    lookup texts (build_expr_index texts definitions) "b" "up"
    ≡ meaning texts definitions "b" "up" (texts.parse_expr "up")
lookup_lem_example = lookup_lem texts definitions "b" "up"

one_match :
    lookup texts (build_expr_index texts definitions) "b" "up" ≡ found (define "b" "up" "three")
unfolding lookup build_expr_index get
one_match = refl

two_matches :
    lookup texts (build_expr_index texts definitions) "a" "up" ≡ failed (ambiguous_rule "a" "up")
unfolding lookup build_expr_index get
two_matches = refl
