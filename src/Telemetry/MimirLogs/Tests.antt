-- ===== src/Telemetry/MimirLogs/Tests.antt =====
-- A log of four lines: a record of the ruler, a blank line, a line of another component and a record without a tenant.
use obscost.Prelude.{
  String, none, some, List, [], ◌∷◌, ◌≡◌, refl, if◌then◌else◌, ◌==◌, string_comparable,
}
use obscost.Prelude.Int.{pos}
use obscost.Prelude.Map.{get, put}
use obscost.Prelude.Result.{ok}
use obscost.Float.Fraction.{Fraction, fraction_float}
use obscost.Rule.{AnnotatedRule, recording}
use obscost.ExprIndex.{Parser, build_expr_index, lookup}
use obscost.Telemetry.{read_lines}
use obscost.Telemetry.MimirLogs.{
  Values, missing_field, read_line, execution_from_fields, decode_logfmt_line, set_fields,
}

-- Every text is an expression, which prints as itself.
abbrev texts : Parser String
texts = record { parse_expr = λ s. some s; show_expr = λ s. s }

abbrev definitions : List (AnnotatedRule String)
definitions =
    record {
      rule = record {
        kind = recording;
        record_name = "job:up";
        alert_name = "";
        expr = "up";
        hold_for = pos 0;
        labels = [];
        annotations = [];
      };
      ast = "up";
      group = record { name = "g"; interval = pos 60 };
      tenant = "a";
      location = record { file = "rules.yaml"; group = "g"; rule = "job:up"; line = pos 1 };
    }
    ∷ []

abbrev fields_of : String → List (String × String)
fields_of line =
    if line == "record"
    then ("component", "ruler")
      ∷ ("msg", "query stats")
      ∷ ("user", "a")
      ∷ ("query", "up")
      ∷ ("ts", "now")
      ∷ ("fetched_series_count", "3")
      ∷ []
    else if line == "nobody"
    then ("component", "ruler") ∷ ("msg", "query stats") ∷ []
    else ("component", "ingester") ∷ []

abbrev some_values : Values Fraction
some_values = record {
  decode = λ line. record { pairs = fields_of line; failure = none };
  parse_time = λ s. ok (pos 7);
  parse_float = λ s. none;
  parse_uint = λ s. some 3;
}

abbrev log : List String
log = "record" ∷ " " ∷ "other" ∷ "nobody" ∷ []

one_of_four :
    read_lines "ruler.log"
      (read_line texts some_values (build_expr_index texts definitions))
      0
      (record { executions = []; read_errors = [] })
      log
    ≡ record {
      executions =
          record {
            tenant = "a";
            namespace = "rules.yaml";
            group = "g";
            rule_name = "job:up";
            timestamp = pos 7;
            duration_seconds = none;
            samples_processed = none;
            fetched_series = some 3;
            fetched_chunks = none;
            fetched_bytes = none;
            query_text = "up";
            query_hash = "";
          }
          ∷ [];
      read_errors = record { source = "ruler.log"; line = 4; cause = missing_field "user" } ∷ [];
    }
unfolding read_lines read_line build_expr_index lookup execution_from_fields decode_logfmt_line
    set_fields get put
one_of_four = refl
