-- ===== src/Telemetry/MimirLogs/Lines.antt =====
-- The lines of the ruler's log, and what `Read` makes of them.
use obscost.Prelude.{String, Bool, not, ◌||◌, List, ◌==◌, string_comparable}
use obscost.Prelude.Map.{Assoc, get}
use obscost.Prelude.Result.{Result, ok, err}
use obscost.Float.{Float}
use obscost.Rule.{AnnotatedRule}
use obscost.Promapi.{trim_space}
use obscost.ExprIndex.{Parser, ExprIndex}
use obscost.Telemetry.MimirLogs.{
  Values, looks_like_ruler_query_stats_line, decode_logfmt_line, is_query_stats,
}

module _ {F : Type 0} ⦃f : Float F⦄ {Ast : Type 0} (parser : Parser Ast) (values : Values F)
    (definitions : List (AnnotatedRule Ast)) where
  abbrev is_other_record : String → Result (Assoc String String) → Bool
  is_other_record line (err e) = not (looks_like_ruler_query_stats_line line)
  is_other_record line (ok fields) = not (is_query_stats parser values fields)

  -- A line that is blank, or that another component of Mimir wrote.
  unfoldable pub is_other : String → Bool
  unfolding trim_space looks_like_ruler_query_stats_line decode_logfmt_line get
  is_other line =
      trim_space line == "" || is_other_record line (decode_logfmt_line (values.decode line))
