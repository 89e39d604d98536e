-- ===== src/RuleOutput/Report/Tests.antt =====
-- One recording rule, from the names that are wanted to the joined report.
use obscost.Prelude.{
  ℕ, String, Option, none, some, List, [], ◌∷◌, ◌≡◌, refl, arith, string_comparable, is_some, All,
  str_lt,
}
use obscost.Prelude.Int.{ℤ, pos}
use obscost.Prelude.Map.{Assoc, get, put}
use obscost.Prelude.Map.Nested.{get_in}
use obscost.Prelude.Sort.{sort_by}
use obscost.Prelude.Result.{Error, Result, ok}
use obscost.Float.Fraction.{Fraction, fraction, fraction_float}
use obscost.Promapi.{Sample}
use obscost.Rule.{AnnotatedRule, recording}
use obscost.RuleOutput.{chunk, dedupe}
use obscost.RuleOutput.Join.{MetricCount}
use obscost.RuleOutput.Count.{
  Job, Limits, Counting, take_place, finish, Run, here, next, with_defaults, prepare, add_jobs,
  write,
}
use obscost.RuleOutput.Count.Reach.{results_of}
use obscost.RuleOutput.Report.{Counts, Denominator, wanted, join}
use obscost.RuleOutput.Report.Wanted.{is_output, AllCounted, Run-join}

abbrev rules : List (AnnotatedRule ℕ)
rules =
    record {
      rule = record {
        kind = recording;
        record_name = "a:b";
        alert_name = "";
        expr = "up";
        hold_for = pos 0;
        labels = [];
        annotations = [];
      };
      ast = 0;
      group = record { name = "g"; interval = pos 60 };
      tenant = "t";
      location = record { file = "rules.yaml"; group = "g"; rule = "a:b"; line = pos 1 };
    }
    ∷ []

abbrev limits : Limits
limits = record { max_names = 0; max_bytes = 0; concurrency = 1 }

abbrev only : Job
only = record { tenant = "t"; names = "a:b" ∷ [] }

abbrev to_seven : Fraction → ℤ
to_seven v = pos 7

abbrev error_text : Error → String
error_text e = "timeout"

abbrev answer_of : Job → Result (List (Sample Fraction))
answer_of j = ok (record { metric = ("__name__", "a:b") ∷ []; value = some (fraction 7 0) } ∷ [])

abbrev results : Job → Assoc String MetricCount
results = results_of to_seven error_text answer_of

started :
    prepare (with_defaults limits) (wanted [] rules)
    ≡ record { waiting = only ∷ []; running = []; tenants = ("t", []) ∷ [] }
unfolding prepare add_jobs chunk dedupe get put sort_by str_lt wanted
started = refl

abbrev end : Counting
end = record { waiting = []; running = []; tenants = write "t" (results only) (("t", []) ∷ []) }

run : Run (with_defaults limits) results (prepare (with_defaults limits) (wanted [] rules)) end
run =
    rw started (
      next (next here (take_place [] only [] refl (omega arith) refl))
        (finish [] only [] refl refl))

abbrev counts : Counts
counts = record { at = pos 7; query_shape = "count"; queries = 1; tenants = end.tenants }

abbrev no_denominator : Option (Denominator Fraction)
no_denominator = none

abbrev show_time : ℤ → String
show_time t = "now"

Run-join_example :
    (is_some (get_in "t" "a:b" end.tenants) ≡ is_output "t" "a:b" rules)
    × All (AllCounted end.tenants) (join show_time rules counts no_denominator).tenants
Run-join_example =
    Run-join to_seven error_text answer_of limits rules show_time counts no_denominator "t" "a:b"
      run refl refl refl
