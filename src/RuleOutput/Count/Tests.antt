-- ===== src/RuleOutput/Count/Tests.antt =====
-- One query that counts two metrics, and the run of its goroutine.
use obscost.Prelude.{
  String, true, not, ◌&&◌, none, some, List, [], ◌∷◌, ◌≡◌, refl, arith, if◌then◌else◌, ◌==◌,
  string_comparable, length, leb, contains, str_lt,
}
use obscost.Prelude.Int.{ℤ, pos, wrap_int}
use obscost.Prelude.Map.{Assoc, get, put}
use obscost.Prelude.Sort.{sort_by}
use obscost.Prelude.Result.{Error, message, Result, ok, err}
use obscost.Float.Fraction.{Fraction, fraction, fraction_float}
use obscost.Promapi.{Sample}
use obscost.Attribution.Accumulate.{get_list}
use obscost.RuleOutput.{chunk, dedupe}
use obscost.RuleOutput.Join.{MetricCount}
use obscost.RuleOutput.Count.{
  Job, Limits, Counting, take_place, finish, Run, here, next, tally, tally_named, with_defaults,
  prepare, add_jobs, write, measured, failed, bad_value, count_chunk,
}
use obscost.RuleOutput.Count.Chunk.{any_bad, rounded_sum, count_chunk_lem}
use obscost.RuleOutput.Count.Reach.{results_of, covers, Run-prepare}

abbrev to_seven : Fraction → ℤ
to_seven v = pos 7

abbrev error_text : Error → String
error_text e = "timeout"

-- Two samples of one metric.
abbrev answers : List (Sample Fraction)
answers =
    record { metric = ("__name__", "a:b") ∷ []; value = some (fraction 7 0) }
    ∷ record { metric = ("__name__", "a:b") ∷ []; value = some (fraction 7 0) }
    ∷ []

abbrev metric : String
metric = "a:b"

abbrev asked : List String
asked = "a:b" ∷ "c:d" ∷ []

count_chunk_lem_example :
    (get "a:b" (count_chunk to_seven error_text (ok answers) asked) ≡ (
      if contains "a:b" asked
      then some (
          if any_bad to_seven "a:b" answers
          then failed bad_value
          else measured (rounded_sum to_seven "a:b" (pos 0) answers))
      else none))
    × (get "a:b" (count_chunk to_seven error_text (err (message "timeout")) asked)
        ≡ (if contains "a:b" asked then some (failed "timeout") else none))
count_chunk_lem_example =
    count_chunk_lem to_seven error_text asked "a:b" answers (message "timeout")

both :
    count_chunk to_seven error_text (ok answers) asked
    ≡ ("a:b", measured (pos 14)) ∷ ("c:d", measured (pos 0)) ∷ []
unfolding count_chunk tally tally_named get put contains wrap_int
both = refl

abbrev limits : Limits
limits = record { max_names = 0; max_bytes = 0; concurrency = 1 }

abbrev wanted : Assoc String (List String)
wanted = ("t", asked) ∷ []

abbrev only : Job
only = record { tenant = "t"; names = asked }

abbrev answer_of : Job → Result (List (Sample Fraction))
answer_of j = ok answers

abbrev results : Job → Assoc String MetricCount
results = results_of to_seven error_text answer_of

started :
    prepare (with_defaults limits) wanted
    ≡ record { waiting = only ∷ []; running = []; tenants = ("t", []) ∷ [] }
unfolding prepare add_jobs chunk dedupe get put sort_by str_lt
started = refl

abbrev end : Counting
end = record { waiting = []; running = []; tenants = write "t" (results only) (("t", []) ∷ []) }

run : Run (with_defaults limits) results (prepare (with_defaults limits) wanted) end
run =
    rw started (
      next (next here (take_place [] only [] refl (omega arith) refl))
        (finish [] only [] refl refl))

Run-prepare_example :
    (covers "t" "a:b" end ≡ (contains "a:b" (get_list "t" wanted) && not (metric == "")))
    × (leb (length end.running) (with_defaults limits).concurrency ≡ true)
Run-prepare_example = Run-prepare to_seven error_text answer_of limits wanted "t" "a:b" run
