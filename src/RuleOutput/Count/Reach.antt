-- ===== src/RuleOutput/Count/Reach.antt =====
-- Runs of the goroutines of `Count`, and the metrics they have covered.
use obscost.Prelude.{
  String, Bool, true, false, not, ◌&&◌, ◌||◌, none, some, List, [], ◌∷◌, ◌≡◌, refl, sym, ap, ◌∙◌,
  arith, if◌then◌else◌, ◌==◌, string_comparable, inl, inr, is_some, contains, length, leb,
  length-append,
}
use obscost.Prelude.Map.{Assoc, keys, is_some-get}
use obscost.Prelude.Int.{ℤ}
use obscost.Prelude.Result.{Error, message, Result}
use obscost.Prelude.Result.Runs.{Result-cases}
use obscost.Float.{Float}
use obscost.Promapi.{Sample}
use obscost.Attribution.Accumulate.{get_list}
use obscost.Prelude.Map.Nested.{get_in}
use obscost.RuleOutput.Join.{MetricCount}
use obscost.RuleOutput.Count.{
  Job, Limits, Counting, all_failed, Step, take_place, give_up, finish, Run, here, next,
  with_defaults, prepare, count_chunk,
}
use obscost.RuleOutput.Count.Chunk.{count_chunk_lem}
use obscost.RuleOutput.Count.Started.{asks-prepare, names_positive}
use obscost.RuleOutput.Count.Writes.{is_some-write, contains-all_failed, asks, asks-split}

-- A pair has its count, or a job that asks for it.
abbrev pub covers : String → String → Counting → Bool
covers t n s = is_some (get_in t n s.tenants) || (asks t n s.waiting || asks t n s.running)

module _ (l : Limits) (results : Job → Assoc String MetricCount)
    (answered : (j : Job) (n : String) → contains n (keys (results j)) ≡ contains n j.names) where
  covers-Step : (t n : String) {s u : Counting} → Step l results s u → covers t n u ≡ covers t n s
  unfolding asks
  covers-Step t n {s} {u} (take_place before j after w free e) =
      rw e (ground (arith, ap (asks t n) w, asks-split t n before j after))
  covers-Step t n {s} {u} (give_up before j after reason w e) = rw e (
      ground (
        arith,
        ap (asks t n) w,
        asks-split t n before j after,
        is_some-write t n j.tenant (all_failed reason j.names) s.tenants,
        contains-all_failed reason n j.names,
      ))
  covers-Step t n {s} {u} (finish before j after r e) = rw e (
      ground (
        arith,
        ap (asks t n) r,
        asks-split t n before j after,
        is_some-write t n j.tenant (results j) s.tenants,
        answered j n,
      ))

  pub covers-Run : (t n : String) {s u : Counting} → Run l results s u → covers t n u ≡ covers t n s
  covers-Run t n here = refl
  covers-Run t n (next r step) = covers-Step t n step ∙ covers-Run t n r

  is_within :
      {s u : Counting}
      → leb (length s.running) l.concurrency ≡ true
      → Step l results s u
      → leb (length u.running) l.concurrency ≡ true
  is_within {s} {u} h (take_place before j after w free e) = rw e (ground arith)
  is_within {s} {u} h (give_up before j after reason w e) = rw e (ground arith)
  is_within {s} {u} h (finish before j after r e) =
      rw e
        (ground (arith, ap length r, length-append before (j ∷ after), length-append before after))

  pub is_within_Run :
      {s u : Counting}
      → leb (length s.running) l.concurrency ≡ true
      → Run l results s u
      → leb (length u.running) l.concurrency ≡ true
  is_within_Run h here = h
  is_within_Run h (next r step) = is_within (is_within_Run h r) step

if_is_some : {A : Type 0} (b : Bool) (c : A) → is_some (if b then some c else none) ≡ b
if_is_some true c = refl
if_is_some false c = refl

module _ {F : Type 0} ⦃f : Float F⦄ (round : F → ℤ) (text : Error → String)
    (answer : Job → Result (List (Sample F))) where
  -- what a job's goroutine gets from `countChunk`
  abbrev pub results_of : Job → Assoc String MetricCount
  results_of j = count_chunk round text (answer j) j.names

  contains-results_of :
      (j : Job) (n : String) → contains n (keys (results_of j)) ≡ contains n j.names
  contains-results_of j n = sym (is_some-get n (results_of j)) ∙ elim (Result-cases (answer j)) [
    | inl (samples, e) ↦
        let (some_counts, failures) = count_chunk_lem round text j.names n samples (message "") in
        rw e (ap is_some some_counts ∙ if_is_some (contains n j.names) _)
    | inr (x, e) ↦
        let (some_counts, failures) = count_chunk_lem round text j.names n [] x in
        rw e (ap is_some failures ∙ if_is_some (contains n j.names) _)
  ]

  -- At every moment of every run, in whatever order the goroutines go and whichever of them fail or give
  -- up: a metric of a tenant that is wanted and is not empty has a count, or a job that asks for it waits
  -- or runs, and no other metric has either; and at most the allowed number of queries run at once. So
  -- when no job is left exactly the wanted metrics have a count.
  pub Run-prepare :
      (l : Limits) (want : Assoc String (List String)) (t n : String) {u : Counting}
      → Run (with_defaults l) results_of (prepare (with_defaults l) want) u
      → (covers t n u ≡ (contains n (get_list t want) && not (n == "")))
        × (leb (length u.running) (with_defaults l).concurrency ≡ true)
  unfolding asks
  Run-prepare l want t n {u} r =
      let d = with_defaults l in
      let (waiting, counts, running) = asks-prepare d (names_positive l.max_names) want t n in
      (
        covers-Run d results_of contains-results_of t n r
            ∙ ground (arith, waiting, counts, ap (asks t n) running),
        is_within_Run d results_of contains-results_of (rw running (ground arith)) r,
      )
