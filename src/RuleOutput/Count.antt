-- ===== src/RuleOutput/Count.antt =====
-- internal/ruleoutput/count.go: `Count` and `countChunk`. The goroutines are a step relation over the jobs
-- that wait, the jobs that hold the semaphore, and the map that the mutex guards.
pub mod Chunk
pub mod Writes
pub mod Started
pub mod Reach
pub mod Progress
mod Tests
use obscost.Prelude.{
  ℕ, suc, ◌+◌, ◌<◌, String, Bool, true, false, not, ◌||◌, Option, none, some, List, [], ◌∷◌, ◌++◌,
  map, ◌≡◌, if◌then◌else◌, ◌==◌, string_comparable, nat_beq, is_empty, length, contains, str_lt,
}
use obscost.Prelude.Int.{ℤ, pos, ◌+ℤ◌, wrap_int}
use obscost.Prelude.Map.{Assoc, keys, get, put}
use obscost.Prelude.Map.Nested.{put_in}
use obscost.Prelude.Sort.{sort_by}
use obscost.Prelude.Result.{Error, Result, ok, err}
use obscost.Float.{Float, nought}
use obscost.Promapi.{Sample, label_value}
use obscost.Attribution.{value_or}
use obscost.Attribution.Accumulate.{get_list}
use obscost.RuleOutput.{chunk, dedupe}
use obscost.RuleOutput.Join.{MetricCount}

-- The variables of the loop of `countChunk`.
pub record Tally : Type 0 where
  pub found : Assoc String ℤ
  pub bad : List String

abbrev pub measured : ℤ → MetricCount
measured n = record { series = some n; err = "" }

abbrev pub failed : String → MetricCount
failed e = record { series = none; err = e }

abbrev pub bad_value : String
bad_value = "count returned a value that is not a finite non-negative number"

module _ {F : Type 0} ⦃f : Float F⦄ (round : F → ℤ) where
  -- a sample of a metric that was asked for; `round v` is `int64(math.Round(v))`
  abbrev pub tally_value : String → Option F → Tally → Tally
  tally_value name none t = record t { bad = name ∷ t.bad }
  tally_value name (some v) t =
      if f.lt v nought then record t { bad = name ∷ t.bad } else record t {
        found = put name (wrap_int (value_or (get name t.found) (pos 0) +ℤ round v)) t.found;
      }

  -- the body of the loop, for the sample's name
  unfoldable pub tally_named : List String → String → Option F → Tally → Tally
  unfolding get put contains wrap_int
  tally_named names name o t = if contains name names then tally_value name o t else t

  unfoldable pub tally : List String → Tally → List (Sample F) → Tally
  unfolding tally_named
  tally names t [] = t
  tally names t (s ∷ samples) =
      tally names (tally_named names (label_value "__name__" s) s.value t) samples

  -- the count of one name after the loop
  abbrev pub series_found : Tally → String → MetricCount
  series_found t n =
      if contains n t.bad then failed bad_value else measured (value_or (get n t.found) (pos 0))

  abbrev pub put_counts :
      (String → MetricCount) → Assoc String MetricCount → List String → Assoc String MetricCount
  put_counts g res [] = res
  put_counts g res (n ∷ ns) = put_counts g (put n (g n) res) ns

  -- `countChunk`, on the answer to its query; `text` is `err.Error()`
  unfoldable pub count_chunk :
      (Error → String) → Result (List (Sample F)) → List String → Assoc String MetricCount
  unfolding tally put
  count_chunk text (err e) names = put_counts (λ n. failed (text e)) [] names
  count_chunk text (ok samples) names =
      put_counts (series_found (tally names (record { found = []; bad = [] }) samples)) [] names

pub record Job : Type 0 where
  pub tenant : String
  pub names : List String

-- the limits of `CountConfig`; 0 stands for one that is not positive
pub record Limits : Type 0 where
  pub max_names : ℕ
  pub max_bytes : ℕ
  pub concurrency : ℕ

abbrev pub positive_or : ℕ → ℕ → ℕ
positive_or n d = if nat_beq n 0 then d else n

-- the defaults of `Count`
abbrev pub with_defaults : Limits → Limits
with_defaults l = record {
  max_names = positive_or l.max_names 50;
  max_bytes = positive_or l.max_bytes 4000;
  concurrency = positive_or l.concurrency 4;
}

pub record Counting : Type 0 where
  pub waiting : List Job
  pub running : List Job
  pub tenants : Assoc String (Assoc String MetricCount)

module _ (l : Limits) where
  abbrev pub tenant_jobs : String → List String → List Job
  tenant_jobs t names =
      map (λ c. record { tenant = t; names = c }) (chunk l.max_names l.max_bytes names)

  -- the loop over the sorted tenants
  unfoldable pub add_jobs : Assoc String (List String) → Counting → List String → Counting
  unfolding chunk dedupe get put
  add_jobs want s [] = s
  add_jobs want s (t ∷ ts) =
      add_jobs want
        (record s {
          waiting = s.waiting ++ tenant_jobs t (dedupe (get_list t want));
          tenants = put t [] s.tenants;
        })
        ts

  -- `Count` up to the goroutines
  unfoldable pub prepare : Assoc String (List String) → Counting
  unfolding add_jobs sort_by str_lt
  prepare want =
      add_jobs want (record { waiting = []; running = []; tenants = [] })
        (sort_by str_lt (keys want))

-- `for n, c := range res { out.Tenants[t][n] = c }`, from the last entry to the first
abbrev pub write :
    String
    → Assoc String MetricCount
    → Assoc String (Assoc String MetricCount)
    → Assoc String (Assoc String MetricCount)
write t [] m = m
write t ((n, c) ∷ res) m = put_in t n c (write t res m)

abbrev pub all_failed : String → List String → Assoc String MetricCount
all_failed e [] = []
all_failed e (n ∷ ns) = (n, failed e) ∷ all_failed e ns

-- What a goroutine does next: it takes a place in the semaphore, gives up since the context is done, or
-- writes what its query gave and leaves its place. `results` is `countChunk` of a job, which queries once.
pub data Step (l : Limits) (results : Job → Assoc String MetricCount) (s : Counting)
    : Counting → Type 0 where
  take_place :
      (before : List Job) (j : Job) (after : List Job) {t : Counting}
      → s.waiting ≡ before ++ j ∷ after
      → length s.running < l.concurrency
      → t ≡ record s { waiting = before ++ after; running = j ∷ s.running }
      → Step l results s t
  give_up :
      (before : List Job) (j : Job) (after : List Job) (reason : String) {t : Counting}
      → s.waiting ≡ before ++ j ∷ after
      → t ≡ record s {
        waiting = before ++ after;
        tenants = write j.tenant (all_failed reason j.names) s.tenants;
      }
      → Step l results s t
  finish :
      (before : List Job) (j : Job) (after : List Job) {t : Counting}
      → s.running ≡ before ++ j ∷ after
      → t ≡ record s { running = before ++ after; tenants = write j.tenant (results j) s.tenants }
      → Step l results s t

pub data Run (l : Limits) (results : Job → Assoc String MetricCount) (s : Counting)
    : Counting → Type 0 where
  here : Run l results s s
  next : {t u : Counting} → Run l results s t → Step l results t u → Run l results s u
