-- ===== src/Cost/Tests.antt =====
-- The cost model on a small installation: two pools, two measured tenants, fractions for numbers.
use mathlib.Core.List.{Perm, Permᴰ}
use obscost.Prelude.{
  String, Bool, true, false, ◌+◌, none, some, List, [], ◌∷◌, map, ◌≡◌, ◌↔◌, refl, if◌then◌else◌,
  string_comparable, contains, is_empty, length, select, str_lt, All,
}
use obscost.Prelude.Int.{ℤ, pos}
use obscost.Prelude.Sort.{IsSorted}
use obscost.Prelude.Map.{Assoc, get}
use obscost.Float.{nought, one, sum_from, total_of}
use obscost.Float.Fraction.{Fraction, fraction, fraction_float}
use obscost.Float.Fraction.Arithmetic.{Fraction-IsExact}
use obscost.Float.Fraction.Ordering.{Fraction-IsLinear}
use obscost.Cost.{
  Pool, ingester_memory, query_path, pool_ingester_memory, pool_query_path, ComponentInventory,
  PoolInventory, Inventory, Measurement, PoolAllocation,
}
use obscost.Cost.Validate.{validate, platform_cost_without_currency}
use obscost.Cost.Validate.Defensible.{IsDefensible}
use obscost.Cost.Validate.Validity.{validate_iff}
use obscost.Cost.Price.Charged.{charge_view, entry_charge}
use obscost.Cost.Allocate.{allocate}
use obscost.Cost.Allocate.Parts.{raw_total, allocate-charge}
use obscost.Cost.Allocate.Shares.{
  value_of, HasShare, HasCost, shares-sum, costs-sum, IsLine, lines_lem,
}
use obscost.Cost.Allocate.Tenants.{driver_pair, larger_first, tenants_lem}
use obscost.Cost.Allocate.Divisor.{
  figures, factor_cancels, known_factor, quotient, absolute_figures,
}
use obscost.Cost.Allocate.Determinism.{tenants-order_free}
use obscost.Cost.Total.Cross.{pool_cost, is_priced, ids, cross_pool, allocate_all}
use obscost.Cost.Total.Cross.Pools.{is_unpriced, is_unmeasured, cross_pool-coverage}
use obscost.Cost.Total.Cross.Whole.{tenants-total, tenants-shares}
use obscost.Cost.Total.Cross.Missing.{missed_by, not_measured_in_lem}

abbrev no_window : ℤ
no_window = pos 3600000000000

abbrev measure : Pool → Assoc String Fraction → Bool → Measurement Fraction
measure pool drivers once = record {
  pool = pool;
  window = no_window;
  end = pos 0;
  source = "http://mimir";
  driver_query = "query";
  drivers = drivers;
  driver_metric = "";
  driver_kind = "";
  unit = "";
  fallback = false;
  fallback_note = "";
  unreplicated = once;
  assumptions = [];
  notes = [];
  rule_evaluation = "";
  replication_factor = some (fraction 3 0);
  rf_query = "rf";
  deduplicated = false;
  architecture = "";
}

abbrev series : Measurement Fraction
series = measure ingester_memory (("a", fraction 3 0) ∷ ("b", fraction 1 0) ∷ []) false

abbrev queries : Measurement Fraction
queries = measure query_path (("b", fraction 2 0) ∷ []) true

abbrev idle : Measurement Fraction
idle = measure query_path (("b", fraction 0 0) ∷ []) true

abbrev no_component : PoolInventory Fraction
no_component = record {
  replicas = some (pos 3);
  cost_per_replica_month = some (fraction 10 0);
  components = [];
}

abbrev querier : ComponentInventory Fraction
querier = record { replicas = some (pos 2); cost_per_replica_month = some (fraction 5 0) }

abbrev installation : Inventory Fraction
installation = record {
  currency = "USD";
  replication_factor = none;
  platform_cost_month = some (fraction 100 0);
  rule_evaluation = "local";
  pools =
      (pool_ingester_memory, no_component)
      ∷ (
        pool_query_path,
        record {
          replicas = none;
          cost_per_replica_month = none;
          components = ("querier", querier) ∷ [];
        },
      )
      ∷ [];
}

abbrev expected : List String
expected = "a" ∷ "c" ∷ []

-- Every cost is computed before the witnesses use it.
series_measured : fraction_float.lt nought (raw_total series) ≡ true
unfolding sum_from
series_measured = refl

series_cost : (allocate series installation expected).pool_cost_month ≡ some (fraction 30 0)
unfolding allocate get sum_from
series_cost = refl

query_cost : (allocate queries installation expected).pool_cost_month ≡ some (fraction 10 0)
unfolding allocate get sum_from select
query_cost = refl

costs-sum_example :
    let ts = (allocate series installation expected).tenants in
    All (HasCost (raw_total series) (fraction 30 0)) ts
    × (total_of (map (λ t. value_of t.cost) ts) ≡ fraction 30 0)
costs-sum_example =
    costs-sum Fraction-IsLinear.ordered Fraction-IsExact series installation expected
      (fraction 30 0) series_measured series_cost

shares-sum_example :
    let ts = (allocate series installation expected).tenants in
    All (HasShare (raw_total series)) ts × (total_of (map (λ t. value_of t.share) ts) ≡ one)
shares-sum_example =
    shares-sum Fraction-IsLinear.ordered Fraction-IsExact series installation expected
      series_measured

lines_lem_example :
    let a = allocate series installation expected in
    All (IsLine (total_of (map (λ d. d.1) series.drivers)) a.replicas a.pool_cost_month) a.tenants
lines_lem_example = lines_lem series installation expected

tenants_lem_example :
    Perm (map driver_pair (allocate series installation expected).tenants) series.drivers
    × IsSorted larger_first (allocate series installation expected).tenants
tenants_lem_example = tenants_lem Fraction-IsLinear.ordered series installation expected

factor_cancels_example :
    map figures
      (allocate
        (record series { replication_factor = none })
        (record installation { replication_factor = some (pos 5) })
        expected).tenants
    ≡ map figures (allocate series installation expected).tenants
factor_cancels_example = factor_cancels series installation expected (some (pos 5)) none

absolute_figures_example :
    let a = allocate series installation expected in
    All (λ t. t.driver ≡ quotient t.driver_raw (known_factor series installation)) a.tenants
    × (a.total ≡ (
        if is_empty series.drivers
        then none
        else quotient (raw_total series) (known_factor series installation)))
    × (a.replication_factor
        ≡ (if series.unreplicated then none else known_factor series installation))
absolute_figures_example = absolute_figures series installation expected

tenants-order_free_example :
    (allocate series installation expected).tenants
    ≡ (allocate
        (record series { drivers = ("b", fraction 1 0) ∷ ("a", fraction 3 0) ∷ [] })
        installation
        expected).tenants
tenants-order_free_example =
    tenants-order_free Fraction-IsLinear series installation expected (Permᴰ.swap refl refl)
      (unfold sum_from in refl)

allocate-charge_example :
    charge_view (allocate queries installation expected)
    ≡ entry_charge query_path (get query_path.id installation.pools)
allocate-charge_example = allocate-charge queries installation expected

validate_iff_example : (validate installation ≡ none) ↔ IsDefensible installation
validate_iff_example = validate_iff installation

tenants-total_example :
    let cp = (allocate_all (series ∷ queries ∷ []) installation expected).cross_pool in
    (total_of (map (λ t. t.cost_month) cp.tenants) ≡ cp.priced_cost_month)
    × (cp.priced_cost_month
        ≡ total_of (
            map pool_cost (
              select is_priced (allocate_all (series ∷ queries ∷ []) installation expected).pools)))
tenants-total_example =
    tenants-total Fraction-IsExact Fraction-IsLinear.ordered (series ∷ queries ∷ []) installation
      expected

priced_positive :
    fraction_float.lt nought
      (allocate_all (series ∷ queries ∷ []) installation expected).cross_pool.priced_cost_month
    ≡ true
unfolding allocate_all sum_from get
priced_positive = refl

tenants-shares_example :
    total_of (
      map
        (λ t. t.share)
        (allocate_all (series ∷ queries ∷ []) installation expected).cross_pool.tenants)
    ≡ one
tenants-shares_example =
    tenants-shares Fraction-IsExact Fraction-IsLinear.ordered (series ∷ queries ∷ []) installation
      expected priced_positive

-- One pool that is priced and one without shares.
abbrev allocations : List (PoolAllocation Fraction)
allocations = allocate series installation expected ∷ allocate idle installation expected ∷ []

cross_pool-coverage_example :
    let cp = cross_pool allocations installation expected in
    (cp.priced ≡ ids (select is_priced allocations))
    × (cp.unpriced ≡ ids (select is_unpriced allocations))
    × (cp.unmeasured ≡ ids (select is_unmeasured allocations))
    × (cp.priced_cost_month ≡ total_of (map pool_cost (select is_priced allocations)))
    × (length cp.priced + length cp.unpriced + length cp.unmeasured ≡ length allocations)
cross_pool-coverage_example = cross_pool-coverage allocations installation expected

not_measured_in_lem_example :
    All
      (λ t. t.not_measured_in ≡ missed_by t.tenant (select is_priced allocations))
      (cross_pool allocations installation expected).tenants
not_measured_in_lem_example = not_measured_in_lem allocations installation expected

-- The numbers of the example, by running the model.
covered_pools : (cross_pool allocations installation expected).priced ≡ pool_ingester_memory ∷ []
unfolding cross_pool allocate sum_from select get
covered_pools = refl

uncovered_pools : (cross_pool allocations installation expected).unmeasured ≡ pool_query_path ∷ []
unfolding cross_pool allocate sum_from select get
uncovered_pools = refl

unmeasured_tenants : (allocate series installation expected).unmeasured ≡ "c" ∷ []
unfolding allocate sum_from get contains
unmeasured_tenants = refl

accepted : validate installation ≡ none
unfolding validate get contains str_lt
accepted = refl

refused : validate (record installation { currency = "" }) ≡ some (platform_cost_without_currency)
unfolding validate get contains
refused = refl
