-- ===== src/Cost/Allocate.antt =====
-- `Allocate` of internal/cost/cost.go.
pub mod Parts
pub mod Tenants
pub mod Shares
pub mod Costed
pub mod Unmeasured
pub mod Divisor
pub mod Determinism
use obscost.Prelude.{
  String, Bool, true, false, not, ◌&&◌, Option, none, some, List, [], ◌∷◌, ◌++◌, map, if◌then◌else◌,
  ◌==◌, string_comparable, is_some, is_empty, contains, str_lt, sprintf,
}
use obscost.Prelude.Int.{ℤ}
use obscost.Prelude.Sort.{sort_by}
use obscost.Prelude.Map.{Assoc, get}
use obscost.Float.{Float, nought, one, total_of}
use obscost.Cost.{
  Pool, PoolInventory, Inventory, Measurement, TenantShare, PoolAllocation, unit_count,
  assumption_replication_factor,
}
use obscost.Cost.Window.{window_string}
use obscost.Cost.Factor.{resolve_replication_factor, display, divide_by}
use obscost.Cost.Price.{assume, with_assumption, with_note, price_flat, price_components}

abbrev pub or_default : String → String → String
or_default s d = if s == "" then d else s

module _ {F : Type 0} ⦃f : Float F⦄ where
  -- the fields that do not depend on the figures, and the head of the trail
  begin : Measurement F → Inventory F → PoolAllocation F
  unfolding window_string
  begin m inv =
      let kind = or_default m.driver_kind m.pool.driver_unit in
      let metric = or_default m.driver_metric m.pool.driver in
      let aggregation : String = if m.pool.cumulative then "total increase" else "averaged" in
      record {
        pool = m.pool;
        window = m.window;
        window_text = window_string f.format_duration m.window;
        end = m.end;
        driver_kind = kind;
        unit = or_default m.unit unit_count;
        fallback = m.fallback;
        fallback_note = m.fallback_note;
        rule_evaluation = m.rule_evaluation;
        tenants = [];
        unmeasured = [];
        total_raw = none;
        total = none;
        replication_factor = none;
        replicas = none;
        cost_per_replica_month = none;
        components = [];
        unpriced_components = [];
        pool_cost_month = none;
        currency = inv.currency;
        costed = false;
        assumptions =
            (assume "driver"
                (sprintf (
                  metric
                  ∷ " ("
                  ∷ kind
                  ∷ "), "
                  ∷ aggregation
                  ∷ " over "
                  ∷ window_string f.format_duration m.window
                  ∷ []))
                m.source
              ∷ assume "driver query" m.driver_query m.source
              ∷ m.assumptions)
            ++ (if m.architecture == ""
                then []
                else assume "write path" m.architecture
                    "detected from which driver query returned data"
                  ∷ []);
        notes =
            m.notes
            ++ (if m.fallback && not (m.fallback_note == "") then m.fallback_note ∷ [] else []);
      }

  -- the divisor, and the allocation with what the trail says of it
  apply_factor : Measurement F → Inventory F → PoolAllocation F → Option F × PoolAllocation F
  unfolding resolve_replication_factor display
  apply_factor m inv a =
      if m.unreplicated
      then (some one, a)
      else (let (rf, note) = resolve_replication_factor m inv in
          (
            rf.value,
            with_assumption
                (record a {
                  replication_factor = rf.value;
                  notes = a.notes ++ (if note == "" then [] else note ∷ []);
                })
                (assume assumption_replication_factor (display rf) rf.source),
          ))

  abbrev pub fresh : String × F → TenantShare F
  fresh (tenant, v) = record {
    tenant = tenant;
    driver_raw = v;
    driver = none;
    share = none;
    equivalent_replicas = none;
    cost = none;
  }

  -- by raw driver descending, then by name
  abbrev pub share_less : TenantShare F → TenantShare F → Bool
  share_less s t =
      if f.eq s.driver_raw t.driver_raw
      then str_lt s.tenant t.tenant
      else f.lt t.driver_raw s.driver_raw

  abbrev pub values : Assoc String F → List F
  values [] = []
  values ((t, v) ∷ m) = v ∷ values m

  -- the loop over `expected`, with the tenants seen so far
  missing : Assoc String F → List String → List String → List String
  missing drivers seen [] = []
  missing drivers seen (t ∷ ts) =
      let rest = missing drivers (t ∷ seen) ts in
      if not (is_some (get t drivers)) && not (contains t seen) then t ∷ rest else rest

  unfoldable pub unmeasured_of : Assoc String F → List String → List String
  unfolding missing sort_by
  unmeasured_of drivers expected = sort_by str_lt (missing drivers [] expected)

  with_drivers : PoolAllocation F → Measurement F → Option F → List String → PoolAllocation F
  unfolding sort_by unmeasured_of divide_by
  with_drivers a m rf expected =
      let total_raw = total_of (values m.drivers) in
      record a {
        tenants = sort_by share_less (map fresh m.drivers);
        unmeasured = unmeasured_of m.drivers expected;
        total_raw = if is_empty m.drivers then none else some total_raw;
        total = if is_empty m.drivers then none else divide_by total_raw rf;
      }

  -- `inv.Pools[m.Pool.ID]`: the zero value where the key is missing
  unfoldable pub pool_inventory : Inventory F → Pool → PoolInventory F
  pool_inventory inv pool = elim (get pool.id inv.pools) [
    | none ↦ record { replicas = none; cost_per_replica_month = none; components = [] }
    | some p ↦ p
  ]

  price : PoolAllocation F → Pool → Inventory F → PoolAllocation F
  unfolding pool_inventory price_flat price_components
  price a pool inv =
      let pinv = pool_inventory inv pool in
      if is_empty pinv.components
      then price_flat a pool inv pinv
      else price_components a pool inv pinv

  abbrev pub with_driver : Option F → TenantShare F → TenantShare F
  with_driver rf t = record t { driver = divide_by t.driver_raw rf }

  times : F → Option F → Option F
  times s none = none
  times s (some x) = some (f.mul s x)

  count_of : Option ℤ → Option F
  count_of none = none
  count_of (some n) = some (f.of_int n)

  -- the body of the last loop
  pub fill : Option F → F → Option ℤ → Option F → TenantShare F → TenantShare F
  unfolding divide_by times count_of
  fill rf total_raw replicas pool_cost t =
      let share = f.div t.driver_raw total_raw in
      record t {
        driver = divide_by t.driver_raw rf;
        share = some share;
        equivalent_replicas = times share (count_of replicas);
        cost = times share pool_cost;
      }

  split : PoolAllocation F → Option F → F → PoolAllocation F
  unfolding fill divide_by
  split a rf total_raw =
      if f.le total_raw nought
      then record a {
        tenants = map (with_driver rf) a.tenants;
        notes =
            a.notes
            ++ (if is_empty a.tenants
                then []
                else sprintf (
                    "every measured tenant reported 0 " ∷ a.driver_kind
                    ∷ ", so shares are undefined rather than 0%" ∷ [])
                  ∷ []);
      }
      else record a { tenants = map (fill rf total_raw a.replicas a.pool_cost_month) a.tenants }

  -- `Allocate`
  unfoldable pub allocate : Measurement F → Inventory F → List String → PoolAllocation F
  unfolding begin apply_factor with_drivers price split
  allocate m inv expected =
      let (rf, a) = apply_factor m inv (begin m inv) in
      split (price (with_drivers a m rf expected) m.pool inv) rf (total_of (values m.drivers))
