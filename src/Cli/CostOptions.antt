-- ===== src/Cli/CostOptions.antt =====
-- internal/cli/cost.go and internal/cli/report.go: what `runCost` checks before it asks anything. The report
-- formats, the configuration file, `strconv.Atoi` and `time.ParseDuration` are parameters.
pub mod Pools
pub mod Passing
pub mod Cleared
use Prim.Native.Char.{code}
use obscost.Prelude.{
  ℕ, suc, ◌-◌, ◌*◌, String, Bool, true, false, not, ◌&&◌, Option, none, some, List, [], ◌∷◌,
  if◌then◌else◌, ◌==◌, string_comparable, nat_beq, is_empty, contains, select, split_on,
}
use obscost.Prelude.Int.{ℤ, pos, negsuc, ltb_ℤ, wrap_int}
use obscost.Prelude.Result.{Error, message, Result, ok, err}
use obscost.Float.{Float}
use obscost.Cost.{PoolId, pool_order, pool_ingester_memory, Inventory}
use obscost.Cost.Validate.{InventoryError, validate}
use obscost.Promapi.{
  Promql, Selector, SelectorError, SelectorResult, selects, refused, parse_selector, trim_space,
}
use obscost.Cli.Auth.{
  BackendAuth, BackendCreds, AuthError, AuthResult, granted, denied, backend_auth,
}

-- `costOptions`, without the path of the configuration
pub record CostOptions : Type 0 where
  pub metrics_tenant : String
  pub tenants : String
  pub format : String
  pub since : String
  pub pools : String
  pub selector : String
  pub rule_outputs : Bool
  pub dir : String
  pub rule_output_concurrency : ℤ

-- `config.Config`, as far as it is read; the inventory is what `inventoryFromConfig` copies
pub record CostConfig (F : Type 0) : Type 0 where
  pub url : String
  pub header : String
  pub auth : BackendAuth
  pub selector : String
  pub inventory : Inventory F

-- Why `runCost` returns before it asks anything.
pub data Refusal (F : Type 0) : Type 0 where
  bad_since : String → Error → Refusal F
  bad_format : String → Refusal F
  unknown_pool_name : String → Refusal F
  no_pool_named : String → Refusal F
  config_not_loaded : Error → Refusal F
  no_url : Refusal F
  no_metrics_tenant : Refusal F
  dir_without_rule_outputs : Refusal F
  no_rule_definitions : Refusal F
  concurrency_below_one : ℤ → Refusal F
  no_ingester_memory : Refusal F
  bad_inventory : InventoryError F → Refusal F
  bad_selector : String → SelectorError → Refusal F
  bad_credentials : AuthError → Refusal F

pub data Checked (F A : Type 0) : Type 0 where
  passes : A → Checked F A
  refuses : Refusal F → Checked F A

module _ {F : Type 0} where
  -- `if err != nil { return err }`
  infixl 5 ◌>>=◌
  abbrev pub ◌>>=◌ : {A B : Type 0} → Checked F A → (A → Checked F B) → Checked F B
  passes a >>= k = k a
  refuses e >>= k = refuses e

  abbrev pub refuse_if : Bool → Refusal F → Checked F (Unit {0})
  refuse_if b e = if b then refuses e else passes tt

-- the names of a list with commas, without blanks
unfoldable pub names_in : List String → List String
unfolding trim_space
names_in [] = []
names_in (s ∷ ss) =
    let rest = names_in ss in if trim_space s == "" then rest else trim_space s ∷ rest

-- `splitTenants`
unfoldable pub split_tenants : String → List String
unfolding names_in split_on
split_tenants s = names_in (split_on 44 s)

module _ {F : Type 0} where
  -- the loop of `selectPools` over the names, with the set `want`
  unfoldable pub want_pools : List PoolId → List String → Checked F (List PoolId)
  unfolding trim_space contains
  want_pools want [] = passes want
  want_pools want (raw ∷ raws) =
      let id = trim_space raw in
      let skipped = want_pools want raws in
      let added = want_pools (id ∷ want) raws in
      if id == ""
      then skipped
      else if not (contains id pool_order)
      then refuses (unknown_pool_name id)
      else added

  abbrev pub in_pool_order : String → List PoolId → Checked F (List PoolId)
  in_pool_order flag want =
      let out = select (λ id. contains id want) pool_order in
      if is_empty out then refuses (no_pool_named flag) else passes out

  -- `selectPools`
  unfoldable pub select_pools : String → Checked F (List PoolId)
  unfolding trim_space want_pools split_on select contains
  select_pools flag =
      if trim_space flag == ""
      then passes pool_order
      else want_pools [] (split_on 44 flag) >>= in_pool_order flag

-- `strings.CutSuffix` with one character
unfoldable pub cut_suffix : ℕ → String → Option String
cut_suffix k String.[] = none
cut_suffix k (String.◌∷◌ c s) =
    let rest = cut_suffix k s in
    if s == "" && nat_beq (code c) k
    then some ""
    else elim rest [ none ↦ none | some r ↦ some (String.◌∷◌ c r) ]

-- a count of units as an `int64` of nanoseconds
abbrev pub in_units : ℕ → ℤ → ℤ
in_units unit (pos n) = wrap_int (pos (unit * n))
in_units unit (negsuc n) = wrap_int (negsuc (unit * suc n - 1))

abbrev pub counted_units : String → ℕ → Option ℤ → Result ℤ
counted_units text unit none = err (message text)
counted_units text unit (some n) = ok (in_units unit n)

module _ (atoi : String → Option ℤ) (parse_duration : String → Result ℤ) where
  -- `parseSinceDuration`
  unfoldable pub parse_since_duration : String → Result ℤ
  unfolding cut_suffix wrap_int
  parse_since_duration s = elim (cut_suffix 100 s) [
    | some n ↦ counted_units "invalid day count" 86400000000000 (atoi n)
    | none ↦ elim (cut_suffix 119 s) [
      | some n ↦ counted_units "invalid week count" 604800000000000 (atoi n)
      | none ↦ parse_duration s
    ]
  ]

module _ {F : Type 0} where
  abbrev pub window_from : String → Result ℤ → Checked F ℤ
  window_from s (err e) = refuses (bad_since s e)
  window_from s (ok d) = passes d

  -- the window of `runCost`; `defaultMetricsWindow` is an hour
  abbrev pub cost_window : (String → Option ℤ) → (String → Result ℤ) → String → Checked F ℤ
  cost_window atoi parse_duration s =
      if s == ""
      then passes (pos 3600000000000)
      else window_from s (parse_since_duration atoi parse_duration s)

  -- the cases of `--rule-outputs`
  abbrev pub check_rule_outputs : CostOptions → List PoolId → Checked F (Unit {0})
  check_rule_outputs opts pools =
      if opts.rule_outputs
      then (do
        _ ← refuse_if (opts.dir == "" && opts.tenants == "") no_rule_definitions
        _ ←
            refuse_if (ltb_ℤ opts.rule_output_concurrency (pos 1))
              (concurrency_below_one opts.rule_output_concurrency)
        refuse_if (not (contains pool_ingester_memory pools)) no_ingester_memory)
      else passes tt

  abbrev pub valid_inventory : Option (InventoryError F) → Checked F (Unit {0})
  valid_inventory none = passes tt
  valid_inventory (some e) = refuses (bad_inventory e)

  abbrev pub selected : String → SelectorResult → Checked F (Selector × String)
  selected source (selects sel) = passes (sel, source)
  selected source (refused e) = refuses (bad_selector source e)

  abbrev pub credentials : AuthResult BackendCreds → Checked F BackendCreds
  credentials (granted c) = passes c
  credentials (denied e) = refuses (bad_credentials e)

  abbrev pub loaded_config : Result (CostConfig F) → Checked F (CostConfig F)
  loaded_config (ok cfg) = passes cfg
  loaded_config (err e) = refuses (config_not_loaded e)

-- What the checks leave for the reading.
pub record Plan (F : Type 0) : Type 0 where
  pub window : ℤ
  pub pools : List PoolId
  pub config : CostConfig F
  pub selector : Selector
  pub selector_source : String
  pub creds : BackendCreds

-- The environment: the reporters that exist, the configuration file, and the host.
pub record Host (F Ast : Type 0) : Type 0 where
  pub atoi : String → Option ℤ
  pub parse_duration : String → Result ℤ
  pub load_config : Result (CostConfig F)
  pub promql : Promql Ast
  pub getenv : String → String
  pub read_file : String → Result String

module _ {F Ast : Type 0} ⦃f : Float F⦄ (host : Host F Ast) where
  -- `resolveSelector`
  abbrev pub resolve_selector : String → String → Checked F (Selector × String)
  resolve_selector configured flag =
      if flag == ""
      then selected "backend.selector in the config file" (parse_selector host.promql configured)
      else selected "--selector" (parse_selector host.promql flag)

  -- `report.NewCost`
  abbrev pub check_format : String → Checked F (Unit {0})
  check_format format =
      refuse_if (not (contains format ("md" ∷ "" ∷ "json" ∷ []))) (bad_format format)

  -- `runCost` up to the `Source`
  unfoldable pub check_cost : CostOptions → Checked F (Plan F)
  unfolding parse_since_duration select_pools validate parse_selector backend_auth contains
  check_cost opts = do
    window ← cost_window host.atoi host.parse_duration opts.since
    _ ← check_format opts.format
    pools ← select_pools opts.pools
    cfg ← loaded_config host.load_config
    _ ← refuse_if (cfg.url == "") no_url
    _ ← refuse_if (opts.metrics_tenant == "") no_metrics_tenant
    _ ← refuse_if (not (opts.dir == "") && not opts.rule_outputs) dir_without_rule_outputs
    _ ← check_rule_outputs opts pools
    _ ← valid_inventory (validate cfg.inventory)
    (sel, source) ← resolve_selector cfg.selector opts.selector
    creds ← credentials (backend_auth host.getenv host.read_file cfg.header cfg.auth)
    passes (record {
      window = window;
      pools = pools;
      config = cfg;
      selector = sel;
      selector_source = source;
      creds = creds;
    })
