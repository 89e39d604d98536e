-- ===== src/Lib.antt =====
-- Verification library of obscost, a tool that attributes the cost of a Mimir installation to its
-- tenants (`promcost cost`) and ranks tenants, rule groups and rules by observed workload
-- (`promcost workload`).
--
-- The parts and how they interact. `internal/cost` holds the cost model: a `Measurement` gives one
-- pool's driver for each tenant, the operator's `Inventory` gives replica counts and prices,
-- `Allocate` turns both into one pool's shares and costs, and `AllocateAll` totals several pools.
-- `internal/cost/mimirdrivers` reads the measurements from Mimir over `internal/promapi`.
-- `internal/attribution` joins rule executions to rule definitions (`internal/rule`) and rolls them
-- up. `internal/telemetry/mimirlogs` finds the definition that a logged query text belongs to,
-- which gives an execution its id. `internal/loader` loads the definitions, `internal/tenancy`
-- decides which tenant a loaded rule belongs to, and `internal/ruleoutput` joins recording rules to
-- the number of series they produce.
--
-- Files and the code they follow:
--   Cost                   internal/cost/cost.go: pools, inventory, measurement, allocation
--   Cost/Validate          internal/cost/cost.go: `Inventory.Validate` is `validate`, `validatePrice` is
--                          `validate_price`; Validate/Defensible describes what is accepted,
--                          Validate/Validity compares the two
--   Cost/Window            internal/cost/cost.go: `windowString` is `window_string`
--   Cost/Factor            internal/cost/cost.go: `resolveReplicationFactor`, `divideBy`
--   Cost/Price             internal/cost/cost.go: `priceFlat` is `price_flat`, `priceComponents` is
--                          `price_components`; Price/Priced and Price/Charged say what they leave
--                          alone and what they charge
--   Cost/Allocate          internal/cost/cost.go: `Allocate` is `allocate`, in the steps `begin`,
--                          `apply_factor`, `with_drivers`, `price` and `split`; its children hold the
--                          proofs, Allocate/Parts first, which the others use
--   Cost/Total             internal/cost/total.go: the report's types, `KnownPool`, `Report.Pool`
--   Cost/Total/Cross       internal/cost/total.go: `AllocateAll` is `allocate_all`, `crossPool` is
--                          `cross_pool`; its children hold the proofs
--   Cost/Tests             runs of the model and witnesses
--   Rule                   internal/rule/rule.go, internal/rule/execution.go
--   Attribution            internal/attribution/attribution.go: rank metric, percentages, report types
--   Attribution/Groups     internal/attribution/attribution.go: `groupRules` is `group_rules`
--   Attribution/Accumulate internal/attribution/attribution.go: the maps and loops of `Aggregate`
--   Attribution/Aggregate  internal/attribution/attribution.go: `Aggregate` is `aggregate`; its children
--                          hold the proofs
--   Attribution/Observations  `AggregateObservations` is `aggregate_observations`
--   Attribution/Tests      runs of the model and witnesses
--   ExprIndex              internal/telemetry/mimirlogs/exprindex.go: `buildExprIndex` is
--                          `build_expr_index`, `lookup` is `lookup`
--   RuleOutput             internal/ruleoutput/count.go: `chunk`, `dedupe`; RuleOutput/Chunks holds the
--                          proofs
--   RuleOutput/Count       internal/ruleoutput/count.go: `countChunk` is `count_chunk`, `Count` up to its
--                          goroutines is `prepare`, and what the goroutines do is the relation `Step`; its
--                          children hold the proofs
--   RuleOutput/Join        internal/ruleoutput/ruleoutput.go: the body of the loop over tenants in `Join`
--                          is `join_tenant`, `lessRule` is `less_rule`; its children hold the proofs
--   Telemetry              internal/telemetry: the loop of a source over the lines of a file, and the cutoff of
--                          internal/cli/report.go; Telemetry/MimirLogs is mimirlogs/mimirlogs.go,
--                          Telemetry/Ndjson is ndjson/ndjson.go, Telemetry/MimirMetrics is
--                          mimirmetrics/mimirmetrics.go
--   RuleOutput/Report      internal/ruleoutput/ruleoutput.go: `Join` is `join`, `Wanted` is `wanted`,
--                          `DenominatorFromPool` is `denominator_from_pool`; its child holds the proofs
--   Tenancy                internal/tenancy/policy.go: `ParseUnmappedPolicy` is `parse_unmapped_policy`,
--                          `Apply` is `apply`; internal/tenancy/resolver.go: `Resolve` is `resolve`;
--                          Tenancy/Policy and Tenancy/Resolver hold the
--                          proofs
--   Promapi                internal/promapi: `Duration` is `duration`, `ParseSelector` is `parse_selector`,
--                          `Selector.Apply` is `apply`; Promapi/Span and Promapi/Selection hold the
--                          proofs
--   MimirDrivers           internal/cost/mimirdrivers: the API, the `Source`'s cache, `readDrivers`
--   MimirDrivers/RuleEvaluation  `ruleEvaluation`, `inferRuleEvaluation` and `ReadRulerCPU` of counters.go
--   MimirDrivers/QueryPath  `ReadQueryPath` of counters.go
--   MimirDrivers/Clusters  `Clusters` of mimirdrivers/selector.go and internal/promapi/selector.go
--   MimirDrivers/IngesterMemory  `ReadIngesterMemory` and `subqueryStep` of mimirdrivers.go
--   Loader                 internal/loader: Loader/Dir is dir/dir.go, where `Load` is `load_dir`; Loader/RulerApi
--                          is rulerapi/rulerapi.go, where `Load` is `load_tenants` and `fetch` is
--                          `fetch_rules`; Dir/Whole and RulerApi/Isolation hold the proofs
--   Cli/Auth               internal/cli/report.go: `backendAuth` is `backend_auth`, `basicAuthPassword` is
--                          `basic_auth_password`; Cli/Auth/Grants holds the proof
--   Cli/CostOptions        internal/cli/cost.go: the checks of `runCost` are `check_cost`, `selectPools` is
--                          `select_pools`, `resolveSelector` is `resolve_selector`; internal/cli/report.go:
--                          `parseSinceDuration` and `splitTenants`; CostOptions/Pools and
--                          CostOptions/Cleared describe what is let through
--   Cli/CostCommand        internal/cli/cost.go: `runCost` is `run_cost`, up to the report that it renders;
--                          CostCommand/Readings and CostCommand/Ends hold the proofs
--   Float                  what the code does with a `float64`, as an interface, with the laws that
--                          theorems on sums take as hypotheses; Float/Fraction is a type of fractions
--                          that satisfies all of them
--   Prelude                Boolean tests, lists, texts, integers, Go maps as association lists, Go sorts
--                          as a stable sort, and counting
--
-- How the model stands to the code. A struct is a record, a pointer an option, an error a result of
-- the function. A function that changes a struct through a pointer returns the changed struct. A Go
-- map is an association list with each key once; its order stands for the order of a range, which Go
-- leaves open, so a theorem for every list is one for every such order. `sort.Slice` is a stable
-- insertion sort: where the comparison leaves no two elements equal every sort agrees with it.
-- `uint64` sums wrap around at 2 ^ 64. An `int` that counts the elements of a slice is a natural
-- number, since a slice is shorter than 2 ^ 63. `float64` is any type with the operations of
-- `Float.Float`. The theorems on sums ask for arithmetic without rounding (`IsExact`) and for an order
-- without NaN (`IsOrdered`, `IsLinear`): they state what the formulas are meant to give, and the
-- machine's results differ from it by rounding. A theorem that asks for one of these says so. The other theorems hold for every such
-- type, machine numbers included. Loops are structural recursion over lists. Only the printing of decimal digits uses
-- fuel, as many rounds as the number plus one, and each round drops a digit.
--
-- A key that Go makes of two texts and a NUL between them is the pair of the texts, which is the same as
-- long as neither text has a NUL in it.
--
-- A call that asks the query API is an action of `Prelude.Result`: it takes the state of the API and of
-- the caches, and gives it back with a value or an error. The API is any function of a query and its state.
--
-- Not modelled. The PromQL parser is a parameter of ExprIndex, of Promapi and of Loader; the walk over a
-- directory, the parser of rule files, the HTTP client and the decoders of JSON and YAML are parameters
-- where they are used. Texts of errors, JSON encodings, the file of the configuration
-- (internal/config), the client of internal/promapi, the flags and the rest of the wiring in
-- internal/cli, internal/buildinfo and the rendering of reports (internal/report) are input and output
-- around the parts above. Rule outputs of the cost command are modelled by their parts, Loader and
-- RuleOutput, not as one run.
pub mod Prelude
pub mod Promapi
pub mod Float
pub mod Rule
pub mod Cost
pub mod Attribution
pub mod ExprIndex
pub mod Tenancy
pub mod Loader
pub mod MimirDrivers
pub mod RuleOutput
pub mod Telemetry
pub mod Cli
