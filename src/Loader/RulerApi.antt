-- ===== src/Loader/RulerApi.antt =====
-- internal/loader/rulerapi: `Load` and `fetch` of the rules that Mimir's ruler has loaded. The HTTP client with
-- the decoder of JSON, the PromQL parser, and the conversion of floats to integers are parameters.
pub mod Isolation
use Prim.Native.Char.{code}
use Prim.Native.String
use obscost.Prelude.{
  ℕ, String, true, false, not, ◌&&◌, Option, none, some, List, [], ◌∷◌, if◌then◌else◌, ◌==◌,
  string_comparable, nat_beq, sprintf, show_nat,
}
use obscost.Prelude.Int.{ℤ, pos}
use obscost.Prelude.Result.{Error, message, wrapped, Result, ok, err}
use obscost.Promapi.{trim_space}
use obscost.Rule.{AnnotatedRule, Kind, recording, alerting, parse_kind}
use obscost.Loader.{Loaded, nothing_loaded, add_error, append_rule, for_each}

-- `ruleJSON`
pub record RuleJson : Type 0 where
  pub name : String
  pub query : String
  pub type : String

-- `ruleGroup`; the interval is in seconds
pub record ApiGroup (F : Type 0) : Type 0 where
  pub name : String
  pub file : String
  pub interval : F
  pub rules : List RuleJson

-- `rulesResponse`
pub record RulesResponse (F : Type 0) : Type 0 where
  pub status : String
  pub error : String
  pub groups : List (ApiGroup F)

-- what `SetAuth` puts into a request
pub data Authorization : Type 0 where
  no_credentials : Authorization
  bearer : String → Authorization
  basic : String → String → Authorization

-- `promapi.SetAuth`
abbrev pub set_auth : String → Option (String × String) → Authorization
set_auth token (some (user, password)) = basic user password
set_auth token none = if token == "" then no_credentials else bearer token

pub record Request : Type 0 where
  pub url : String
  pub header : String
  pub tenant : String
  pub authorization : Authorization

-- What `client.Do` gives: the status, up to 4096 bytes of the body, and the body as decoded from JSON.
pub record Response (F : Type 0) : Type 0 where
  pub status : ℕ
  pub body : String
  pub decoded : Result (RulesResponse F)

-- `Config`
pub record RulerConfig : Type 0 where
  pub base_url : String
  pub header : String
  pub tenants : List String
  pub bearer_token : String
  pub basic_auth : Option (String × String)

-- `strings.TrimRight(s, "/")`
unfoldable pub trim_slash : String → String
trim_slash String.[] = ""
trim_slash (String.◌∷◌ c s) =
    let rest = trim_slash s in if rest == "" && nat_beq (code c) 47 then "" else String.◌∷◌ c rest

-- the header's name after `New`
abbrev pub tenancy_header : RulerConfig → String
tenancy_header cfg = if cfg.header == "" then "X-Scope-OrgID" else cfg.header

-- the request of `fetch`
unfoldable pub rules_request : RulerConfig → String → Request
unfolding trim_slash
rules_request cfg tenant = record {
  url = String.◌++◌ (trim_slash cfg.base_url) "/prometheus/api/v1/rules";
  header = tenancy_header cfg;
  tenant = tenant;
  authorization = set_auth cfg.bearer_token cfg.basic_auth;
}

module _ {F : Type 0} where
  abbrev pub check_decoded : Result (RulesResponse F) → Result (List (ApiGroup F))
  check_decoded (err e) = err (wrapped "decode response" e)
  check_decoded (ok parsed) =
      if parsed.status == "success"
      then ok parsed.groups
      else err (
          message
            (sprintf ("ruler API returned status " ∷ parsed.status ∷ ": " ∷ parsed.error ∷ [])))

  -- `fetch`, after `client.Do`
  unfoldable pub check_response : Result (Response F) → Result (List (ApiGroup F))
  unfolding trim_space show_nat
  check_response (err e) = err e
  check_response (ok r) =
      if nat_beq r.status 200
      then check_decoded r.decoded
      else err (
          message
            (sprintf ("unexpected status " ∷ show_nat r.status ∷ ": " ∷ trim_space r.body ∷ [])))

-- `send` is `client.Do`, or the error of `http.NewRequestWithContext`, and `nanoseconds s` is `time.Duration(s * float64(time.Second))`.
module _ {F Ast : Type 0} (send : Request → Result (Response F)) (parse_expr : String → Result Ast)
    (nanoseconds : F → ℤ) (cfg : RulerConfig) where
  -- `fetch`
  unfoldable pub fetch_rules : String → Result (List (ApiGroup F))
  unfolding check_response rules_request
  fetch_rules tenant = check_response (send (rules_request cfg tenant))

  abbrev pub source_name : String → String
  source_name tenant = sprintf (cfg.base_url ∷ " (tenant " ∷ tenant ∷ ")" ∷ [])

  abbrev pub api_rule : String → ApiGroup F → RuleJson → Kind → Ast → AnnotatedRule Ast
  api_rule tenant g n kind ast = record {
    rule = record {
      kind = kind;
      record_name = elim kind [ recording ↦ n.name | alerting ↦ "" ];
      alert_name = elim kind [ recording ↦ "" | alerting ↦ n.name ];
      expr = n.query;
      hold_for = pos 0;
      labels = [];
      annotations = [];
    };
    ast = ast;
    group = record { name = g.name; interval = nanoseconds g.interval };
    tenant = tenant;
    location = record { file = g.file; group = g.name; rule = n.name; line = pos 0 };
  }

  abbrev pub rule_context : ApiGroup F → RuleJson → String
  rule_context g n = sprintf ("group " ∷ g.name ∷ " rule " ∷ n.name ∷ [])

  -- what follows `ParseKind`, and what follows `ParseExpr`
  abbrev pub place_query :
      String → ApiGroup F → RuleJson → Kind → Loaded Ast → Result Ast → Loaded Ast
  place_query tenant g n kind l (err e) =
      add_error (source_name tenant)
        (wrapped (rule_context g n) (wrapped "could not parse query" e)) l
  place_query tenant g n kind l (ok ast) = append_rule (api_rule tenant g n kind ast) l

  abbrev pub place_kind : String → ApiGroup F → RuleJson → Loaded Ast → Option Kind → Loaded Ast
  place_kind tenant g n l none =
      add_error (source_name tenant)
        (wrapped (rule_context g n) (message (sprintf ("unknown rule kind " ∷ n.type ∷ [])))) l
  place_kind tenant g n l (some kind) = place_query tenant g n kind l (parse_expr n.query)

  -- the bodies of the loops over the rules, over the groups, and over the tenants
  unfoldable pub load_json : String → ApiGroup F → Loaded Ast → RuleJson → Loaded Ast
  unfolding parse_kind
  load_json tenant g l n = place_kind tenant g n l (parse_kind n.type)

  unfoldable pub load_api_group : String → Loaded Ast → ApiGroup F → Loaded Ast
  unfolding load_json for_each
  load_api_group tenant l g = for_each (load_json tenant g) l g.rules

  abbrev pub load_fetched : String → Loaded Ast → Result (List (ApiGroup F)) → Loaded Ast
  load_fetched tenant l (err e) = add_error (source_name tenant) e l
  load_fetched tenant l (ok groups) = for_each (load_api_group tenant) l groups

  unfoldable pub load_tenant : Loaded Ast → String → Loaded Ast
  unfolding load_api_group for_each fetch_rules
  load_tenant l tenant = load_fetched tenant l (fetch_rules tenant)

  -- `Load`
  unfoldable pub load_tenants : Loaded Ast
  unfolding load_tenant for_each
  load_tenants = for_each load_tenant nothing_loaded cfg.tenants
