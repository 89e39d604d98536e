-- ===== src/Loader/Tests.antt =====
-- A directory with one rule file and a text, and a ruler that answers for one of two tenants.
use obscost.Prelude.{
  ℕ, String, true, false, none, some, List, [], ◌∷◌, map, ◌≡◌, refl, if◌then◌else◌, ◌==◌,
  string_comparable, All, split_on, str_lt, sprintf,
}
use obscost.Prelude.Int.{ℤ, pos}
use obscost.Prelude.Map.{get}
use obscost.Prelude.Sort.{sort_by}
use obscost.Prelude.Result.{message, Result, ok, err}
use obscost.Rule.{parse_kind, definition_id, rule_name}
use obscost.Tenancy.{policy, resolve, apply}
use obscost.Loader.{Loaded, for_each, concat_map}
use obscost.Loader.Dir.{
  RuleGroup, DirConfig, DirEntry, Files, path_ext, rule_files, synthetic_namespace, outcome_of,
  annotated_node, load_group, load_file, load_dir,
}
use obscost.Loader.Dir.Whole.{listed_rule, listed_file, IsRead, paths, load_dir_lem}
use obscost.Loader.RulerApi.{
  Request, Response, RulerConfig, bearer, rules_request, trim_slash, check_response, fetch_rules,
  load_json, load_api_group, load_tenant, load_tenants,
}

abbrev minute : ℤ
minute = pos 60000000000

abbrev group : RuleGroup
group = record {
  name = "g";
  interval = pos 0;
  rules =
      record {
        record_name = "a:b";
        alert_name = "";
        expr = "sum(up)";
        hold_for = pos 0;
        labels = [];
        annotations = [];
      }
      ∷ [];
}

abbrev entries : List DirEntry
entries =
    record { path = "rules/team"; is_dir = true }
    ∷ record { path = "rules/team/notes.md"; is_dir = false }
    ∷ record { path = "rules/team/r.yaml"; is_dir = false }
    ∷ []

abbrev files : Files String
files = record {
  walk = λ dir. ok entries;
  rel = λ dir path. if path == "rules/team/r.yaml" then some "team/r.yaml" else none;
  parse_file = λ path. (group ∷ [], []);
  parse_expr = λ text. ok text;
}

abbrev config : DirConfig
config = record {
  dir = "rules";
  sources = record { source = "static"; tenants = ("team", "infra") ∷ [] } ∷ [];
  policy = policy "error" "";
  default_group_interval = minute;
}

abbrev from_directory : Loaded String
from_directory = record {
  rules =
      annotated_node files config "rules/team/r.yaml" "infra" group
        (record {
          record_name = "a:b";
          alert_name = "";
          expr = "sum(up)";
          hold_for = pos 0;
          labels = [];
          annotations = [];
        })
        "sum(up)"
      ∷ [];
  errors = [];
}

directory : load_dir files config ≡ ok from_directory
unfolding load_dir load_file load_group for_each rule_files path_ext sort_by str_lt
    synthetic_namespace split_on resolve apply get
directory = refl

load_dir_lem_example :
    All (IsRead files config) (paths files config entries)
    × (map listed_rule from_directory.rules
        ≡ concat_map
            (λ path. listed_file files config path (outcome_of files config path))
            (paths files config entries))
load_dir_lem_example = load_dir_lem files config entries from_directory refl directory refl

abbrev send : Request → Result (Response ℕ)
send r =
    if r.tenant == "a"
    then ok (record {
      status = 200;
      body = "";
      decoded = ok (record {
        status = "success";
        error = "";
        groups =
            record {
              name = "g";
              file = "alerts.yaml";
              interval = 30;
              rules =
                  record { name = "Down"; query = "up == 0"; type = "alerting" }
                  ∷ record { name = "odd"; query = "1"; type = "query" }
                  ∷ [];
            }
            ∷ [];
      });
    })
    else err (message "connection refused")

abbrev seconds : ℕ → ℤ
seconds n = pos n

abbrev parse_expr : String → Result String
parse_expr text = ok text

abbrev ruler : RulerConfig
ruler = record {
  base_url = "http://mimir:8080/";
  header = "";
  tenants = "a" ∷ "b" ∷ [];
  bearer_token = "t";
  basic_auth = none;
}

one_rule_two_errors :
    (map listed_rule (load_tenants send parse_expr seconds ruler).rules
      ≡ (record { tenant = "a"; namespace = "alerts.yaml"; group = "g"; name = "Down" }, "up == 0")
        ∷ [])
    × (map (λ e. e.file) (load_tenants send parse_expr seconds ruler).errors
        ≡ "http://mimir:8080/ (tenant a)" ∷ "http://mimir:8080/ (tenant b)" ∷ [])
unfolding load_tenants load_tenant load_api_group load_json for_each fetch_rules check_response
    parse_kind definition_id rule_name sprintf
one_rule_two_errors = (refl, refl)

request : rules_request ruler "a" ≡ record {
  url = "http://mimir:8080/prometheus/api/v1/rules";
  header = "X-Scope-OrgID";
  tenant = "a";
  authorization = bearer "t";
}
unfolding rules_request trim_slash
request = refl
