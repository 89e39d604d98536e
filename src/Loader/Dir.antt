-- ===== src/Loader/Dir.antt =====
-- internal/loader/dir: `Load` on a directory of rule files. The walk over the directory, `filepath.Rel`,
-- `rulefmt.ParseFile` and the PromQL parser are parameters; paths are those of a Unix system.
pub mod Whole
use Prim.Native.Char.{code}
use obscost.Prelude.{
  ℕ, String, Bool, true, false, ◌||◌, not, ◌&&◌, Option, none, some, List, [], ◌∷◌, if◌then◌else◌,
  ◌==◌, string_comparable, nat_beq, is_empty, split_on, str_lt, sprintf,
}
use obscost.Prelude.Int.{ℤ, pos, ltb_ℤ}
use obscost.Prelude.Map.{Assoc}
use obscost.Prelude.Sort.{sort_by}
use obscost.Prelude.Result.{Error, message, wrapped, Result, ok, err}
use obscost.Rule.{AnnotatedRule, recording, alerting}
use obscost.Tenancy.{DiscoverySource, UnmappedPolicy, Outcome, keep, drop, unmapped, resolve, apply}
use obscost.Loader.{Loaded, nothing_loaded, add_error, append_rule, for_each}

-- `rulefmt.Rule`, as far as it is read
pub record RuleNode : Type 0 where
  pub record_name : String
  pub alert_name : String
  pub expr : String
  pub hold_for : ℤ
  pub labels : Assoc String String
  pub annotations : Assoc String String

-- `rulefmt.RuleGroup`
pub record RuleGroup : Type 0 where
  pub name : String
  pub interval : ℤ
  pub rules : List RuleNode

-- `Config`; the resolver is the chain of the configuration's sources
pub record DirConfig : Type 0 where
  pub dir : String
  pub sources : List DiscoverySource
  pub policy : UnmappedPolicy
  pub default_group_interval : ℤ

-- `New`
abbrev pub with_default_interval : DirConfig → DirConfig
with_default_interval cfg =
    if ltb_ℤ (pos 0) cfg.default_group_interval
    then cfg
    else record cfg { default_group_interval = pos 60000000000 }

pub record DirEntry : Type 0 where
  pub path : String
  pub is_dir : Bool

-- What the directory and the parsers give. `parse_file` returns the groups and the errors of a file.
pub record Files (Ast : Type 0) : Type 0 where
  pub walk : String → Result (List DirEntry)
  pub rel : String → String → Option String
  pub parse_file : String → List RuleGroup × List Error
  pub parse_expr : String → Result Ast

abbrev has_slash : String → Bool
has_slash String.[] = false
has_slash (String.◌∷◌ c s) = nat_beq (code c) 47 || has_slash s

-- `filepath.Ext`
unfoldable pub path_ext : String → String
path_ext String.[] = ""
path_ext (String.◌∷◌ c s) =
    let rest = path_ext s in
    if rest == "" && nat_beq (code c) 46 && not (has_slash s) then String.◌∷◌ c s else rest

abbrev pub is_rule_file : DirEntry → Bool
is_rule_file d = not d.is_dir && (path_ext d.path == ".yaml" || path_ext d.path == ".yml")

-- the function that `Load` hands to `WalkDir`, over the entries
unfoldable pub rule_files : List DirEntry → List String
unfolding path_ext
rule_files [] = []
rule_files (d ∷ ds) = let rest = rule_files ds in if is_rule_file d then d.path ∷ rest else rest

abbrev pub first_of_several : List String → String
first_of_several [] = ""
first_of_several (p ∷ []) = ""
first_of_several (p ∷ q ∷ ps) = p

-- `syntheticNamespace`
unfoldable pub synthetic_namespace : String → String
unfolding split_on
synthetic_namespace rel_path = first_of_several (split_on 47 rel_path)

module _ {Ast : Type 0} (files : Files Ast) (cfg : DirConfig) where
  abbrev pub rel_path : String → String
  rel_path path = elim (files.rel cfg.dir path) [ none ↦ path | some r ↦ r ]

  -- the tenant that the resolver and the policy give a file
  abbrev pub outcome_of : String → Outcome
  outcome_of path = apply cfg.policy (
      resolve cfg.sources
        (record { namespace = synthetic_namespace (rel_path path); annotations = [] }))

  abbrev pub annotated_node : String → String → RuleGroup → RuleNode → Ast → AnnotatedRule Ast
  annotated_node path tenant g n ast = record {
    rule = record {
      kind = if n.alert_name == "" then recording else alerting;
      record_name = n.record_name;
      alert_name = n.alert_name;
      expr = n.expr;
      hold_for = n.hold_for;
      labels = n.labels;
      annotations = n.annotations;
    };
    ast = ast;
    group = record {
      name = g.name;
      interval = if ltb_ℤ (pos 0) g.interval then g.interval else cfg.default_group_interval;
    };
    tenant = tenant;
    location = record {
      file = rel_path path;
      group = g.name;
      rule = if n.alert_name == "" then n.record_name else n.alert_name;
      line = pos 0;
    };
  }

  -- what follows `ParseExpr`
  abbrev pub place_node :
      String → String → RuleGroup → RuleNode → Loaded Ast → Result Ast → Loaded Ast
  place_node path tenant g n l (err e) =
      add_error path (wrapped (sprintf ("group " ∷ g.name ∷ ": could not parse expr" ∷ [])) e) l
  place_node path tenant g n l (ok ast) = append_rule (annotated_node path tenant g n ast) l

  -- the body of the loop over the rules of a group
  abbrev pub load_node : String → String → RuleGroup → Loaded Ast → RuleNode → Loaded Ast
  load_node path tenant g l n = place_node path tenant g n l (files.parse_expr n.expr)

  unfoldable pub load_group : String → String → Loaded Ast → RuleGroup → Loaded Ast
  unfolding for_each
  load_group path tenant l g = for_each (load_node path tenant g) l g.rules

  -- what follows the policy, and what it leads to
  abbrev pub load_groups : String → List RuleGroup → Loaded Ast → Outcome → Loaded Ast
  load_groups path groups l (keep tenant) = for_each (load_group path tenant) l groups
  load_groups path groups l drop = l
  load_groups path groups l unmapped =
      add_error path
        (wrapped (sprintf ("namespace " ∷ synthetic_namespace (rel_path path) ∷ []))
          (message "no tenant mapping (tenancy.unmapped: error)"))
        l

  -- the body of the loop over the files
  unfoldable pub load_file : Loaded Ast → String → Loaded Ast
  unfolding load_group for_each synthetic_namespace resolve apply
  load_file l path =
      let (groups, errs) = files.parse_file path in
      if is_empty errs
      then load_groups path groups l (outcome_of path)
      else for_each (λ l e. add_error path e l) l errs

  -- `Load`
  unfoldable pub load_dir : Result (Loaded Ast)
  unfolding load_file rule_files sort_by str_lt for_each
  load_dir = elim (files.walk cfg.dir) [
    | err e ↦ err (wrapped (sprintf ("walk " ∷ cfg.dir ∷ [])) e)
    | ok entries ↦ ok (for_each load_file nothing_loaded (sort_by str_lt (rule_files entries)))
  ]
