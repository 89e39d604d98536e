-- ===== src/Loader/Dir/Whole.antt =====
-- What `Load` of a directory returns, next to what the rule files of the directory hold.
use mathlib.Core.List.{append-nil, append_assoc, map-append}
use obscost.Prelude.{
  String, true, false, List, [], ◌∷◌, ◌++◌, map, ◌≡◌, refl, sym, ap, ◌∙◌, if◌then◌else◌, ◌==◌,
  string_comparable, is_empty, nil_of_is_empty, Bool, select, not, ◌&&◌, ◌||◌, All, Bool-cases, inl,
  inr, str_lt,
}
use obscost.Prelude.Sort.{sort_by}
use obscost.Prelude.Result.{Error, Result, ok, err}
use obscost.Rule.{AnnotatedRule, RuleId, definition_id, rule_name}
use obscost.Tenancy.{Outcome, keep, drop, unmapped}
use obscost.Loader.{Loaded, nothing_loaded, add_error, for_each, concat_map}
use obscost.Loader.Dir.{
  RuleNode, RuleGroup, DirConfig, DirEntry, Files, path_ext, rule_files, rel_path, outcome_of,
  annotated_node, place_node, load_node, load_group, load_groups, load_file, load_dir,
}

concat_map-singleton :
    {A B : Type 0} (g : A → B) (xs : List A) → concat_map (λ x. g x ∷ []) xs ≡ map g xs
unfolding concat_map
concat_map-singleton g [] = refl
concat_map-singleton g (x ∷ xs) = ap (λ ys. g x ∷ ys) (concat_map-singleton g xs)

is_empty-append : {A : Type 0} (xs : List A) (x : A) → is_empty (xs ++ (x ∷ [])) ≡ false
is_empty-append [] x = refl
is_empty-append (y ∷ ys) x = refl

module _ {Ast : Type 0} where
  -- The id that telemetry knows a rule by, and its expression.
  abbrev pub listed_rule : AnnotatedRule Ast → RuleId × String
  listed_rule r = (definition_id r, r.rule.expr)

  -- A step that leaves no error found none before, and then it adds these rules.
  abbrev Adds : Type 0 → List (RuleId × String) → Loaded Ast → Loaded Ast → Type 0
  Adds P out before after =
      is_empty after.errors ≡ true
      → (is_empty before.errors ≡ true)
        × (P × (map listed_rule after.rules ≡ map listed_rule before.rules ++ out))

  Adds-for_each :
      {A : Type 0} (P : A → Type 0) (out : A → List (RuleId × String))
      (step : Loaded Ast → A → Loaded Ast)
      → ((l : Loaded Ast) (x : A) → Adds (P x) (out x) l (step l x))
      → (l : Loaded Ast) (xs : List A) → Adds (All P xs) (concat_map out xs) l (for_each step l xs)
  unfolding for_each concat_map
  Adds-for_each P out step h l [] e = (e, (tt, sym (append-nil _)))
  Adds-for_each P out step h l (x ∷ xs) e =
      let (e', (ps, same')) = Adds-for_each P out step h (step l x) xs e in
      let (e'', (p, same)) = h l x e' in
      (
        e'',
        (
          (p, ps),
          same'
              ∙ ap (λ rs. rs ++ concat_map out xs) same
              ∙ append_assoc (map listed_rule l.rules) (out x) (concat_map out xs),
        ),
      )

  -- An error stays, so an error-free end excludes it.
  Adds-error :
      (P : Type 0) (out : List (RuleId × String)) (file : String) (e : Error) (l : Loaded Ast)
      → Adds P out l (add_error file e l)
  Adds-error P out file e l h = cc (h, is_empty-append l.errors (record { file = file; cause = e }))

module _ {Ast : Type 0} (files : Files Ast) (cfg : DirConfig) where
  abbrev Parses : RuleNode → Type 0
  Parses n = (ast : Ast) × (files.parse_expr n.expr ≡ ok ast)

  -- The id and the expression that a rule has in its file.
  abbrev pub listed_node : String → String → RuleGroup → RuleNode → RuleId × String
  listed_node path tenant g n = (
    record {
      tenant = tenant;
      namespace = rel_path files cfg path;
      group = g.name;
      name = if n.alert_name == "" then n.record_name else n.alert_name;
    },
    n.expr,
  )

  abbrev pub groups_of : String → List RuleGroup
  groups_of path = (files.parse_file path).0

  abbrev pub listed_group : String → String → RuleGroup → List (RuleId × String)
  listed_group path tenant g = map (listed_node path tenant g) g.rules

  -- All rules of a file, under the tenant that it is kept for.
  abbrev pub listed_file : String → Outcome → List (RuleId × String)
  listed_file path (keep tenant) = concat_map (listed_group path tenant) (groups_of path)
  listed_file path drop = []
  listed_file path unmapped = []

  -- A file is dropped, or it has a tenant and each of its expressions parses.
  pub data IsWhole (path : String) : Outcome → Type 0 where
    whole :
        (tenant : String)
        → All (λ g. All Parses g.rules) (groups_of path)
        → IsWhole path (keep tenant)
    dropped : IsWhole path drop

  abbrev pub IsRead : String → Type 0
  IsRead path = ((files.parse_file path).1 ≡ []) × IsWhole path (outcome_of files cfg path)

  listed_node-annotated :
      (path tenant : String) (g : RuleGroup) (n : RuleNode) (ast : Ast)
      → listed_rule (annotated_node files cfg path tenant g n ast) ≡ listed_node path tenant g n
  unfolding definition_id rule_name
  listed_node-annotated path tenant g n ast = elim (Bool-cases (n.alert_name == "")) [
    | inl e ↦ rw e refl
    | inr e ↦ rw e refl
  ]

  Adds-placed :
      (path tenant : String) (g : RuleGroup) (n : RuleNode) (l : Loaded Ast) (r : Result Ast)
      → files.parse_expr n.expr ≡ r
      → Adds
          (Parses n)
          (listed_node path tenant g n ∷ [])
          l
          (place_node files cfg path tenant g n l r)
  Adds-placed path tenant g n l (err e) parsed h = Adds-error _ _ path _ l h
  Adds-placed path tenant g n l (ok ast) parsed h = (
    h,
    (
      (ast, parsed),
      map-append listed_rule l.rules (annotated_node files cfg path tenant g n ast ∷ [])
          ∙ ap (λ r. map listed_rule l.rules ++ (r ∷ []))
              (listed_node-annotated path tenant g n ast),
    ),
  )

  Adds-group :
      (path tenant : String) (l : Loaded Ast) (g : RuleGroup)
      → Adds
          (All Parses g.rules)
          (listed_group path tenant g)
          l
          (load_group files cfg path tenant l g)
  unfolding load_group
  Adds-group path tenant l g e =
      let (none_before, (all, same)) =
        Adds-for_each Parses (λ n. listed_node path tenant g n ∷ [])
          (load_node files cfg path tenant g)
          (λ l n. Adds-placed path tenant g n l (files.parse_expr n.expr) refl) l g.rules e in
      (
        none_before,
        (
          all,
          same
              ∙ ap (λ out. map listed_rule l.rules ++ out)
                  (concat_map-singleton (listed_node path tenant g) g.rules),
        ),
      )

  Adds-groups :
      (path : String) (l : Loaded Ast) (o : Outcome)
      → Adds
          (IsWhole path o)
          (listed_file path o)
          l
          (load_groups files cfg path (groups_of path) l o)
  Adds-groups path l (keep tenant) e =
      let (none_before, (all, same)) =
        Adds-for_each (λ g. All Parses g.rules) (listed_group path tenant)
          (load_group files cfg path tenant) (Adds-group path tenant) l (groups_of path) e in
      (none_before, (whole tenant all, same))
  Adds-groups path l drop e = (e, (dropped, sym (append-nil _)))
  Adds-groups path l unmapped e = Adds-error _ _ path _ l e

  Adds-errors :
      (path : String) (errs : List Error) (P : Type 0) (out : List (RuleId × String))
      (l : Loaded Ast)
      → is_empty errs ≡ false
      → Adds P out l (for_each (λ l e. add_error path e l) l errs)
  unfolding for_each
  Adds-errors path [] P out l some_error e = cc (some_error)
  Adds-errors path (x ∷ xs) P out l some_error e =
      let (none_before, _) =
        Adds-for_each (λ _. Unit {0}) (λ _. []) (λ l e. add_error path e l)
          (λ l e. Adds-error _ _ path e l) (add_error path x l) xs e in
      cc (none_before, is_empty-append l.errors (record { file = path; cause = x }))

  Adds-file :
      (l : Loaded Ast) (path : String)
      → Adds
          (IsRead path)
          (listed_file path (outcome_of files cfg path))
          l
          (load_file files cfg l path)
  unfolding load_file
  Adds-file l path = elim (Bool-cases (is_empty (files.parse_file path).1)) [
    | inr failed ↦ rw failed (Adds-errors path (files.parse_file path).1 _ _ l failed)
    | inl parsed ↦ rw parsed λ e.
        let (none_before, (all, same)) = Adds-groups path l (outcome_of files cfg path) e in
        (none_before, ((nil_of_is_empty _ parsed, all), same))
  ]

  -- A file, not a directory, whose extension is .yaml or .yml.
  abbrev pub is_yaml : DirEntry → Bool
  is_yaml d = not d.is_dir && (path_ext d.path == ".yaml" || path_ext d.path == ".yml")

  -- The YAML files of the directory, sorted by their paths.
  abbrev pub paths : List DirEntry → List String
  paths entries = sort_by str_lt (map (λ d. d.path) (select is_yaml entries))

  rule_files_lem : (ds : List DirEntry) → rule_files ds ≡ map (λ d. d.path) (select is_yaml ds)
  unfolding rule_files select
  rule_files_lem [] = refl
  rule_files_lem (d ∷ ds) = elim (Bool-cases (is_yaml d)) [
    | inl e ↦ rw e (ap (λ ps. d.path ∷ ps) (rule_files_lem ds))
    | inr e ↦ rw e (rule_files_lem ds)
  ]

  -- If `Load` of a directory returns no error then every .yaml or .yml file of the directory parsed, and either the
  -- policy drops it or it has a tenant and all its expressions parse; and the rules that are returned
  -- are, in the order of the files' sorted paths, all rules of the files that are not dropped, each under
  -- its file's tenant, its path as the namespace, and its group and name.
  pub load_dir_lem :
      (entries : List DirEntry) (l : Loaded Ast)
      → files.walk cfg.dir ≡ ok entries
      → load_dir files cfg ≡ ok l
      → is_empty l.errors ≡ true
      → All IsRead (paths entries)
        × (map listed_rule l.rules
            ≡ concat_map (λ path. listed_file path (outcome_of files cfg path)) (paths entries))
  unfolding load_dir
  load_dir_lem entries l walked returned clean =
      let read : for_each (load_file files cfg) nothing_loaded (sort_by str_lt (rule_files entries))
          ≡ l =
        cc (rw (walked, load_dir) at returned) in
      let same : for_each (load_file files cfg) nothing_loaded (paths entries) ≡ l =
        ap (for_each (load_file files cfg) nothing_loaded)
          (ap (sort_by str_lt) (sym (rule_files_lem entries)))
        ∙ read in
      let (_, (all, rules)) =
        Adds-for_each IsRead (λ path. listed_file path (outcome_of files cfg path))
          (load_file files cfg) Adds-file nothing_loaded (paths entries) (rw same clean) in
      (all, rw same at rules)
