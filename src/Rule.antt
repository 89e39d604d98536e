-- ===== src/Rule.antt =====
-- internal/rule: rule definitions, rule executions, and the id that joins them. Times and durations
-- are nanoseconds.
use obscost.Prelude.{
  ℕ, String, Bool, true, ◌&&◌, Option, none, some, [], ◌∷◌, ◌≡◌, ◌↔◌, arith, if◌then◌else◌, ◌==◌,
  Comparable, string_comparable, sprintf, show_int,
}
use obscost.Prelude.Int.{ℤ, pos, ltb_ℤ}
use obscost.Prelude.Map.{Assoc}

pub data Kind : Type 0 where
  recording : Kind
  alerting : Kind

-- `Kind.String`
unfoldable pub show_kind : Kind → String
show_kind recording = "recording"
show_kind alerting = "alerting"

-- `ParseKind`; an error is `none`
unfoldable pub parse_kind : String → Option Kind
parse_kind s =
    if s == "recording" then some recording else if s == "alerting" then some alerting else none

pub record SourceLocation : Type 0 where
  pub file : String
  pub group : String
  pub rule : String
  pub line : ℤ

-- `SourceLocation.String`
pub show_location : SourceLocation → String
unfolding sprintf show_int
show_location l =
    if ltb_ℤ (pos 0) l.line
    then sprintf (l.file ∷ ":" ∷ l.group ∷ ":" ∷ l.rule ∷ ":" ∷ show_int l.line ∷ [])
    else sprintf (l.file ∷ ":" ∷ l.group ∷ ":" ∷ l.rule ∷ [])

pub record Rule : Type 0 where
  pub kind : Kind
  pub record_name : String
  pub alert_name : String
  pub expr : String
  pub hold_for : ℤ
  pub labels : Assoc String String
  pub annotations : Assoc String String

-- `Rule.Name`
unfoldable pub rule_name : Rule → String
rule_name r = elim r.kind [ recording ↦ r.record_name | alerting ↦ r.alert_name ]

pub record RuleGroupMeta : Type 0 where
  pub name : String
  pub interval : ℤ

-- `Ast` stands for the PromQL parser's expressions.
pub record AnnotatedRule (Ast : Type 0) : Type 0 where
  pub rule : Rule
  pub ast : Ast
  pub group : RuleGroupMeta
  pub tenant : String
  pub location : SourceLocation

pub record RuleId : Type 0 where
  pub tenant : String
  pub namespace : String
  pub group : String
  pub name : String

-- `RuleID.String`
unfoldable pub show_rule_id : RuleId → String
unfolding sprintf
show_rule_id id = sprintf (id.tenant ∷ "/" ∷ id.namespace ∷ "/" ∷ id.group ∷ "/" ∷ id.name ∷ [])

abbrev pub rule_id_beq : RuleId → RuleId → Bool
rule_id_beq a b =
    a.tenant == b.tenant && a.namespace == b.namespace && a.group == b.group && a.name == b.name

pub rule_id_beq_iff : (a b : RuleId) → (rule_id_beq a b ≡ true) ↔ (a ≡ b)
rule_id_beq_iff a b = ground (
  arith,
  string_comparable.equal_iff a.tenant b.tenant,
  string_comparable.equal_iff a.namespace b.namespace,
  string_comparable.equal_iff a.group b.group,
  string_comparable.equal_iff a.name b.name,
)

-- Go's `==` on the struct, which its maps use
instance abbrev pub rule_id_comparable : Comparable RuleId
rule_id_comparable = record { equal = rule_id_beq; equal_iff = rule_id_beq_iff }

-- A nil pointer is a statistic that the source did not measure.
pub record RuleExecution (F : Type 0) : Type 0 where
  pub tenant : String
  pub namespace : String
  pub group : String
  pub rule_name : String
  pub timestamp : ℤ
  pub duration_seconds : Option F
  pub samples_processed : Option ℕ
  pub fetched_series : Option ℕ
  pub fetched_chunks : Option ℕ
  pub fetched_bytes : Option ℕ
  pub query_text : String
  pub query_hash : String

-- `RuleExecution.RuleID`
abbrev pub execution_id : {F : Type 0} → RuleExecution F → RuleId
execution_id e = record {
  tenant = e.tenant;
  namespace = e.namespace;
  group = e.group;
  name = e.rule_name;
}

-- `AnnotatedRule.RuleID`
unfoldable pub definition_id : {Ast : Type 0} → AnnotatedRule Ast → RuleId
unfolding rule_name
definition_id d = record {
  tenant = d.tenant;
  namespace = d.location.file;
  group = d.group.name;
  name = rule_name d.rule;
}
