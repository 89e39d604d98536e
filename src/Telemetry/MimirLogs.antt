-- ===== src/Telemetry/MimirLogs.antt =====
-- internal/telemetry/mimirlogs/mimirlogs.go: what becomes of one line of the ruler's log. The decoder of logfmt and the
-- parsers of times and numbers are parameters.
pub mod Matched
pub mod Lines
mod Tests
use obscost.Prelude.{
  ℕ, String, Bool, true, false, not, ◌&&◌, ◌||◌, Option, none, some, List, [], ◌∷◌, if◌then◌else◌,
  ◌==◌, string_comparable, is_some,
}
use obscost.Prelude.Int.{ℤ}
use obscost.Prelude.Map.{Assoc, get, put}
use obscost.Prelude.Result.{Error, Result, ok, err}
use obscost.Rule.{AnnotatedRule, RuleExecution, rule_name}
use obscost.Tenancy.{strip_prefix}
use obscost.Promapi.{text_or_empty, trim_space}
use obscost.ExprIndex.{Parser, ExprIndex, LookupError, LookupResult, found, failed, lookup}
use obscost.Telemetry.{Line, skip, faulty, good}

-- The keys and values that the decoder gives before its end or its error.
pub record Decoded : Type 0 where
  pub pairs : List (String × String)
  pub failure : Option Error

-- The library's decoder of a line, and `time.Parse`, `ParseFloat` and `ParseUint`.
pub record Values (F : Type 0) : Type 0 where
  pub decode : String → Decoded
  pub parse_time : String → Result ℤ
  pub parse_float : String → Option F
  pub parse_uint : String → Option ℕ

pub data Fault : Type 0 where
  malformed : Error → Fault
  missing_field : String → Fault
  bad_time : String → Error → Fault
  no_rule : LookupError → Fault

-- `strings.Contains`
unfoldable pub contains_text : String → String → Bool
unfolding strip_prefix
contains_text part String.[] = is_some (strip_prefix part "")
contains_text part (String.◌∷◌ c s) =
    let rest = contains_text part s in is_some (strip_prefix part (String.◌∷◌ c s)) || rest

-- `looksLikeRulerQueryStatsLine`
unfoldable pub looks_like_ruler_query_stats_line : String → Bool
unfolding contains_text
looks_like_ruler_query_stats_line line =
    contains_text "component=ruler" line && contains_text "msg=\"query" line

unfoldable pub set_fields : Assoc String String → List (String × String) → Assoc String String
unfolding put
set_fields m [] = m
set_fields m ((k, v) ∷ pairs) = set_fields (put k v m) pairs

-- `decodeLogfmtLine`
unfoldable pub decode_logfmt_line : Decoded → Result (Assoc String String)
unfolding set_fields
decode_logfmt_line d = elim d.failure [ none ↦ ok (set_fields [] d.pairs) | some e ↦ err e ]

-- `fields[key]`, empty where it is missing
abbrev pub field : String → Assoc String String → String
field key fields = text_or_empty (get key fields)

-- `parseFloatField` and `parseUintField`
abbrev pub parsed_field : {A : Type 0} → (String → Option A) → Option String → Option A
parsed_field parse none = none
parsed_field parse (some raw) = parse raw

module _ {F : Type 0} {Ast : Type 0} (parser : Parser Ast) (values : Values F) where
  -- the execution, from the fields and the definition that the query text belongs to
  abbrev pub joined_execution : Assoc String String → ℤ → LookupResult Ast → Line F Fault
  joined_execution fields ts (failed e) = faulty (no_rule e)
  joined_execution fields ts (found d) = good (record {
    tenant = field "user" fields;
    namespace = d.location.file;
    group = d.group.name;
    rule_name = rule_name d.rule;
    timestamp = ts;
    duration_seconds = parsed_field values.parse_float (get "query_wall_time_seconds" fields);
    samples_processed = none;
    fetched_series = parsed_field values.parse_uint (get "fetched_series_count" fields);
    fetched_chunks = parsed_field values.parse_uint (get "fetched_chunks_count" fields);
    fetched_bytes = parsed_field values.parse_uint (get "fetched_chunk_bytes" fields);
    query_text = field "query" fields;
    query_hash = "";
  })

  abbrev pub timed_execution : Assoc String String → ExprIndex Ast → Result ℤ → Line F Fault
  timed_execution fields idx (err e) = faulty (bad_time (field "ts" fields) e)
  timed_execution fields idx (ok ts) =
      joined_execution fields ts (lookup parser idx (field "user" fields) (field "query" fields))

  -- `executionFromFields`
  unfoldable pub execution_from_fields : Assoc String String → ExprIndex Ast → Line F Fault
  unfolding get rule_name lookup
  execution_from_fields fields idx =
      if field "user" fields == ""
      then faulty (missing_field "user")
      else if field "query" fields == ""
      then faulty (missing_field "query")
      else if field "ts" fields == ""
      then faulty (missing_field "ts")
      else timed_execution fields idx (values.parse_time (field "ts" fields))

  abbrev pub is_query_stats : Assoc String String → Bool
  is_query_stats fields = field "msg" fields == "query stats" && field "component" fields == "ruler"

  abbrev pub decoded_line : ExprIndex Ast → String → Result (Assoc String String) → Line F Fault
  decoded_line idx line (err e) =
      if looks_like_ruler_query_stats_line line then faulty (malformed e) else skip
  decoded_line idx line (ok fields) =
      if not (is_query_stats fields) then skip else execution_from_fields fields idx

  -- the body of the loop of `Read`
  unfoldable pub read_line : ExprIndex Ast → String → Line F Fault
  unfolding trim_space looks_like_ruler_query_stats_line decode_logfmt_line execution_from_fields
      get
  read_line idx line =
      if trim_space line == ""
      then skip
      else decoded_line idx line (decode_logfmt_line (values.decode line))
