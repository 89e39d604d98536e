-- ===== src/Telemetry/Ndjson.antt =====
-- internal/telemetry/ndjson/ndjson.go: what becomes of one line of JSON. The JSON decoder is a parameter.
use obscost.Prelude.{String, Bool, if◌then◌else◌, ◌==◌, string_comparable}
use obscost.Prelude.Int.{ℤ}
use obscost.Prelude.Result.{Error, Result, ok, err}
use obscost.Rule.{RuleExecution}
use obscost.Promapi.{trim_space}
use obscost.Telemetry.{Line, skip, faulty, good}

-- `json.Unmarshal` into a `RuleExecution`, and `Time.IsZero`.
pub record Json (F : Type 0) : Type 0 where
  pub unmarshal : String → Result (RuleExecution F)
  pub is_zero : ℤ → Bool

pub data Fault : Type 0 where
  bad_json : Error → Fault
  no_rule_name : Fault
  no_timestamp : Fault

module _ {F : Type 0} (json : Json F) where
  abbrev pub checked_execution : Result (RuleExecution F) → Line F Fault
  checked_execution (err e) = faulty (bad_json e)
  checked_execution (ok e) =
      if e.rule_name == ""
      then faulty no_rule_name
      else if json.is_zero e.timestamp
      then faulty no_timestamp
      else good e

  -- the body of the loop of `Read`
  unfoldable pub read_line : String → Line F Fault
  unfolding trim_space
  read_line scanned =
      let text = trim_space scanned in
      if text == "" then skip else checked_execution (json.unmarshal text)
