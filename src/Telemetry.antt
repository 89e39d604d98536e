-- ===== src/Telemetry.antt =====
-- internal/telemetry: what a source of rule executions reads from a file, line by line.
pub mod Kept
pub mod MimirLogs
pub mod MimirMetrics
pub mod Ndjson
use obscost.Prelude.{ℕ, ◌+◌, String, Option, none, some, List, [], ◌∷◌, ◌++◌, sprintf, not, select}
use obscost.Prelude.Int.{ℤ, ltb_ℤ}
use obscost.Prelude.Result.{Error, wrapped, Result, ok, err}
use obscost.Rule.{RuleExecution}

-- `ReadError`, whose text is left to a type of causes
pub record ReadError (C : Type 0) : Type 0 where
  pub source : String
  pub line : ℕ
  pub cause : C

-- The variables of the loop of `Read`.
pub record Reading (F : Type 0) (C : Type 0) : Type 0 where
  pub executions : List (RuleExecution F)
  pub read_errors : List (ReadError C)

-- What the scanner gives of a file: its lines, and `scanner.Err()` after them.
pub record File : Type 0 where
  pub lines : List String
  pub failure : Option Error

-- What one turn of the loop does with its line.
pub data Line (F : Type 0) (C : Type 0) : Type 0 where
  skip : Line F C
  faulty : C → Line F C
  good : RuleExecution F → Line F C

module _ {F C : Type 0} (path : String) where
  abbrev pub add_line : ℕ → Line F C → Reading F C → Reading F C
  add_line n skip r = r
  add_line n (faulty c) r = record r {
    read_errors = r.read_errors ++ record { source = path; line = n; cause = c } ∷ [];
  }
  add_line n (good e) r = record r { executions = r.executions ++ e ∷ [] }

  -- the loop over the lines, with the number of those read
  unfoldable pub read_lines : (String → Line F C) → ℕ → Reading F C → List String → Reading F C
  read_lines classify n r [] = r
  read_lines classify n r (l ∷ lines) =
      read_lines classify (n + 1) (add_line (n + 1) (classify l) r) lines

  -- `Read`: nothing is kept of a file whose lines cannot all be read
  unfoldable pub read_file : (String → Line F C) → Result File → Result (Reading F C)
  unfolding read_lines sprintf
  read_file classify (err e) = err (wrapped (sprintf ("open telemetry file " ∷ path ∷ [])) e)
  read_file classify (ok file) = elim file.failure [
    | none ↦ ok (read_lines classify 0 (record { executions = []; read_errors = [] }) file.lines)
    | some e ↦ err (wrapped (sprintf ("read telemetry file " ∷ path ∷ [])) e)
  ]

-- the loop of `runReport` that drops what is older than the cutoff, if there is one
unfoldable pub since : {F : Type 0} → Option ℤ → List (RuleExecution F) → List (RuleExecution F)
unfolding select
since none executions = executions
since (some cutoff) executions = select (λ e. not (ltb_ℤ e.timestamp cutoff)) executions
