-- ===== src/Promapi.antt =====
-- internal/promapi: the text of a window in PromQL, and the selector of one Mimir cluster (selector.go).
-- The client's requests and the PromQL parser are parameters.
pub mod Span
pub mod Selection
mod Tests
use Prim.Native.Char.{code}
use Prim.Native.String
use obscost.Prelude.{
  ℕ, ◌+◌, ◌*◌, ◌/◌, ◌%◌, String, Bool, true, false, not, ◌&&◌, ◌||◌, Option, none, some, List, [],
  ◌∷◌, ◌++◌, map, if◌then◌else◌, ◌==◌, string_comparable, ltb, leb, nat_beq, is_empty, contains,
  str_lt, sprintf, join, show_nat,
}
use obscost.Prelude.Int.{ℤ, pos, negsuc}
use obscost.Prelude.Map.{Assoc, get}
use obscost.Prelude.Sort.{sort_by}
use obscost.Prelude.Result.{Error, message, wrapped, Result, ok, err}

-- `Sample`; `value` is what `Float` makes of it, `none` for what a caller cannot use
pub record Sample (F : Type 0) : Type 0 where
  pub metric : Assoc String String
  pub value : Option F

-- a label's value, empty where the label is missing
abbrev pub text_or_empty : Option String → String
text_or_empty none = ""
text_or_empty (some s) = s

abbrev pub label_value : {F : Type 0} → String → Sample F → String
label_value name s = text_or_empty (get name s.metric)

-- nanoseconds
abbrev pub millisecond : ℕ
millisecond = 1000000

pub record TimeUnit : Type 0 where
  pub suffix : String
  pub size : ℕ

abbrev pub unit_of : String → ℕ → TimeUnit
unit_of s n = record { suffix = s; size = n }

-- `durationUnits`
abbrev pub duration_units : List TimeUnit
duration_units =
    unit_of "d" 86400000000000
    ∷ unit_of "h" 3600000000000
    ∷ unit_of "m" 60000000000
    ∷ unit_of "s" 1000000000
    ∷ unit_of "ms" millisecond
    ∷ []

abbrev pub show_term : ℕ → TimeUnit → String
show_term d u = String.◌++◌ (show_nat (d / u.size)) u.suffix

-- the loop of `Duration`
unfoldable pub show_in : ℕ → List TimeUnit → String
unfolding show_nat
show_in d [] = show_term d (unit_of "ms" millisecond)
show_in d (u ∷ us) =
    let rest = show_in d us in if nat_beq (d % u.size) 0 then show_term d u else rest

-- `Duration`, in nanoseconds; the texts of its errors are without the duration
unfoldable pub duration : ℤ → Result String
unfolding show_in
duration (negsuc n) = err (message "window must be positive")
duration (pos d) =
    if nat_beq d 0
    then err (message "window must be positive")
    else if ltb d millisecond
    then err (message "window is below PromQL's smallest unit (1ms)")
    else ok (show_in d duration_units)

pub record Matcher : Type 0 where
  pub name : String
  pub kind : String
  pub value : String

-- The PromQL parser: `on_selectors g e` is `e` after `Inspect` has put `g ms` for the matchers `ms` of
-- each vector selector.
pub record Promql (Ast : Type 0) : Type 0 where
  pub parse_metric_selector : String → Result (List Matcher)
  pub parse_expr : String → Result Ast
  pub on_selectors : (List Matcher → List Matcher) → Ast → Ast
  pub show_expr : Ast → String

pub record Selector : Type 0 where
  pub text : String
  pub matchers : List Matcher

-- `unicode.IsSpace`
abbrev pub is_space : ℕ → Bool
is_space c =
    (leb 9 c && leb c 13)
    || nat_beq c 32
    || nat_beq c 133
    || nat_beq c 160
    || nat_beq c 5760
    || (leb 8192 c && leb c 8202)
    || nat_beq c 8232
    || nat_beq c 8233
    || nat_beq c 8239
    || nat_beq c 8287
    || nat_beq c 12288

trim_left : String → String
trim_left String.[] = ""
trim_left (String.◌∷◌ c s) =
    let rest = trim_left s in if is_space (code c) then rest else String.◌∷◌ c s

trim_right : String → String
trim_right String.[] = ""
trim_right (String.◌∷◌ c s) =
    let rest = trim_right s in if rest == "" && is_space (code c) then "" else String.◌∷◌ c rest

-- `strings.TrimSpace`
unfoldable pub trim_space : String → String
unfolding trim_left trim_right
trim_space s = trim_right (trim_left s)

abbrev pub opens_brace : String → Bool
opens_brace String.[] = false
opens_brace (String.◌∷◌ c s) = nat_beq (code c) 123

pub data SelectorError : Type 0 where
  not_in_braces : String → SelectorError
  not_parsed : String → Error → SelectorError
  no_matchers : String → SelectorError
  matches_name : String → SelectorError
  matches_user : String → SelectorError

-- the loop over the matchers: the first that is refused
unfoldable pub refused_matcher : String → List Matcher → Option SelectorError
refused_matcher s [] = none
refused_matcher s (m ∷ ms) =
    if m.name == "__name__"
    then some (matches_name s)
    else if m.name == "user"
    then some (matches_user s)
    else refused_matcher s ms

pub data SelectorResult : Type 0 where
  selects : Selector → SelectorResult
  refused : SelectorError → SelectorResult

abbrev pub accept : String → List Matcher → Option SelectorError → SelectorResult
accept s ms none = selects (record { text = s; matchers = ms })
accept s ms (some e) = refused e

module _ {Ast : Type 0} (promql : Promql Ast) where
  abbrev pub check_matchers : String → Result (List Matcher) → SelectorResult
  check_matchers s (err e) = refused (not_parsed s e)
  check_matchers s (ok ms) =
      if is_empty ms then refused (no_matchers s) else accept s ms (refused_matcher s ms)

  -- `ParseSelector`, from the test for an empty text on
  abbrev pub parse_trimmed : String → SelectorResult
  parse_trimmed s =
      if s == ""
      then selects (record { text = ""; matchers = [] })
      else if not (opens_brace s)
      then refused (not_in_braces s)
      else check_matchers s (promql.parse_metric_selector s)

  -- `ParseSelector`
  unfoldable pub parse_selector : String → SelectorResult
  unfolding trim_space refused_matcher
  parse_selector s = parse_trimmed (trim_space s)

  -- `Apply`
  unfoldable pub apply : Selector → String → Result String
  apply sel query = if is_empty sel.matchers then ok query else elim (promql.parse_expr query) [
    | err e ↦ err (wrapped (sprintf ("adding selector to " ∷ query ∷ [])) e)
    | ok ast ↦ ok (promql.show_expr (promql.on_selectors (λ ms. ms ++ sel.matchers) ast))
  ]
