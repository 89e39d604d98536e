-- ===== src/Loader.antt =====
-- internal/loader: rule definitions from a directory of rule files, or from the ruler's API. What both
-- share is the list of rules and of errors that `Load` returns.
pub mod Dir
pub mod RulerApi
mod Tests
use obscost.Prelude.{String, List, [], ◌∷◌, ◌++◌}
use obscost.Prelude.Result.{Error}
use obscost.Rule.{AnnotatedRule}

-- `loader.LoadError`
pub record LoadError : Type 0 where
  pub file : String
  pub cause : Error

-- The two variables that `Load` fills.
pub record Loaded (Ast : Type 0) : Type 0 where
  pub rules : List (AnnotatedRule Ast)
  pub errors : List LoadError

abbrev pub nothing_loaded : {Ast : Type 0} → Loaded Ast
nothing_loaded = record { rules = []; errors = [] }

abbrev pub add_error : {Ast : Type 0} → String → Error → Loaded Ast → Loaded Ast
add_error file e l = record l { errors = l.errors ++ (record { file = file; cause = e } ∷ []) }

abbrev pub append_rule : {Ast : Type 0} → AnnotatedRule Ast → Loaded Ast → Loaded Ast
append_rule r l = record l { rules = l.rules ++ (r ∷ []) }

-- a `for` loop over a list that changes a variable
pub for_each {ℓ κ} : {A : Type ℓ} {S : Type κ} → (S → A → S) → S → List A → S
for_each body s [] = s
for_each body s (x ∷ xs) = for_each body (body s x) xs

-- what a function gives for each element, one after the other
pub concat_map {ℓ κ} : {A : Type ℓ} {B : Type κ} → (A → List B) → List A → List B
concat_map g [] = []
concat_map g (x ∷ xs) = g x ++ concat_map g xs
