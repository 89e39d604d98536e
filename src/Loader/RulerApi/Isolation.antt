-- ===== src/Loader/RulerApi/Isolation.antt =====
-- What each tenant contributes to what `Load` of the ruler's API returns.
use obscost.Prelude.{ℕ, ◌+◌, String, List, [], ◌∷◌, ◌++◌, ◌≡◌, All, length}
use obscost.Prelude.Int.{ℤ}
use obscost.Prelude.Result.{Result, ok, err}
use obscost.Rule.{AnnotatedRule}
use obscost.Loader.{Loaded, nothing_loaded}
use obscost.Loader.RulerApi.{
  RuleJson, ApiGroup, Request, Response, RulerConfig, fetch_rules, load_tenants,
}

-- The sum of a number for each element.
pub total_by {ℓ} : {A : Type ℓ} → (A → ℕ) → List A → ℕ
total_by w [] = 0
total_by w (x ∷ xs) = w x + total_by w xs

module _ {Ast : Type 0} where
  abbrev size : Loaded Ast → ℕ
  size l = length l.rules + length l.errors

  -- A change appends what it gives on its own, which are so many rules and errors, and the rules are
  -- this tenant's.
  record Appends (n : ℕ) (tenant : String) (change : Loaded Ast → Loaded Ast) : Type 0 where
    rules : (l : Loaded Ast) → (change l).rules ≡ l.rules ++ (change nothing_loaded).rules
    errors : (l : Loaded Ast) → (change l).errors ≡ l.errors ++ (change nothing_loaded).errors
    counted : size (change nothing_loaded) ≡ n
    owned : All (λ (r : AnnotatedRule Ast). r.tenant ≡ tenant) (change nothing_loaded).rules

module _ {F Ast : Type 0} (send : Request → Result (Response F)) (parse_expr : String → Result Ast)
    (nanoseconds : F → ℤ) (cfg : RulerConfig) where
  -- The rules in a group, and what a fetch brings: rules, or one error.
  abbrev pub rules_in : ApiGroup F → ℕ
  rules_in g = total_by (λ (_ : RuleJson). 1) g.rules

  abbrev pub brought : Result (List (ApiGroup F)) → ℕ
  brought (err e) = 1
  brought (ok groups) = total_by rules_in groups

  -- What `Load` returns for this tenant alone.
  abbrev pub alone : String → Loaded Ast
  alone tenant = load_tenants send parse_expr nanoseconds (record cfg { tenants = tenant ∷ [] })

  -- A tenant's load alone has rules of this tenant only, and each rule that the API returns for it stands
  -- in it as a rule or as an error; a fetch that fails stands in it as one error.
  abbrev pub IsAccounted : String → Type 0
  IsAccounted t =
      All (λ (r : AnnotatedRule Ast). r.tenant ≡ t) (alone t).rules
      × (length (alone t).rules + length (alone t).errors
          ≡ brought (fetch_rules send parse_expr nanoseconds cfg t))
