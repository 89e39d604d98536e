-- ===== src/RuleOutput/Count/Writes.antt =====
-- What the writes of a goroutine leave in the map of counts.
use obscost.Prelude.{
  String, Bool, true, false, ◌&&◌, ◌||◌, Option, none, some, List, [], ◌∷◌, ◌++◌, ◌≡◌, refl, ap,
  ◌∙◌, arith, if◌then◌else◌, ◌==◌, string_comparable, Bool-cases, inl, inr, is_some, contains,
}
use obscost.Prelude.Map.{Assoc, keys, get, is_some-get}
use obscost.Prelude.Map.Nested.{get_in, get_in-put_in}
use obscost.RuleOutput.Join.{MetricCount}
use obscost.RuleOutput.Count.{Job, write, all_failed}

abbrev pub Counts : Type 0
Counts = Assoc String (Assoc String MetricCount)

abbrev pub or_else : Option MetricCount → Option MetricCount → Option MetricCount
or_else none o = o
or_else (some c) o = some c

merge_tests :
    (x y : Bool) (c : MetricCount) (o p : Option MetricCount)
    → (if x && y then some c else if x then or_else o p else p)
      ≡ (if x then or_else (if y then some c else o) p else p)
merge_tests true true c o p = refl
merge_tests true false c o p = refl
merge_tests false y c o p = refl

pub get_in-write :
    (a b t : String) (res : Assoc String MetricCount) (m : Counts)
    → get_in a b (write t res m)
      ≡ (if a == t then or_else (get b res) (get_in a b m) else get_in a b m)
unfolding get
get_in-write a b t [] m = elim (Bool-cases (a == t)) [ inl e ↦ rw e refl | inr e ↦ rw e refl ]
get_in-write a b t ((n, c) ∷ res) m =
    get_in-put_in a b t n c (write t res m)
    ∙ (ap (λ o. if a == t && b == n then some c else o) (get_in-write a b t res m)
        ∙ merge_tests (a == t) (b == n) c (get b res) (get_in a b m))

pub contains-all_failed :
    (e n : String) (names : List String) → contains n (keys (all_failed e names)) ≡ contains n names
unfolding contains
contains-all_failed e n [] = refl
contains-all_failed e n (m ∷ names) = ap (λ b. n == m || b) (contains-all_failed e n names)

is_some-or_else :
    (x : Bool) (o p : Option MetricCount)
    → is_some (if x then or_else o p else p) ≡ ((x && is_some o) || is_some p)
is_some-or_else true none p = refl
is_some-or_else true (some c) p = refl
is_some-or_else false o p = refl

-- After a write a pair has a count if it had one or if it was written.
pub is_some-write :
    (a b t : String) (res : Assoc String MetricCount) (m : Counts)
    → is_some (get_in a b (write t res m))
      ≡ ((a == t && contains b (keys res)) || is_some (get_in a b m))
is_some-write a b t res m =
    ap is_some (get_in-write a b t res m)
    ∙ is_some-or_else (a == t) (get b res) (get_in a b m)
    ∙ ap (λ x. (a == t && x) || is_some (get_in a b m)) (is_some-get b res)

-- Whether some job asks for a name of a tenant.
unfoldable pub asks : String → String → List Job → Bool
unfolding contains
asks t n [] = false
asks t n (j ∷ js) = (t == j.tenant && contains n j.names) || asks t n js

pub asks-append :
    (t n : String) (is js : List Job) → asks t n (is ++ js) ≡ (asks t n is || asks t n js)
unfolding asks
asks-append t n [] js = refl
asks-append t n (i ∷ is) js = ground (arith, asks-append t n is js)

pub asks-split :
    (t n : String) (before : List Job) (j : Job) (after : List Job)
    → asks t n (before ++ j ∷ after)
      ≡ ((t == j.tenant && contains n j.names) || asks t n (before ++ after))
unfolding asks
asks-split t n before j after =
    ground (arith, asks-append t n before (j ∷ after), asks-append t n before after)
