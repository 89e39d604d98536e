-- ===== src/RuleOutput/Count/Started.antt =====
-- The jobs that `Count` makes from the names that are wanted.
use obscost.Prelude.{
  ℕ, ◌≤◌, String, not, ◌&&◌, ◌||◌, none, List, [], ◌∷◌, ◌++◌, map, ◌≡◌, refl, ap, ◌∙◌, arith, ◌==◌,
  string_comparable, Bool-cases, Option-cases, inl, inr, contains, contains-append, str_lt,
}
use obscost.Prelude.Map.{Assoc, keys, get, put, is_some-get}
use obscost.Prelude.Map.Nested.{get_in, inner-put}
use obscost.Prelude.Sort.{sort_by, contains-sort_by}
use obscost.Attribution.Accumulate.{get_list}
use obscost.RuleOutput.{chunk, dedupe}
use obscost.RuleOutput.Chunks.{joined, chunk_lem, dedupe_lem}
use obscost.RuleOutput.Count.{Limits, Counting, positive_or, tenant_jobs, add_jobs, prepare}
use obscost.RuleOutput.Count.Writes.{Counts, asks, asks-append}

asks-map :
    (t n t' : String) (cs : List (List String))
    → asks t n (map (λ c. record { tenant = t'; names = c }) cs)
      ≡ (t == t' && contains n (joined cs))
unfolding asks contains
asks-map t n t' [] = ground arith
asks-map t n t' (c ∷ cs) = ground (arith, asks-map t n t' cs, contains-append n c (joined cs))

get_in-put_nil :
    (t n t' : String) (m : Counts) → get_in t n m ≡ none → get_in t n (put t' [] m) ≡ none
unfolding get
get_in-put_nil t n t' m h =
    ap (get n) (inner-put t t' [] m)
    ∙ elim (Bool-cases (t == t')) [ inl e ↦ rw e refl | inr e ↦ rw e h ]

is_key :
    (t n : String) (want : Assoc String (List String))
    → (contains t (keys want) && (contains n (get_list t want) && not (n == "")))
      ≡ (contains n (get_list t want) && not (n == ""))
unfolding contains
is_key t n want = elim (Option-cases (get t want)) [
  | inl e ↦ rw e (ground (arith, is_some-get t want))
  | inr (v, e) ↦ ground (arith, is_some-get t want)
]

module _ (l : Limits) (positive : 1 ≤ l.max_names) where
  asks-tenant_jobs :
      (t n t' : String) (names : List String)
      → asks t n (tenant_jobs l t' names) ≡ (t == t' && contains n names)
  asks-tenant_jobs t n t' names =
      asks-map t n t' (chunk l.max_names l.max_bytes names)
      ∙ ap (λ ns. t == t' && contains n ns) (chunk_lem l.max_names l.max_bytes positive names).0

  asks-add_jobs :
      (want : Assoc String (List String)) (t n : String) (ts : List String) (s : Counting)
      → get_in t n s.tenants ≡ none
      → (asks t n (add_jobs l want s ts).waiting
          ≡ (asks t n s.waiting || (contains t ts && contains n (dedupe (get_list t want)))))
        × (get_in t n (add_jobs l want s ts).tenants ≡ none)
        × ((add_jobs l want s ts).running ≡ s.running)
  unfolding add_jobs contains
  asks-add_jobs want t n [] s h = (ground arith, h, refl)
  asks-add_jobs want t n (t' ∷ ts) s h =
      let new = tenant_jobs l t' (dedupe (get_list t' want)) in
      let (a, b, c) =
        asks-add_jobs want t n ts
          (record s { waiting = s.waiting ++ new; tenants = put t' [] s.tenants })
          (get_in-put_nil t n t' s.tenants h) in
      (
        a
            ∙ ap (λ x. x || (contains t ts && contains n (dedupe (get_list t want))))
                (asks-append t n s.waiting new
                  ∙ ap (λ x. asks t n s.waiting || x)
                      (asks-tenant_jobs t n t' (dedupe (get_list t' want))))
            ∙ elim (Bool-cases (t == t')) [
              | inl e ↦ rw (e, (string_comparable.equal_iff t t').0 e) (ground arith)
              | inr e ↦ rw e (ground arith)
            ],
        b,
        c,
      )

  pub asks-prepare :
      (want : Assoc String (List String)) (t n : String)
      → (asks t n (prepare l want).waiting ≡ (contains n (get_list t want) && not (n == "")))
        × (get_in t n (prepare l want).tenants ≡ none)
        × ((prepare l want).running ≡ [])
  unfolding prepare get asks contains
  asks-prepare want t n =
      let ts = sort_by str_lt (keys want) in
      let (a, b, c) =
        asks-add_jobs want t n ts (record { waiting = []; running = []; tenants = [] }) refl in
      (
        a
            ∙ ap (λ x. contains t ts && x) ((dedupe_lem (get_list t want)).0 n)
            ∙ ap (λ x. x && (contains n (get_list t want) && not (n == "")))
                (contains-sort_by str_lt t (keys want))
            ∙ is_key t n want,
        b,
        c,
      )

pub concurrency_positive : (n : ℕ) → 1 ≤ positive_or n 4
concurrency_positive n = ground arith

pub names_positive : (n : ℕ) → 1 ≤ positive_or n 50
names_positive n = ground arith
