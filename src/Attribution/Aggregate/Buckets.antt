-- ===== src/Attribution/Aggregate/Buckets.antt =====
-- The executions of one tenant are those that name it, in their order.
use mathlib.Core.List.{append-nil, append_assoc}
use obscost.Prelude.{
  String, ◌||◌, List, [], ◌∷◌, ◌++◌, map, ◌≡◌, refl, sym, ap, ◌∙◌, arith, if◌then◌else◌, ◌==◌,
  string_comparable, Bool-cases, inl, inr, contains, equal_comm, select, IsDistinct,
}
use obscost.Prelude.Map.{Assoc, keys, put, get-put, contains-keys-put, put-IsDistinct}
use obscost.Prelude.Counting.{with_key}
use obscost.Rule.{RuleExecution}
use obscost.Attribution.Accumulate.{get_list, by_key, executions_by_tenant}

bucket_step {ℓ} :
    {A : Type ℓ} (t k : String) (look : String → List A) (a : A) (rest : List A)
    → (if t == k then look k ++ a ∷ [] else look t) ++ rest
      ≡ look t ++ (if k == t then a ∷ rest else rest)
bucket_step t k look a rest = elim (Bool-cases (t == k)) [
  | inl h ↦
      rw (h, sym (equal_comm t k), h)
        (append_assoc (look k) (a ∷ []) rest
          ∙ ap (λ s. look s ++ a ∷ rest) (sym ((string_comparable.equal_iff t k).0 h)))
  | inr h ↦ rw (h, sym (equal_comm t k), h) refl
]

pub get_list-put :
    {A : Type 0} (t k : String) (v : List A) (m : Assoc String (List A))
    → get_list t (put k v m) ≡ (if t == k then v else get_list t m)
get_list-put t k v m = elim (Bool-cases (t == k)) [
  | inl e ↦ rw (get-put k t v m, e) refl
  | inr e ↦ rw (get-put k t v m, e) refl
]

-- What is gathered under a key is what has it, in its order.
module _ {A : Type 0} (key : A → String) where
  pub get_list-by_key :
      (t : String) (m : Assoc String (List A)) (as' : List A)
      → get_list t (by_key key m as') ≡ get_list t m ++ with_key key t as'
  unfolding by_key select
  get_list-by_key t m [] = sym (append-nil (get_list t m))
  get_list-by_key t m (a ∷ as') =
      get_list-by_key t (put (key a) (get_list (key a) m ++ a ∷ []) m) as'
      ∙ ap (λ xs. xs ++ with_key key t as')
          (get_list-put t (key a) (get_list (key a) m ++ a ∷ []) m)
      ∙ bucket_step t (key a) (λ k. get_list k m) a (with_key key t as')

  pub keys-by_key :
      (t : String) (m : Assoc String (List A)) (as' : List A)
      → contains t (keys (by_key key m as')) ≡ (contains t (keys m) || contains t (map key as'))
  unfolding by_key contains
  keys-by_key t m [] = ground arith
  keys-by_key t m (a ∷ as') =
      let v = get_list (key a) m ++ a ∷ [] in
      ground (arith, keys-by_key t (put (key a) v m) as', contains-keys-put (key a) t v m)

  pub by_key-IsDistinct :
      (m : Assoc String (List A)) (as' : List A)
      → IsDistinct (keys m)
      → IsDistinct (keys (by_key key m as'))
  unfolding by_key
  by_key-IsDistinct m [] d = d
  by_key-IsDistinct m (a ∷ as') d =
      let v = get_list (key a) m ++ a ∷ [] in
      by_key-IsDistinct (put (key a) v m) as' (put-IsDistinct (key a) v m d)

module _ {F : Type 0} where
  abbrev pub of_tenant : String → List (RuleExecution F) → List (RuleExecution F)
  of_tenant = with_key (λ e. e.tenant)

  by_key-executions :
      (m : Assoc String (List (RuleExecution F))) (es : List (RuleExecution F))
      → executions_by_tenant m es ≡ by_key (λ e. e.tenant) m es
  unfolding executions_by_tenant by_key
  by_key-executions m [] = refl
  by_key-executions m (e ∷ es) =
      by_key-executions (put e.tenant (get_list e.tenant m ++ e ∷ []) m) es

  pub get_list-by_tenant :
      (t : String) (m : Assoc String (List (RuleExecution F))) (es : List (RuleExecution F))
      → get_list t (executions_by_tenant m es) ≡ get_list t m ++ of_tenant t es
  get_list-by_tenant t m es =
      ap (get_list t) (by_key-executions m es) ∙ get_list-by_key (λ e. e.tenant) t m es

  pub keys-by_tenant :
      (t : String) (m : Assoc String (List (RuleExecution F))) (es : List (RuleExecution F))
      → contains t (keys (executions_by_tenant m es))
        ≡ (contains t (keys m) || contains t (map (λ e. e.tenant) es))
  keys-by_tenant t m es =
      ap (λ x. contains t (keys x)) (by_key-executions m es) ∙ keys-by_key (λ e. e.tenant) t m es
