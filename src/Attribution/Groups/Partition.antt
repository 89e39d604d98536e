-- ===== src/Attribution/Groups/Partition.antt =====
-- `groupRules` puts every rule under one group, and a group's figures are those of its rules.
use mathlib.Core.List.{
  Perm, perm_append_comm, perm_append_singleton, perm_middle, append_assoc, append-nil,
}
use mathlib.Core.List.Perm
use obscost.Prelude.{
  ℕ, ◌+◌, String, Bool, true, List, [], ◌∷◌, ◌++◌, map, ◌≡◌, refl, sym, ap, ◌∙◌, arith,
  if◌then◌else◌, ◌==◌, string_comparable, pair_comparable, equal_comm, All-append, Bool-cases, inl,
  inr, contains, All, IsDistinct,
}
use obscost.Prelude.Int.{pos, ◌+ℤ◌}
use obscost.Prelude.Sort.{insert_by, sort_by, sort_by-All, IsDistinct-sort_by}
use obscost.Prelude.Names.{add_name, add_names, add_names-IsDistinct}
use obscost.Prelude.Counting.{sum}
use obscost.Float.{Float, sum_from, total_of}
use obscost.Attribution.{RuleAggregate, GroupAggregate}
use obscost.Attribution.Groups.{
  has_key, add_rule, new_group, place_rule, place_rules, with_share, group_less, group_rules,
}

sum-snoc {ℓ} :
    {A : Type ℓ} (n : A → ℕ) (xs : List A) (x : A)
    → sum (map n (xs ++ x ∷ [])) ≡ sum (map n xs) + n x
sum-snoc n [] x = omega arith
sum-snoc n (y ∷ ys) x = omega (arith, sum-snoc n ys x)

add_name_later :
    (k : String × String) (ks : List (String × String)) (n : String × String)
    → k ∷ add_name ks n ≡ (if contains n ks then k ∷ ks else k ∷ ks ++ n ∷ [])
unfolding add_name
add_name_later k ks n = elim (Bool-cases (contains n ks)) [ inl e ↦ rw e refl | inr e ↦ rw e refl ]

module _ {F : Type 0} where
  abbrev pub group_key : GroupAggregate F → String × String
  group_key g = (g.namespace, g.group)

  abbrev pub rule_key : RuleAggregate F → String × String
  rule_key r = (r.rule_id.namespace, r.rule_id.group)

  abbrev pub rules_of : List (GroupAggregate F) → List (RuleAggregate F)
  rules_of [] = []
  rules_of (g ∷ gs) = g.rules ++ rules_of gs

  rules_of-insert_by :
      (less : GroupAggregate F → GroupAggregate F → Bool) (g : GroupAggregate F)
      (gs : List (GroupAggregate F))
      → Perm (rules_of (insert_by less g gs)) (g.rules ++ rules_of gs)
  unfolding insert_by
  rules_of-insert_by less g [] = Perm.rfl
  rules_of-insert_by less g (h ∷ gs) = elim (Bool-cases (less h g)) [
    | inl e ↦ rw e (
        Perm.trans (Perm.append_left h.rules (rules_of-insert_by less g gs)) (
          rw
            (
              sym (append_assoc h.rules g.rules (rules_of gs)),
              sym (append_assoc g.rules h.rules (rules_of gs)),
            )
            (Perm.append_right (rules_of gs) (perm_append_comm h.rules g.rules))))
    | inr e ↦ rw e Perm.rfl
  ]

  rules_of-sort_by :
      (less : GroupAggregate F → GroupAggregate F → Bool) (gs : List (GroupAggregate F))
      → Perm (rules_of (sort_by less gs)) (rules_of gs)
  unfolding sort_by
  rules_of-sort_by less [] = Perm.rfl
  rules_of-sort_by less (g ∷ gs) =
      Perm.trans (rules_of-insert_by less g (sort_by less gs))
        (Perm.append_left g.rules (rules_of-sort_by less gs))

module _ {F : Type 0} ⦃f : Float F⦄ where
  total-snoc {ℓ} :
      {A : Type ℓ} (v : A → F) (acc : F) (xs : List A) (x : A)
      → sum_from acc (map v (xs ++ x ∷ [])) ≡ f.add (sum_from acc (map v xs)) (v x)
  unfolding sum_from
  total-snoc v acc [] x = refl
  total-snoc v acc (y ∷ ys) x = total-snoc v (f.add acc (v y)) ys x

  key_comm :
      (g : GroupAggregate F) (r : RuleAggregate F) → (rule_key r == group_key g) ≡ has_key g r
  key_comm g r =
      rw (equal_comm g.namespace r.rule_id.namespace, equal_comm g.group r.rule_id.group) refl

  rules_of-place_rule :
      (order : List (GroupAggregate F)) (r : RuleAggregate F)
      → Perm (rules_of (place_rule order r)) (r ∷ rules_of order)
  unfolding place_rule
  rules_of-place_rule [] r = Perm.rfl
  rules_of-place_rule (g ∷ gs) r = elim (Bool-cases (has_key g r)) [
    | inl e ↦ rw e (Perm.append_right (rules_of gs) (perm_append_singleton r g.rules))
    | inr e ↦ rw e (
        Perm.trans (Perm.append_left g.rules (rules_of-place_rule gs r))
          (perm_middle g.rules (rules_of gs)))
  ]

  keys-place_rule :
      (order : List (GroupAggregate F)) (r : RuleAggregate F)
      → map group_key (place_rule order r) ≡ add_name (map group_key order) (rule_key r)
  unfolding place_rule add_name contains
  keys-place_rule [] r = refl
  keys-place_rule (g ∷ gs) r =
      let k = key_comm g r in
      elim (Bool-cases (has_key g r)) [
        | inl e ↦ rw (e, k, e) refl
        | inr e ↦
            rw (e, k, e, keys-place_rule gs r)
              (add_name_later (group_key g) (map group_key gs) (rule_key r))
      ]

  pub keys-place_rules :
      (order : List (GroupAggregate F)) (rs : List (RuleAggregate F))
      → map group_key (place_rules order rs) ≡ add_names (map group_key order) (map rule_key rs)
  unfolding place_rules add_names
  keys-place_rules order [] = refl
  keys-place_rules order (r ∷ rs) =
      keys-place_rules (place_rule order r) rs
      ∙ ap (λ ks. add_names ks (map rule_key rs)) (keys-place_rule order r)

  rules_of-place_rules :
      (order : List (GroupAggregate F)) (rs : List (RuleAggregate F))
      → Perm (rules_of (place_rules order rs)) (rs ++ rules_of order)
  unfolding place_rules
  rules_of-place_rules order [] = Perm.rfl
  rules_of-place_rules order (r ∷ rs) = Perm.trans (rules_of-place_rules (place_rule order r) rs) (
      Perm.trans (Perm.append_left rs (rules_of-place_rule order r))
        (perm_middle rs (rules_of order)))

  -- A group's figures are those of its rules, all of which have its namespace and name.
  abbrev pub IsGroup : GroupAggregate F → Type 0
  IsGroup g =
      All (λ r. has_key g r ≡ true) g.rules
      × (g.execution_count ≡ pos (sum (map (λ r. r.execution_count) g.rules)))
      × (g.rank_value ≡ total_of (map (λ r. r.rank_value) g.rules))

  IsGroup-add_rule :
      (g : GroupAggregate F) (r : RuleAggregate F)
      → has_key g r ≡ true
      → IsGroup g
      → IsGroup (add_rule r g)
  IsGroup-add_rule g r e (keys, count, rank) = (
    All-append (λ s. has_key g s ≡ true) g.rules (r ∷ []) keys (e, tt),
    ap (λ c. c +ℤ pos r.execution_count) count
        ∙ ap pos (sym (sum-snoc (λ s. s.execution_count) g.rules r)),
    ap (λ x. f.add x r.rank_value) rank ∙ sym (total-snoc (λ s. s.rank_value) _ g.rules r),
  )

  IsGroup-place_rule :
      (order : List (GroupAggregate F)) (r : RuleAggregate F)
      → All IsGroup order
      → All IsGroup (place_rule order r)
  unfolding place_rule sum_from
  IsGroup-place_rule [] r h = (
    IsGroup-add_rule (new_group r) r
        (ground (
          arith,
          string_comparable.equal_iff r.rule_id.namespace r.rule_id.namespace,
          string_comparable.equal_iff r.rule_id.group r.rule_id.group,
        ))
        (tt, refl, refl),
    tt,
  )
  IsGroup-place_rule (g ∷ gs) r (h, hs) = elim (Bool-cases (has_key g r)) [
    | inl e ↦ rw e (IsGroup-add_rule g r e h, hs)
    | inr e ↦ rw e (h, IsGroup-place_rule gs r hs)
  ]

  IsGroup-place_rules :
      (order : List (GroupAggregate F)) (rs : List (RuleAggregate F))
      → All IsGroup order
      → All IsGroup (place_rules order rs)
  unfolding place_rules
  IsGroup-place_rules order [] h = h
  IsGroup-place_rules order (r ∷ rs) h =
      IsGroup-place_rules (place_rule order r) rs (IsGroup-place_rule order r h)

  module _ (total : F) where
    keys-with_share :
        (gs : List (GroupAggregate F))
        → map group_key (map (with_share total) gs) ≡ map group_key gs
    keys-with_share [] = refl
    keys-with_share (g ∷ gs) = ap (λ ks. group_key g ∷ ks) (keys-with_share gs)

    rules_of-with_share :
        (gs : List (GroupAggregate F)) → rules_of (map (with_share total) gs) ≡ rules_of gs
    rules_of-with_share [] = refl
    rules_of-with_share (g ∷ gs) = ap (λ rs. g.rules ++ rs) (rules_of-with_share gs)

    IsGroup-with_share :
        (gs : List (GroupAggregate F)) → All IsGroup gs → All IsGroup (map (with_share total) gs)
    IsGroup-with_share [] h = tt
    IsGroup-with_share (g ∷ gs) (h, hs) = (h, IsGroup-with_share gs hs)

    abbrev ranked : List (RuleAggregate F) → List (GroupAggregate F)
    ranked rules = sort_by group_less (map (with_share total) (place_rules [] rules))

    ranked-partition :
        (rules : List (RuleAggregate F))
        → IsDistinct (map group_key (ranked rules))
          × Perm (rules_of (ranked rules)) rules
          × All IsGroup (ranked rules)
    ranked-partition rules =
        let placed = place_rules [] rules in
        let shared = map (with_share total) placed in
        (
          IsDistinct-sort_by group_key group_less shared (
              rw (keys-with_share placed, keys-place_rules [] rules)
                (add_names-IsDistinct [] (map rule_key rules) tt)),
          Perm.trans (rules_of-sort_by group_less shared)
              (rw (rules_of-with_share placed) (rw append-nil at (rules_of-place_rules [] rules))),
          sort_by-All group_less IsGroup shared
              (IsGroup-with_share placed (IsGroup-place_rules [] rules tt)),
        )

  -- No two groups share a namespace and a name, every rule stands under exactly one group, and each
  -- group has only rules of its namespace and name, their number of executions and the sum of their
  -- rank values.
  pub group_rules-partition :
      (rules : List (RuleAggregate F)) (total : F)
      → let groups = group_rules rules total in
        IsDistinct (map group_key groups) × Perm (rules_of groups) rules × All IsGroup groups
  unfolding group_rules
  group_rules-partition [] total = (tt, Perm.rfl, tt)
  group_rules-partition (r ∷ rs) total = ranked-partition total (r ∷ rs)
