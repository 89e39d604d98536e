-- ===== src/Attribution/Groups.antt =====
-- `groupRules` of internal/attribution/attribution.go. A Go pointer that stands both in `byGroup` and
-- in `order` is one entry here, which the pair of namespace and group finds.
pub mod Partition
use obscost.Prelude.{
  Bool, false, ◌&&◌, ◌||◌, List, [], ◌∷◌, ◌++◌, map, if◌then◌else◌, ◌==◌, string_comparable,
  is_empty, str_lt,
}
use obscost.Prelude.Int.{pos, ◌+ℤ◌}
use obscost.Prelude.Sort.{sort_by}
use obscost.Float.{Float, nought}
use obscost.Attribution.{RuleAggregate, GroupAggregate, pctf}

module _ {F : Type 0} ⦃f : Float F⦄ where
  -- whether a rule belongs under a group
  abbrev pub has_key : GroupAggregate F → RuleAggregate F → Bool
  has_key g r = g.namespace == r.rule_id.namespace && g.group == r.rule_id.group

  abbrev pub add_rule : RuleAggregate F → GroupAggregate F → GroupAggregate F
  add_rule r g = record g {
    execution_count = g.execution_count +ℤ pos r.execution_count;
    rank_value = f.add g.rank_value r.rank_value;
    rank_observed = g.rank_observed || r.rank_observed;
    rules = g.rules ++ r ∷ [];
  }

  abbrev pub new_group : RuleAggregate F → GroupAggregate F
  new_group r = record {
    namespace = r.rule_id.namespace;
    group = r.rule_id.group;
    execution_count = pos 0;
    rank_value = nought;
    rank_share_pct = nought;
    rank_observed = false;
    rules = [];
  }

  -- the body of the first loop: the group is found, or created at the end of `order`
  pub place_rule : List (GroupAggregate F) → RuleAggregate F → List (GroupAggregate F)
  place_rule [] r = add_rule r (new_group r) ∷ []
  place_rule (g ∷ gs) r =
      let rest = place_rule gs r in if has_key g r then add_rule r g ∷ gs else g ∷ rest

  pub place_rules : List (GroupAggregate F) → List (RuleAggregate F) → List (GroupAggregate F)
  unfolding place_rule
  place_rules order [] = order
  place_rules order (r ∷ rs) = place_rules (place_rule order r) rs

  abbrev pub with_share : F → GroupAggregate F → GroupAggregate F
  with_share total g = record g { rank_share_pct = pctf g.rank_value total }

  -- by rank value descending, then by group, then by namespace
  abbrev pub group_less : GroupAggregate F → GroupAggregate F → Bool
  group_less g h =
      if f.eq g.rank_value h.rank_value
      then (if g.group == h.group then str_lt g.namespace h.namespace else str_lt g.group h.group)
      else f.lt h.rank_value g.rank_value

  -- `groupRules`
  unfoldable pub group_rules : List (RuleAggregate F) → F → List (GroupAggregate F)
  unfolding place_rules pctf sort_by
  group_rules rules total =
      if is_empty rules
      then []
      else sort_by group_less (map (with_share total) (place_rules [] rules))
