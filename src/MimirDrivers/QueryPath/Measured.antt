-- ===== src/MimirDrivers/QueryPath/Measured.antt =====
-- The measurement by a driver that was chosen: what it takes from the answer, and what it keeps.
use obscost.Prelude.{
  String, ◌||◌, List, [], ◌∷◌, ◌≡◌, refl, arith, ◌==◌, string_comparable, Bool-cases, inl, inr,
}
use obscost.Cost.{Measurement, unit_seconds}
use obscost.MimirDrivers.QueryPath.{
  Answer, Skip, tried_before, name_tried, mark_fallback, measured_by,
}

module _ {F : Type 0} where
  -- The fields that a report shows of a driver.
  pub record IsDriven (a : Answer F) (m n : Measurement F) : Type 0 where
    pub metric : n.driver_metric ≡ a.driver.metric
    pub query : n.driver_query ≡ a.query
    pub kind : n.driver_kind ≡ a.driver.kind
    pub unit : n.unit ≡ a.driver.unit
    pub drivers : n.drivers ≡ a.drivers
    pub fallback : n.fallback ≡ (m.fallback || a.driver.unit == unit_seconds)
    pub rule_evaluation : n.rule_evaluation ≡ m.rule_evaluation

  IsDriven-name_tried :
      (a : Answer F) (m n : Measurement F) (ts : List String)
      → IsDriven a m n
      → IsDriven a m (name_tried ts n)
  IsDriven-name_tried a m n [] v = v
  IsDriven-name_tried a m n (t ∷ ts) v = record {
    metric = v.metric;
    query = v.query;
    kind = v.kind;
    unit = v.unit;
    drivers = v.drivers;
    fallback = v.fallback;
    rule_evaluation = v.rule_evaluation;
  }

  IsDriven-mark_fallback :
      (a : Answer F) (m n : Measurement F)
      → n.fallback ≡ m.fallback
      → IsDriven a m (record n { fallback = m.fallback || a.driver.unit == unit_seconds })
      → IsDriven a m (mark_fallback a.driver n)
  IsDriven-mark_fallback a m n same v = elim (Bool-cases (a.driver.unit == unit_seconds)) [
    | inl e ↦ rw e (record {
      metric = v.metric;
      query = v.query;
      kind = v.kind;
      unit = v.unit;
      drivers = v.drivers;
      fallback = ground (arith, e);
      rule_evaluation = v.rule_evaluation;
    })
    | inr e ↦ rw e (record {
      metric = v.metric;
      query = v.query;
      kind = v.kind;
      unit = v.unit;
      drivers = v.drivers;
      fallback = ground (arith, e, same);
      rule_evaluation = v.rule_evaluation;
    })
  ]

  pub IsDriven-measured_by :
      (a : Answer F) (skipped : List Skip) (m : Measurement F)
      → IsDriven a m (measured_by a skipped m)
  IsDriven-measured_by a skipped m = IsDriven-name_tried a m _ (tried_before a skipped) (
      IsDriven-mark_fallback a m _ refl (record {
        metric = refl;
        query = refl;
        kind = refl;
        unit = refl;
        drivers = refl;
        fallback = refl;
        rule_evaluation = refl;
      }))
