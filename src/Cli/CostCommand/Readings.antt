-- ===== src/Cli/CostCommand/Readings.antt =====
-- The pool that each reading measures.
use obscost.Prelude.{
  String, List, [], ◌∷◌, map, ◌≡◌, refl, sym, ap, ◌==◌, string_comparable, Option, none, some,
  Bool-cases, inl, inr, All, false, ◌∙◌, contains,
}
use mathlib.Core.Path.{subst, ap₂}
use obscost.Prelude.Int.{ℤ}
use obscost.Prelude.Result.{ok, Action, pure, in_context, ◌>>=◌}
use obscost.Prelude.Result.Runs.{Result-cases, pure-eq-ok, >>=-eq-ok}
use obscost.Float.{Float}
use obscost.Cost.{
  PoolId, Pool, Measurement, pool_ingester_memory, pool_query_path, pool_ruler_cpu, ingester_memory,
  query_path, ruler_cpu, unit_seconds, rule_evaluation_local, rule_evaluation_remote,
}
use obscost.Promapi.{Promql}
use obscost.MimirDrivers.{Api, Config, Mode, empty_measurement, counter_measurement}
use obscost.MimirDrivers.IngesterMemory.{
  WritePath, classic, ingest_storage, unknown, by_write_path, read_ingester_memory,
}
use obscost.MimirDrivers.QueryPath.{
  Answer, Skip, tried_before, name_tried, measured_by, or_else, explain_rule_queries,
  state_preference, conclude, read_chain, read_query_path,
}
use obscost.MimirDrivers.RuleEvaluation.{explain_mode, read_ruler_cpu}
use obscost.Cli.CostOptions.Pools.{IsPool}
use obscost.Cli.CostCommand.{read_pool, read_pools}

-- What a call gives, if it succeeds.
pub record Gives {S A : Type 0} (P : A → Type 0) (m : Action S A) : Type 0 where
  pub result : (s t : S) (a : A) → m s ≡ (ok a, t) → P a

module _ {S A B : Type 0} where
  Gives-bind :
      {Q : A → Type 0} {P : B → Type 0} (m : Action S A) (k : A → Action S B)
      → Gives Q m
      → ((a : A) → Q a → Gives P (k a))
      → Gives P (m >>= k)
  Gives-bind m k first rest = record {
    result = λ s t b h.
        let (a, u, e, e') = >>=-eq-ok m k s h in (rest a (first.result s u a e)).result u t b e';
  }

  Gives-then :
      {P : B → Type 0} (m : Action S A) (k : A → Action S B)
      → ((a : A) → Gives P (k a))
      → Gives P (m >>= k)
  Gives-then m k rest = Gives-bind m k (record { result = λ s t a h. tt {0} }) (λ a _. rest a)

module _ {S A : Type 0} {P : A → Type 0} where
  Gives-pure : (a : A) → P a → Gives {S = S} P (pure a)
  Gives-pure a p = record { result = λ s t b h. subst P (pure-eq-ok a b s t h) p }

  Gives-in_context : (c : String) (m : Action S A) → Gives P m → Gives P (in_context c m)
  unfolding in_context
  Gives-in_context c m inner = record {
    result = λ s t a h. elim (Result-cases (m s).0) [
      | inr (x, e) ↦ cc (rw (e, in_context) at h)
      | inl (b, e) ↦
          let same : b ≡ a = cc (rw (e, in_context) at h) in
          subst P same (inner.result s (m s).1 b (ap (λ r. (r, (m s).1)) e))
    ];
  }

  Gives-imp : {Q : A → Type 0} {m : Action S A} → ((a : A) → P a → Q a) → Gives P m → Gives Q m
  Gives-imp imp g = record { result = λ s t a h. imp a (g.result s t a h) }

third_pool :
    (id : PoolId)
    → IsPool id
    → (id == pool_ingester_memory) ≡ false
    → (id == pool_query_path) ≡ false
    → id ≡ pool_ruler_cpu
unfolding contains
third_pool id known e k = elim (Bool-cases (id == pool_ruler_cpu)) [
  | inl c ↦ (string_comparable.equal_iff id pool_ruler_cpu).0 c
  | inr c ↦ cc (rw (e, k, c) at known)
]

module _ {F : Type 0} where
  abbrev pub IsOf : Pool → Measurement F → Type 0
  IsOf pool m = m.pool ≡ pool

  pool-name_tried : (ts : List String) (m : Measurement F) → (name_tried ts m).pool ≡ m.pool
  pool-name_tried [] m = refl
  pool-name_tried (t ∷ ts) m = refl

  pool-measured_by :
      (a : Answer F) (skipped : List Skip) (m : Measurement F)
      → (measured_by a skipped m).pool ≡ m.pool
  pool-measured_by a skipped m = elim (Bool-cases (a.driver.unit == unit_seconds)) [
    | inl e ↦ rw (pool-name_tried (tried_before a skipped), e) refl
    | inr e ↦ rw (pool-name_tried (tried_before a skipped), e) refl
  ]

  pool-explain_mode : (mode : Mode F) (m : Measurement F) → (explain_mode mode m).pool ≡ m.pool
  pool-explain_mode mode m = elim (Bool-cases (mode.mode == rule_evaluation_local)) [
    | inl e ↦ rw e refl
    | inr e ↦ elim (Bool-cases (mode.mode == rule_evaluation_remote)) [
      | inl k ↦ rw (e, k) refl
      | inr k ↦ rw (e, k) refl
    ]
  ]

module _ {W F Ast : Type 0} ⦃f : Float F⦄ (api : Api W F) (promql : Promql Ast) (cfg : Config) where
  Gives-counter_measurement :
      (pool : Pool) (window : ℤ)
      → Gives
          (λ (p : Measurement F × String). IsOf pool p.0)
          (counter_measurement api cfg pool window)
  unfolding counter_measurement
  Gives-counter_measurement pool window =
      Gives-then _ _ λ _. Gives-then _ _ λ range_text. Gives-then _ _ λ end. Gives-pure _ refl

  Gives-read_ruler_cpu :
      (window : ℤ) → Gives (IsOf ruler_cpu) (read_ruler_cpu api promql cfg window)
  unfolding read_ruler_cpu
  Gives-read_ruler_cpu window =
      Gives-bind _ _ (Gives-counter_measurement ruler_cpu window)
        λ p of_pool. Gives-then _ _ λ mode. Gives-pure _ (rw (pool-explain_mode mode) of_pool)

  Gives-conclude :
      (range_text : String) (m : Measurement F) (skipped : List Skip) (o : Option (Answer F))
      → IsOf query_path m
      → Gives (IsOf query_path) (conclude api promql cfg range_text m skipped o)
  Gives-conclude range_text m skipped none of_pool = Gives-then _ _ λ q. Gives-pure _ of_pool
  Gives-conclude range_text m skipped (some a) of_pool =
      Gives-pure _ (rw (pool-measured_by a skipped m) of_pool)

  Gives-read_query_path :
      (window : ℤ) → Gives (IsOf query_path) (read_query_path api promql cfg window)
  unfolding read_query_path read_chain
  Gives-read_query_path window =
      Gives-bind _ _ (Gives-counter_measurement query_path window) λ p of_pool.
        Gives-then _ _ λ mode. Gives-then _ _ λ w.
          Gives-conclude p.1 (explain_rule_queries mode (state_preference p.0)) w.skipped
            (or_else w.chosen w.zeroed) of_pool

  Gives-by_write_path :
      (ingest_query range_text step_text : String) (window : ℤ) (m : Measurement F)
      (path : WritePath F)
      → IsOf ingester_memory m
      → Gives
          (IsOf ingester_memory)
          (by_write_path api promql cfg ingest_query range_text step_text window m path)
  Gives-by_write_path ingest_query range_text step_text window m (classic samples) of_pool =
      Gives-bind {Q = IsOf ingester_memory} _ _ (Gives-then _ _ λ a. Gives-pure _ of_pool)
        λ m' k. Gives-pure _ k
  Gives-by_write_path ingest_query range_text step_text window m (ingest_storage samples) of_pool =
      Gives-bind {Q = IsOf ingester_memory} _ _ (Gives-then _ _ λ a. Gives-pure _ of_pool)
        λ m' k. Gives-pure _ k
  Gives-by_write_path ingest_query range_text step_text window m unknown of_pool =
      Gives-pure _ of_pool

  Gives-read_ingester_memory :
      (window : ℤ) → Gives (IsOf ingester_memory) (read_ingester_memory api promql cfg window)
  unfolding read_ingester_memory
  Gives-read_ingester_memory window = Gives-then _ _ λ _. Gives-then _ _ λ range_text.
      Gives-then _ _ λ step_text. Gives-then _ _ λ classic_query. Gives-then _ _ λ ingest_query.
        Gives-then _ _ λ rf_query. Gives-then _ _ λ end. Gives-then _ _ λ path.
          Gives-bind _ _
            (Gives-by_write_path ingest_query range_text step_text window
              (record (empty_measurement ingester_memory window end cfg) {
                driver_query = classic_query;
                rf_query = rf_query;
              })
              path refl)
            λ m k. Gives-then _ _ λ rf. Gives-pure _ k

  same_id :
      (pool : Pool) (id : PoolId)
      → id ≡ pool.id
      → (m : Measurement F) → IsOf pool m
      → m.pool.id ≡ id
  same_id pool id same m of_pool = ap (λ (p : Pool). p.id) of_pool ∙ sym same

  Gives-read_pool :
      (window : ℤ) (id : PoolId)
      → IsPool id
      → Gives (λ (m : Measurement F). m.pool.id ≡ id) (read_pool api promql cfg window id)
  unfolding read_pool
  Gives-read_pool window id known = elim (Bool-cases (id == pool_ingester_memory)) [
    | inl e ↦ rw e (
        Gives-imp
          (same_id ingester_memory id ((string_comparable.equal_iff id pool_ingester_memory).0 e))
          (Gives-read_ingester_memory window))
    | inr e ↦ elim (Bool-cases (id == pool_query_path)) [
      | inl k ↦
          rw (e, k)
            (Gives-imp
              (same_id query_path id ((string_comparable.equal_iff id pool_query_path).0 k))
              (Gives-read_query_path window))
      | inr k ↦
          rw (e, k)
            (Gives-imp (same_id ruler_cpu id (third_pool id known e k))
              (Gives-read_ruler_cpu window))
    ]
  ]

  -- Known pools are each read once, in their order.
  pub Gives-read_pools :
      (window : ℤ) (ids : List PoolId)
      → All IsPool ids
      → Gives
          (λ (ms : List (Measurement F)). map (λ m. m.pool.id) ms ≡ ids)
          (read_pools api promql cfg window ids)
  unfolding read_pools
  Gives-read_pools window [] known = Gives-pure _ refl
  Gives-read_pools window (id ∷ ids) (known, others) =
      Gives-bind _ _ (Gives-in_context _ _ (Gives-read_pool window id known)) λ m same.
        Gives-bind _ _ (Gives-read_pools window ids others)
          λ ms rest. Gives-pure _ (ap₂ ◌∷◌ same rest)
