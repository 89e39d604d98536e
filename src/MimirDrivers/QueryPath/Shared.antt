-- ===== src/MimirDrivers/QueryPath/Shared.antt =====
-- Reading the query path and then the ruler over one window: the ruler's mode is read once.
use obscost.Prelude.{
  String, true, Option, none, some, List, [], ◌∷◌, ◌≡◌, refl, sym, ap, ◌∙◌, ◌==◌, string_comparable,
  Bool-cases, inl, inr, is_some,
}
use mathlib.Core.Path.{subst}
use obscost.Prelude.Int.{ℤ}
use obscost.Prelude.Map.{get}
use obscost.Prelude.Result.{ok, pure, lift}
use obscost.Prelude.Result.Runs.{
  pure-eq-ok, lift-eq-ok, >>=-eq-ok, >>=-of-ok, Keeps, Keeps-pure, Keeps->>=, Keeps-if◌then◌else◌,
  keeps_rules,
}
use obscost.Float.{Float}
use obscost.Cost.{
  Pool, Measurement, query_path, ruler_cpu, unit_seconds, rule_evaluation_local,
  rule_evaluation_remote,
}
use obscost.Promapi.{Promql, duration}
use obscost.MimirDrivers.{
  Api, Config, Mode, World, query, now, require_metrics_tenant, empty_measurement,
  counter_measurement,
}
use obscost.MimirDrivers.RuleEvaluation.{
  rule_evaluation, rule_evaluation_metric, explain_mode, read_ruler_cpu,
}
use obscost.MimirDrivers.RuleEvaluation.Cache.{
  Knows, Keeps-read_drivers, rule_evaluation_known, rule_evaluation_learns,
}
use obscost.MimirDrivers.QueryPath.Measured.{IsDriven-measured_by}
use obscost.MimirDrivers.QueryPath.{
  QueryPathDriver, Answer, Skip, Walk, consider, ask, walk_chain, query_path_chain, no_walk,
  measured_by, explain_rule_queries, state_preference, conclude, unmeasured, or_else, read_chain,
  read_query_path,
}

module _ {W F Ast : Type 0} ⦃f : Float F⦄ (api : Api W F) (promql : Promql Ast) (cfg : Config) where
  Keeps-ask :
      (r : String) (mode : Mode F) (range_text : String) (d : QueryPathDriver)
      → Keeps (Knows api promql cfg r mode) (ask api promql cfg range_text d)
  unfolding ask
  Keeps-ask r mode range_text d =
      search (keeps_rules, Keeps-read_drivers api promql cfg (λ m. get r m ≡ some mode))

  Keeps-walk_chain :
      (r : String) (mode : Mode F) (range_text : String) (ds : List QueryPathDriver) (w : Walk F)
      → Keeps (Knows api promql cfg r mode) (walk_chain api promql cfg range_text ds w)
  unfolding walk_chain
  Keeps-walk_chain r mode range_text [] w = search keeps_rules
  Keeps-walk_chain r mode range_text (d ∷ ds) w =
      Keeps->>= (ask api promql cfg range_text d) _ (Keeps-ask r mode range_text d) (λ a.
        Keeps-if◌then◌else◌ (is_some (consider a w).chosen) (Keeps-pure (consider a w))
          (Keeps-walk_chain r mode range_text ds (consider a w)))

  Keeps-conclude :
      (r : String) (mode : Mode F) (range_text : String) (m : Measurement F) (skipped : List Skip)
      (o : Option (Answer F))
      → Keeps (Knows api promql cfg r mode) (conclude api promql cfg range_text m skipped o)
  Keeps-conclude r mode range_text m skipped none = search keeps_rules
  Keeps-conclude r mode range_text m skipped (some a) = search keeps_rules

  Keeps-read_chain :
      (r : String) (mode : Mode F) (range_text : String) (m : Measurement F)
      → Keeps (Knows api promql cfg r mode) (read_chain api promql cfg range_text m)
  unfolding read_chain
  Keeps-read_chain r mode range_text m =
      search (keeps_rules, Keeps-walk_chain r mode, Keeps-conclude r mode)

  mode-conclude :
      (range_text : String) (m n : Measurement F) (skipped : List Skip) (o : Option (Answer F))
      (s t : World W F)
      → conclude api promql cfg range_text m skipped o s ≡ (ok n, t)
      → n.rule_evaluation ≡ m.rule_evaluation
  mode-conclude range_text m n skipped none s t h =
      let (q, u, one, two) =
        >>=-eq-ok (lift (query promql cfg _)) (λ q. pure (unmeasured q m)) s h in
      sym (ap (λ r. r.rule_evaluation) (pure-eq-ok (unmeasured q m) n u t two))
  mode-conclude range_text m n skipped (some a) s t h =
      sym (ap (λ r. r.rule_evaluation) (pure-eq-ok (measured_by a skipped m) n s t h))
      ∙ (IsDriven-measured_by a skipped m).rule_evaluation

  mode-read_chain :
      (range_text : String) (m n : Measurement F) (s t : World W F)
      → read_chain api promql cfg range_text m s ≡ (ok n, t)
      → n.rule_evaluation ≡ m.rule_evaluation
  unfolding read_chain
  mode-read_chain range_text m n s t h =
      let (w, u, one, two) =
        >>=-eq-ok (walk_chain api promql cfg range_text query_path_chain no_walk) _ s h in
      mode-conclude range_text m n w.skipped (or_else w.chosen w.zeroed) u t two

  counter_measurement-eq-ok :
      (pool : Pool) (window : ℤ) (s t : World W F) (m : Measurement F) (range_text : String)
      → counter_measurement api cfg pool window s ≡ (ok (m, range_text), t)
      → (require_metrics_tenant cfg ≡ ok tt) × (duration window ≡ ok range_text)
  unfolding counter_measurement
  counter_measurement-eq-ok pool window s t m range_text h =
      let (_, u, tenant, h1) = >>=-eq-ok (lift (require_metrics_tenant cfg)) _ s h in
      let (r, v, text, h2) = >>=-eq-ok (lift (duration window)) _ u h1 in
      let (end, w, time, h3) = >>=-eq-ok (now api) _ v h2 in
      (
        lift-eq-ok (require_metrics_tenant cfg) tt s u tenant,
        lift-eq-ok (duration window) r u v text
            ∙ ap (λ p. ok p.1) (pure-eq-ok (_, r) (m, range_text) w t h3),
      )

  -- The parts of a reading of the query path that succeeded.
  reading :
      (window : ℤ) (m : Measurement F) (s t : World W F)
      → read_query_path api promql cfg window s ≡ (ok m, t)
      → (range_text : String) × (mode : Mode F) × ((require_metrics_tenant cfg ≡ ok tt)
          × ((duration window ≡ ok range_text)
              × (Knows api promql cfg range_text mode t × (m.rule_evaluation ≡ mode.mode))))
  unfolding read_query_path
  reading window m s t h =
      let ((m0, range_text), u, counted, h1) =
        >>=-eq-ok (counter_measurement api cfg query_path window) _ s h in
      let (mode, v, known, h2) = >>=-eq-ok (rule_evaluation api promql cfg range_text) _ u h1 in
      let (tenant, window_text) =
        counter_measurement-eq-ok query_path window s u m0 range_text counted in
      let start = explain_rule_queries mode (state_preference m0) in
      (
        range_text,
        mode,
        (
          tenant,
          (
            window_text,
            (
              subst (λ p. Knows api promql cfg range_text mode p.1) h2
                  ((Keeps-read_chain range_text mode range_text start).after v
                    (rule_evaluation_learns api promql cfg range_text mode u v known)),
              mode-read_chain range_text start m v t h2,
            ),
          ),
        ),
      )

  counter_measurement-of-ok :
      (pool : Pool) (window : ℤ) (range_text : String) (s : World W F)
      → require_metrics_tenant cfg ≡ ok tt
      → duration window ≡ ok range_text
      → counter_measurement api cfg pool window s ≡ (
        ok (
          record (empty_measurement pool window (api.now s.api).0 cfg) { unreplicated = true },
          range_text,
        ),
        record s { api = (api.now s.api).1 },
      )
  unfolding counter_measurement lift now pure
  counter_measurement-of-ok pool window range_text s tenant text =
      >>=-of-ok (lift (require_metrics_tenant cfg)) _ s (ap (λ r. (r, s)) tenant)
      ∙ >>=-of-ok (lift (duration window)) _ s (ap (λ r. (r, s)) text)
      ∙ >>=-of-ok (now api) _ s refl

  mode-explain_mode :
      (mode : Mode F) (m : Measurement F)
      → (explain_mode mode m).rule_evaluation ≡ m.rule_evaluation
  mode-explain_mode mode m = elim (Bool-cases (mode.mode == rule_evaluation_local)) [
    | inl e ↦ rw e refl
    | inr e ↦ elim (Bool-cases (mode.mode == rule_evaluation_remote)) [
      | inl e' ↦ rw (e, e') refl
      | inr e' ↦ rw (e, e') refl
    ]
  ]

  -- Once the query path was read over a window, reading the ruler over the same window succeeds, asks the
  -- API nothing but the time, and reports the same evaluation mode.
  pub read_ruler_cpu-read_query_path :
      (window : ℤ) (m : Measurement F) (s t : World W F)
      → read_query_path api promql cfg window s ≡ (ok m, t)
      → (m' : Measurement F) × ((read_ruler_cpu api promql cfg window t
            ≡ (ok m', record t { api = (api.now t.api).1 }))
          × (m'.rule_evaluation ≡ m.rule_evaluation))
  unfolding read_ruler_cpu pure
  read_ruler_cpu-read_query_path window m s t h =
      let (range_text, mode, (tenant, (text, (known, same)))) = reading window m s t h in
      let start = empty_measurement ruler_cpu window (api.now t.api).0 cfg in
      let driven = record start {
        unreplicated = true;
        driver_metric = rule_evaluation_metric;
        driver_kind = "rule-evaluation seconds";
        unit = unit_seconds;
        driver_query = mode.eval_query;
        drivers = mode.eval_seconds;
        rule_evaluation = mode.mode;
      } in
      let t' = record t { api = (api.now t.api).1 } in
      (
        explain_mode mode driven,
        (
          >>=-of-ok (counter_measurement api cfg ruler_cpu window) _ t
                (counter_measurement-of-ok ruler_cpu window range_text t tenant text)
              ∙ >>=-of-ok (rule_evaluation api promql cfg range_text) _ t'
                  (rule_evaluation_known api promql cfg range_text mode t' known),
          mode-explain_mode mode driven ∙ sym same,
        ),
      )
