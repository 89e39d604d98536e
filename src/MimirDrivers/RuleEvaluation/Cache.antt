-- ===== src/MimirDrivers/RuleEvaluation/Cache.antt =====
-- A window's mode is read once: the cache keeps what was read, and a later reading asks nothing.
use obscost.Prelude.{
  String, none, some, ◌≡◌, refl, sym, ap, ◌∙◌, arith, ◌==◌, string_comparable, equal_refl,
  Bool-cases, Option-cases, inl, inr,
}
use obscost.Prelude.Map.{Assoc, get, get-put}
use obscost.Prelude.Result.{ok, pure}
use obscost.Prelude.Result.Runs.{>>=-eq-ok, >>=-split, Keeps, keeps_rules}
use obscost.Float.{Float}
use obscost.Promapi.{Promql}
use obscost.MimirDrivers.{Api, Config, Mode, World, instant, now, read_drivers}
use obscost.MimirDrivers.RuleEvaluation.{
  present, infer_probed, infer_rule_evaluation, collect_mode, remember, rule_evaluation,
}

module _ {W F Ast : Type 0} ⦃f : Float F⦄ (api : Api W F) (promql : Promql Ast) (cfg : Config)
    (Q : Assoc String (Mode F) → Type 0) where
  -- A call after which a fact about the cache still holds.
  abbrev pub Fact : World W F → Type 0
  Fact s = Q s.eval_modes

  pub Keeps-instant : (q : String) → Keeps Fact (instant api q)
  unfolding instant
  Keeps-instant q = record { after = λ s h. h }

  pub Keeps-now : Keeps Fact (now api)
  unfolding now
  Keeps-now = record { after = λ s h. h }

  pub Keeps-read_drivers : (q : String) → Keeps Fact (read_drivers api q)
  unfolding read_drivers
  Keeps-read_drivers q = search (keeps_rules, Keeps-instant)

  Keeps-present : (text : String) → Keeps Fact (present api promql cfg text)
  unfolding present
  Keeps-present text = search (keeps_rules, Keeps-instant)

  Keeps-infer_probed :
      (range_text : String) (r : Mode F) → Keeps Fact (infer_probed api promql cfg range_text r)
  unfolding infer_probed
  Keeps-infer_probed range_text r = search (keeps_rules, Keeps-present)

  Keeps-infer_rule_evaluation :
      (range_text : String) (r : Mode F)
      → Keeps Fact (infer_rule_evaluation api promql cfg range_text r)
  unfolding infer_rule_evaluation
  Keeps-infer_rule_evaluation range_text r = search (keeps_rules, Keeps-infer_probed)

  Keeps-collect_mode : (range_text : String) → Keeps Fact (collect_mode api promql cfg range_text)
  unfolding collect_mode
  Keeps-collect_mode range_text =
      search (keeps_rules, Keeps-read_drivers, Keeps-infer_rule_evaluation)

module _ {W F Ast : Type 0} ⦃f : Float F⦄ (api : Api W F) (promql : Promql Ast) (cfg : Config) where
  -- An entry of the cache.
  abbrev pub Knows : String → Mode F → World W F → Type 0
  Knows range_text r s = get range_text s.eval_modes ≡ some r

  -- A mode that is known is given again, and nothing is asked.
  pub rule_evaluation_known :
      (range_text : String) (r : Mode F) (s : World W F)
      → Knows range_text r s
      → rule_evaluation api promql cfg range_text s ≡ (ok r, s)
  unfolding rule_evaluation pure
  rule_evaluation_known range_text r s h = rw h refl

  remember_learns :
      (range_text : String) (r' r : Mode F) (u t : World W F)
      → remember api promql cfg range_text r' u ≡ (ok r, t)
      → Knows range_text r t
  unfolding remember
  remember_learns range_text r' r u t h =
      ap (λ p. get range_text p.1.eval_modes) (sym h)
      ∙ get-put range_text range_text r' u.eval_modes
      ∙ ground (arith, equal_refl range_text, h)

  remember_keeps :
      (other : String) (r : Mode F) (range_text : String) (r' : Mode F) (u : World W F)
      → get range_text u.eval_modes ≡ none
      → Knows other r u
      → Knows other r (remember api promql cfg range_text r' u).1
  unfolding remember
  remember_keeps other r range_text r' u missing known = elim (Bool-cases (other == range_text)) [
    | inl e ↦ cc (missing, known, (string_comparable.equal_iff other range_text).0 e)
    | inr e ↦ get-put range_text other r' u.eval_modes ∙ rw e known
  ]

  pub rule_evaluation_learns :
      (range_text : String) (r : Mode F) (s t : World W F)
      → rule_evaluation api promql cfg range_text s ≡ (ok r, t)
      → Knows range_text r t
  unfolding rule_evaluation pure
  rule_evaluation_learns range_text r s t h = elim (Option-cases (get range_text s.eval_modes)) [
    | inl e ↦
        let (r', u, one, two) =
          >>=-eq-ok (collect_mode api promql cfg range_text) (remember api promql cfg range_text) s
            (rw e at h) in
        remember_learns range_text r' r u t two
    | inr (r', e) ↦ cc (e, rw e at h)
  ]

  -- What the cache knows stays known.
  pub Keeps-rule_evaluation :
      (other : String) (r : Mode F) (range_text : String)
      → Keeps (Knows other r) (rule_evaluation api promql cfg range_text)
  unfolding rule_evaluation pure
  Keeps-rule_evaluation other r range_text = record {
    after = λ s h. elim (Option-cases (get range_text s.eval_modes)) [
      | inl e ↦ rw e (
          let fact =
            (Keeps-collect_mode api promql cfg
                (λ m. (get range_text m ≡ none) × (get other m ≡ some r)) range_text).after
              s (e, h) in
          >>=-split (λ p. Knows other r p.1) (collect_mode api promql cfg range_text)
            (remember api promql cfg range_text) s
            (λ r' u done.
              remember_keeps other r range_text r' u (rw done at (fact.0)) (rw done at (fact.1)))
            (λ x u done. rw done at (fact.1)))
      | inr (r', e) ↦ rw e h
    ];
  }
