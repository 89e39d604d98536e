-- ===== src/MimirDrivers/QueryPath/Choice.antt =====
-- Which driver measures the query path.
use obscost.Prelude.{
  String, Bool, true, false, not, ◌&&◌, Option, none, some, List, [], ◌∷◌, ◌++◌, ◌≡◌, refl, sym, ap,
  ◌∙◌, arith, if◌then◌else◌, Bool-cases, inl, inr, is_empty, All,
}
use mathlib.Core.Path.{subst}
use obscost.Prelude.Result.{ok, pure, lift}
use obscost.Prelude.Result.Runs.{pure-ends, lift-ends, >>=-eq-ok}
use obscost.Float.{Float, nought}
use obscost.Cost.{Measurement}
use obscost.Promapi.{Promql}
use obscost.MimirDrivers.{Api, Config, World, query, counter_query, sum_of}
use obscost.MimirDrivers.QueryPath.Measured.{IsDriven, IsDriven-measured_by}
use obscost.MimirDrivers.QueryPath.{
  QueryPathDriver, Answer, Skip, Walk, consider, ask, walk_chain, query_path_chain, first_driver,
  no_walk, measured_by, unmeasured, conclude, or_else, read_chain,
}

module _ {F : Type 0} ⦃f : Float F⦄ where
  -- Whether a driver has data, and a positive total.
  abbrev pub is_positive : Answer F → Bool
  is_positive a = not (is_empty a.drivers) && f.lt nought (sum_of a.drivers)

  abbrev pub IsQuiet : Answer F → Type 0
  IsQuiet a = is_positive a ≡ false

  abbrev pub HasNoData : Answer F → Type 0
  HasNoData a = is_empty a.drivers ≡ true

  abbrev first_data : List (Answer F) → Option (Answer F)
  first_data [] = none
  first_data (a ∷ as') = let rest = first_data as' in if is_empty a.drivers then rest else some a

  consider-positive :
      (a : Answer F) (w : Walk F) → is_positive a ≡ true → (consider a w).chosen ≡ some a
  unfolding consider
  consider-positive a w h = ground (arith, h)

  or_else-none : (o : Option (Answer F)) → or_else o none ≡ o
  or_else-none none = refl
  or_else-none (some a) = refl

  or_else_if :
      (o : Option (Answer F)) (a : Answer F) (b : Bool) (rest : Option (Answer F))
      → or_else (or_else o (if b then none else some a)) rest
        ≡ or_else o (if b then rest else some a)
  or_else_if none a true rest = refl
  or_else_if none a false rest = refl
  or_else_if (some c) a b rest = refl

  consider-quiet :
      (a : Answer F) (w : Walk F)
      → IsQuiet a
      → ((consider a w).chosen ≡ w.chosen)
        × ((consider a w).zeroed ≡ or_else w.zeroed (if is_empty a.drivers then none else some a))
  unfolding consider
  consider-quiet a w h = elim (Bool-cases (is_empty a.drivers)) [
    | inl e ↦ rw e (refl, sym (or_else-none w.zeroed))
    | inr e ↦ elim (Bool-cases (f.lt nought (sum_of a.drivers))) [
      | inl k ↦ cc (rw (e, k) at h)
      | inr k ↦ rw (e, k) (refl, refl)
    ]
  ]

  -- The first answer with data, if there is one.
  pub data FirstData (as' : List (Answer F)) : Option (Answer F) → Type 0 where
    nothing : All HasNoData as' → FirstData as' none
    data_of :
        (before : List (Answer F)) (a : Answer F) (after : List (Answer F))
        → as' ≡ before ++ a ∷ after
        → All HasNoData before
        → is_empty a.drivers ≡ false
        → FirstData as' (some a)

  FirstData-cons :
      (a : Answer F) (as' : List (Answer F)) (o : Option (Answer F))
      → HasNoData a
      → FirstData as' o
      → FirstData (a ∷ as') o
  FirstData-cons a as' none h (nothing hs) = nothing (h, hs)
  FirstData-cons a as' (some c) h (data_of before _ after e hs k) =
      data_of (a ∷ before) c after (ap (λ xs. a ∷ xs) e) (h, hs) k

  FirstData-first_data : (as' : List (Answer F)) → FirstData as' (first_data as')
  FirstData-first_data [] = nothing tt
  FirstData-first_data (a ∷ as') = elim (Bool-cases (is_empty a.drivers)) [
    | inl e ↦ rw e (FirstData-cons a as' (first_data as') e (FirstData-first_data as'))
    | inr e ↦ rw e (data_of [] a as' refl tt e)
  ]

module _ {W F Ast : Type 0} ⦃f : Float F⦄ (api : Api W F) (promql : Promql Ast) (cfg : Config)
    (range_text : String) where
  -- The API answers for some drivers, one after the other.
  pub data Asked : List QueryPathDriver → World W F → List (Answer F) → World W F → Type 0 where
    done : {s t : World W F} → s ≡ t → Asked [] s [] t
    asked :
        {d : QueryPathDriver} {ds : List QueryPathDriver} {s u t : World W F} {a : Answer F}
        {as' : List (Answer F)}
        → ask api promql cfg range_text d s ≡ (ok a, u)
        → Asked ds u as' t
        → Asked (d ∷ ds) s (a ∷ as') t

  -- How the loop over a chain ends: at a driver with a positive total, or after the whole chain.
  data Ends (ds : List QueryPathDriver) (w : Walk F) (s t : World W F) (w' : Walk F) : Type 0 where
    at_positive :
        (before : List (Answer F)) (a : Answer F) (tried rest : List QueryPathDriver)
        → ds ≡ tried ++ rest
        → Asked tried s (before ++ a ∷ []) t
        → All IsQuiet before
        → is_positive a ≡ true
        → w'.chosen ≡ some a
        → Ends ds w s t w'
    at_end :
        (as' : List (Answer F))
        → Asked ds s as' t
        → All IsQuiet as'
        → w'.chosen ≡ none
        → w'.zeroed ≡ or_else w.zeroed (first_data as')
        → Ends ds w s t w'

  Ends-later :
      (d : QueryPathDriver) (ds : List QueryPathDriver) (w : Walk F) (s u t : World W F)
      (w' : Walk F) (a : Answer F)
      → ask api promql cfg range_text d s ≡ (ok a, u)
      → IsQuiet a
      → Ends ds (consider a w) u t w'
      → Ends (d ∷ ds) w s t w'
  Ends-later d ds w s u t w' a one quiet (at_positive before b tried rest e all qs k c) =
      at_positive (a ∷ before) b (d ∷ tried) rest (ap (λ xs. d ∷ xs) e) (asked one all) (quiet, qs)
        k c
  Ends-later d ds w s u t w' a one quiet (at_end as' all qs c z) =
      at_end (a ∷ as') (asked one all) (quiet, qs) c
        (z
          ∙ ap (λ o. or_else o (first_data as')) (consider-quiet a w quiet).1
          ∙ or_else_if w.zeroed a (is_empty a.drivers) (first_data as'))

  Ends-walk_chain :
      (ds : List QueryPathDriver) (w w' : Walk F) (s t : World W F)
      → w.chosen ≡ none
      → walk_chain api promql cfg range_text ds w s ≡ (ok w', t)
      → Ends ds w s t w'
  unfolding walk_chain
  Ends-walk_chain [] w w' s t fresh h =
      let (same, end) = pure-ends w w' s t h in
      at_end [] (done end) tt (ap (λ v. v.chosen) (sym same) ∙ fresh)
        (ap (λ v. v.zeroed) (sym same) ∙ sym (or_else-none w.zeroed))
  Ends-walk_chain (d ∷ ds) w w' s t fresh h =
      let (a, u, one, two) = >>=-eq-ok (ask api promql cfg range_text d) _ s h in
      elim (Bool-cases (is_positive a)) [
        | inl e ↦
            let first = consider-positive a w e in
            let (same, end) = pure-ends (consider a w) w' u t (rw first at two) in
            at_positive [] a (d ∷ []) ds refl (asked one (done end)) tt e
              (ap (λ v. v.chosen) (sym same) ∙ first)
        | inr e ↦
            let still = (consider-quiet a w e).0 ∙ fresh in
            Ends-later d ds w s u t w' a one e
              (Ends-walk_chain ds (consider a w) w' u t still (rw still at two))
      ]

  -- What measures the query path: the first driver with a positive total, after which nothing is asked; if
  -- no driver has one, the first with data; if none has data, nothing.
  pub data Chooses (m0 m : Measurement F) (s t : World W F) : Type 0 where
    by_first :
        (before : List (Answer F)) (a : Answer F) (tried rest : List QueryPathDriver)
        → query_path_chain ≡ tried ++ rest
        → Asked tried s (before ++ a ∷ []) t
        → All IsQuiet before
        → is_positive a ≡ true
        → IsDriven a m0 m
        → Chooses m0 m s t
    by_zeros :
        (as' : List (Answer F)) (a : Answer F)
        → Asked query_path_chain s as' t
        → All IsQuiet as'
        → FirstData as' (some a)
        → IsDriven a m0 m
        → Chooses m0 m s t
    by_nothing :
        (as' : List (Answer F))
        → Asked query_path_chain s as' t
        → All HasNoData as'
        → m.drivers ≡ m0.drivers
        → m.driver_metric ≡ first_driver.metric
        → Chooses m0 m s t

  conclude-some :
      (m0 m : Measurement F) (skipped : List Skip) (o : Option (Answer F)) (a : Answer F)
      (s t : World W F)
      → o ≡ some a
      → conclude api promql cfg range_text m0 skipped o s ≡ (ok m, t)
      → IsDriven a m0 m × (s ≡ t)
  conclude-some m0 m skipped o a s t e h =
      let (same, end) = pure-ends (measured_by a skipped m0) m s t (rw e at h) in
      (subst (λ n. IsDriven a m0 n) same (IsDriven-measured_by a skipped m0), end)

  conclude-none :
      (m0 m : Measurement F) (skipped : List Skip) (o : Option (Answer F)) (s t : World W F)
      → o ≡ none
      → conclude api promql cfg range_text m0 skipped o s ≡ (ok m, t)
      → (m.drivers ≡ m0.drivers) × (m.driver_metric ≡ first_driver.metric) × (s ≡ t)
  conclude-none m0 m skipped o s t e h =
      let (q, u, one, two) =
        >>=-eq-ok (lift (query promql cfg (counter_query first_driver.metric range_text)))
          (λ q. pure (unmeasured q m0)) s (rw e at h) in
      let (same, end) = pure-ends (unmeasured q m0) m u t two in
      (
        ap (λ n. n.drivers) (sym same),
        ap (λ n. n.driver_metric) (sym same),
        (lift-ends _ q s u one).1 ∙ end,
      )

  after_end :
      (m0 m : Measurement F) (w : Walk F) (s u t : World W F) (as' : List (Answer F))
      (o : Option (Answer F))
      → Asked query_path_chain s as' u
      → All IsQuiet as'
      → FirstData as' o
      → or_else w.chosen w.zeroed ≡ o
      → conclude api promql cfg range_text m0 w.skipped (or_else w.chosen w.zeroed) u ≡ (ok m, t)
      → Chooses m0 m s t
  after_end m0 m w s u t as' none all qs (nothing hs) e h =
      let (drivers, metric, end) =
        conclude-none m0 m w.skipped (or_else w.chosen w.zeroed) u t e h in
      by_nothing as' (subst (Asked query_path_chain s as') end all) hs drivers metric
  after_end m0 m w s u t as' (some a) all qs first e h =
      let (driven, end) = conclude-some m0 m w.skipped (or_else w.chosen w.zeroed) a u t e h in
      by_zeros as' a (subst (Asked query_path_chain s as') end all) qs first driven

  finished :
      (m0 m : Measurement F) (w : Walk F) (s u t : World W F)
      → Ends query_path_chain no_walk s u w
      → conclude api promql cfg range_text m0 w.skipped (or_else w.chosen w.zeroed) u ≡ (ok m, t)
      → Chooses m0 m s t
  finished m0 m w s u t (at_positive before a tried rest e all qs k c) h =
      let (driven, end) =
        conclude-some m0 m w.skipped (or_else w.chosen w.zeroed) a u t
          (ap (λ o. or_else o w.zeroed) c) h in
      by_first before a tried rest e (subst (Asked tried s (before ++ a ∷ [])) end all) qs k driven
  finished m0 m w s u t (at_end as' all qs c z) h =
      after_end m0 m w s u t as' (first_data as') all qs (FirstData-first_data as')
        (ap (λ o. or_else o w.zeroed) c ∙ z) h

  -- If the chain of drivers is read, in the order of preference and each driver once, the measurement is
  -- that of the first driver with a positive total, and the drivers after it are not asked; if none has a
  -- positive total, that of the first with data; and without any data it has no drivers beyond those it
  -- began with. Its fallback mark says whether that driver is in seconds.
  pub read_chain-Chooses :
      (m0 m : Measurement F) (s t : World W F)
      → read_chain api promql cfg range_text m0 s ≡ (ok m, t)
      → Chooses m0 m s t
  unfolding read_chain
  read_chain-Chooses m0 m s t h =
      let (w, u, one, two) =
        >>=-eq-ok (walk_chain api promql cfg range_text query_path_chain no_walk) _ s h in
      finished m0 m w s u t (Ends-walk_chain query_path_chain no_walk w s u refl one) two
