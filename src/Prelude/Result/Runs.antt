-- ===== src/Prelude/Result/Runs.antt =====
-- How a call that succeeded went, and what calls leave alone.
use Prim.Native.String.{String}
use mathlib.Core.Path.{subst, ◌≡◌, refl, ap}
use mathlib.Core.Logic.{◌⊎◌, inl, inr}
use mathlib.Core.Bool.{Bool, true, false}
use obscost.Prelude.Tests.{if◌then◌else◌}
use obscost.Prelude.Result.{Error, Result, ok, err, Action, pure, lift, in_context, ◌>>=◌}

pub Result-cases {ℓ} :
    {A : Type ℓ} (r : Result A) → ((a : A) × (r ≡ ok a)) ⊎ ((e : Error) × (r ≡ err e))
Result-cases (ok a) = inl (a, refl)
Result-cases (err e) = inr (e, refl)

module _ {S A : Type 0} where
  pub pure-eq-ok : (a b : A) (s t : S) → pure a s ≡ (ok b, t) → a ≡ b
  unfolding pure
  pure-eq-ok a b s t h = cc h

  pub pure-ends : (a b : A) (s t : S) → pure a s ≡ (ok b, t) → (a ≡ b) × (s ≡ t)
  unfolding pure
  pure-ends a b s t h = (cc h, cc h)

  pub lift-eq-ok : (r : Result A) (b : A) (s t : S) → lift r s ≡ (ok b, t) → r ≡ ok b
  unfolding lift
  lift-eq-ok r b s t h = cc h

  pub lift-ends : (r : Result A) (b : A) (s t : S) → lift r s ≡ (ok b, t) → (r ≡ ok b) × (s ≡ t)
  unfolding lift
  lift-ends r b s t h = (cc h, cc h)

module _ {S A B : Type 0} where
  -- The run of the first part of a call that succeeded, and of the rest.
  pub >>=-eq-ok :
      (m : Action S A) (k : A → Action S B) (s : S) {b : B} {t : S}
      → (m >>= k) s ≡ (ok b, t)
      → (a : A) × (u : S) × (m s ≡ (ok a, u)) × (k a u ≡ (ok b, t))
  unfolding ◌>>=◌
  >>=-eq-ok m k s h = elim (Result-cases (m s).0) [
    | inl (a, e) ↦ (a, (m s).1, ap (λ r. (r, (m s).1)) e, (rw (e, ◌>>=◌) at h))
    | inr (x, e) ↦ cc (rw (e, ◌>>=◌) at h)
  ]

  pub >>=-of-ok :
      (m : Action S A) (k : A → Action S B) (s : S) {a : A} {u : S}
      → m s ≡ (ok a, u)
      → (m >>= k) s ≡ k a u
  unfolding ◌>>=◌
  >>=-of-ok m k s h =
      ap
        (λ p.
          let (r, s') = p in
          elim r as (λ _. Result B × S) [ ok a' ↦ k a' s' | err e ↦ (err e, s') ])
        h

  -- What holds of the rest after each end of the first part holds of the whole.
  pub >>=-split :
      (P : Result B × S → Type 0) (m : Action S A) (k : A → Action S B) (s : S)
      → ((a : A) (u : S) → m s ≡ (ok a, u) → P (k a u))
      → ((x : Error) (u : S) → m s ≡ (err x, u) → P (err x, u))
      → P ((m >>= k) s)
  unfolding ◌>>=◌
  >>=-split P m k s good bad = elim (Result-cases (m s).0) [
    | inl (a, e) ↦ rw (e, ◌>>=◌) (good a (m s).1 (ap (λ r. (r, (m s).1)) e))
    | inr (x, e) ↦ rw (e, ◌>>=◌) (bad x (m s).1 (ap (λ r. (r, (m s).1)) e))
  ]

-- A fact about the state that a call leaves true, whether it succeeds or fails.
pub record Keeps {S A : Type 0} (P : S → Type 0) (m : Action S A) : Type 0 where
  pub after : (s : S) → P s → P (m s).1

module _ {S A B : Type 0} {P : S → Type 0} where
  -- Where the first part fails, the rest is not run.
  pub Keeps->>= :
      (m : Action S A) (k : A → Action S B)
      → Keeps P m
      → ((a : A) → Keeps P (k a))
      → Keeps P (m >>= k)
  Keeps->>= m k first rest = record {
    after = λ s h.
        >>=-split (λ p. P p.1) m k s
          (λ a u e. (rest a).after u (subst (λ p. P p.1) e (first.after s h)))
          (λ x u e. subst (λ p. P p.1) e (first.after s h));
  }

module _ {S A : Type 0} {P : S → Type 0} where
  pub Keeps-in_context : (c : String) (m : Action S A) → Keeps P m → Keeps P (in_context c m)
  unfolding in_context
  Keeps-in_context c m inner = record {
    after = λ s h. elim (Result-cases (m s).0) [
      | inl (a, e) ↦ rw (e, in_context) (inner.after s h)
      | inr (x, e) ↦ rw (e, in_context) (inner.after s h)
    ];
  }

  pub Keeps-if◌then◌else◌ :
      {m n : Action S A} (b : Bool) → Keeps P m → Keeps P n → Keeps P (if b then m else n)
  Keeps-if◌then◌else◌ true h k = h
  Keeps-if◌then◌else◌ false h k = k

  -- calls that do not change the state
  pub Keeps-lift : (r : Result A) → Keeps P (lift r)
  unfolding lift
  Keeps-lift r = record { after = λ s h. h }

  pub Keeps-pure : (a : A) → Keeps P (pure a)
  unfolding pure
  Keeps-pure a = record { after = λ s h. h }

pub ruleset keeps_rules = (Keeps->>=, Keeps-in_context, Keeps-if◌then◌else◌, Keeps-lift, Keeps-pure)
