-- ===== src/Tenancy/Resolver.antt =====
-- The first static source that knows a rule's namespace names its tenant.
use obscost.Prelude.{
  String, some, List, [], ◌∷◌, ◌++◌, ◌≡◌, ◌↔◌, ◌⊎◌, refl, sym, ap, ◌∙◌, ◌==◌, string_comparable,
  Bool-cases, Option-cases, inl, inr, All,
}
use obscost.Prelude.Map.{get}
use obscost.Tenancy.{Facts, DiscoverySource, resolve}

module _ (facts : Facts) where
  -- What a source says of the rule: only a static source says anything.
  abbrev pub Names : DiscoverySource → String → Type 0
  Names src tenant = (src.source ≡ "static") × (get facts.namespace src.tenants ≡ some tenant)

  abbrev pub IsSilent : DiscoverySource → Type 0
  IsSilent src = (tenant : String) → ¬ Names src tenant

  pub data Chooses (sources : List DiscoverySource) (tenant : String) : Type 0 where
    first :
        (before : List DiscoverySource) (src : DiscoverySource) (after : List DiscoverySource)
        → sources ≡ before ++ src ∷ after
        → All IsSilent before
        → Names src tenant
        → Chooses sources tenant

  Names-unique : (src : DiscoverySource) (s t : String) → Names src s → Names src t → s ≡ t
  Names-unique src s t (e, h) (e', h') = cc (h, h')

  resolve_step :
      (src : DiscoverySource) (sources : List DiscoverySource)
      → ((tenant : String) × (Names src tenant × (resolve (src ∷ sources) facts ≡ some tenant)))
        ⊎ (IsSilent src × (resolve (src ∷ sources) facts ≡ resolve sources facts))
  unfolding resolve
  resolve_step src sources = elim (Bool-cases (src.source == "static")) [
    | inl e ↦ elim (Option-cases (get facts.namespace src.tenants)) [
      | inl h ↦ rw (e, h) (inr ((λ t (k, k'). cc k'), refl))
      | inr (t, h) ↦
          rw (e, h) (inl (t, (((string_comparable.equal_iff src.source "static").0 e, refl), refl)))
    ]
    | inr e ↦
        rw e
          (inr ((λ t (k, h). cc (e, (string_comparable.equal_iff src.source "static").1 k)), refl))
  ]

  Chooses-later :
      (src : DiscoverySource) (sources : List DiscoverySource) (tenant : String)
      → IsSilent src
      → Chooses sources tenant
      → Chooses (src ∷ sources) tenant
  Chooses-later src sources tenant silent (first before chosen after e all names) =
      first (src ∷ before) chosen after (ap (λ xs. src ∷ xs) e) (silent, all) names

  resolve_sound :
      (sources : List DiscoverySource) (tenant : String)
      → resolve sources facts ≡ some tenant
      → Chooses sources tenant
  unfolding resolve
  resolve_sound [] tenant h = cc h
  resolve_sound (src ∷ sources) tenant h = elim (resolve_step src sources) [
    | inl (t, (names, e)) ↦ first [] src sources refl tt (cc (names.0), cc (names.1, e, h))
    | inr (silent, e) ↦
        Chooses-later src sources tenant silent (resolve_sound sources tenant (sym e ∙ h))
  ]

  resolve_skips :
      (before : List DiscoverySource) (src : DiscoverySource) (after : List DiscoverySource)
      (tenant : String)
      → All IsSilent before
      → Names src tenant
      → resolve (before ++ src ∷ after) facts ≡ some tenant
  resolve_skips [] src after tenant all names = elim (resolve_step src after) [
    | inl (t, (names', e)) ↦ e ∙ ap some (Names-unique src t tenant names' names)
    | inr (silent, e) ↦ absurd (silent tenant names)
  ]
  resolve_skips (b ∷ before) src after tenant (silent, all) names =
      elim (resolve_step b (before ++ src ∷ after)) [
        | inl (t, (names', e)) ↦ absurd (silent t names')
        | inr (silent', e) ↦ e ∙ resolve_skips before src after tenant all names
      ]

  resolve_complete :
      (sources : List DiscoverySource) (tenant : String)
      → Chooses sources tenant
      → resolve sources facts ≡ some tenant
  resolve_complete sources tenant (first before src after e all names) =
      ap (λ xs. resolve xs facts) e ∙ resolve_skips before src after tenant all names

  -- A rule resolves to a tenant exactly if some static source maps the rule's namespace to that tenant
  -- and no source before it is a static one that maps the namespace.
  resolve_lem :
      (sources : List DiscoverySource) (tenant : String)
      → (resolve sources facts ≡ some tenant) ↔ Chooses sources tenant
  resolve_lem sources tenant = (resolve_sound sources tenant, resolve_complete sources tenant)
