-- ===== src/Attribution/Observations/Observed.antt =====
-- The rows of a report on observations, and what was observed.
use mathlib.Core.List.{map-map, Perm}
use obscost.Prelude.{
  String, Bool, true, false, not, ◌&&◌, ◌||◌, List, [], ◌∷◌, ◌++◌, map, ◌≡◌, refl, ap, ◌∙◌, arith,
  string_comparable, Bool-cases, inl, inr, contains, contains-append, All, IsDistinct,
}
use obscost.Prelude.Int.{ℤ, pos}
use obscost.Prelude.Sort.{sort_by-perm, sort_by-All, contains-keys-sort_by, IsDistinct-sort_by}
use obscost.Prelude.Map.{Assoc, keys, get}
use obscost.Prelude.Counting.{with_key}
use obscost.Float.{Float, nought}
use obscost.Attribution.{TenantAggregate}
use obscost.Attribution.Groups.{group_less}
use obscost.Attribution.Accumulate.{get_list, by_key}
use obscost.Attribution.Aggregate.{tenant_less}
use obscost.Attribution.Aggregate.Buckets.{get_list-by_key, keys-by_key, by_key-IsDistinct}
use obscost.Attribution.Observations.{
  TenantObservation, GroupObservation, unmeasured_tenant, add_unseen, group_total, group_row,
  group_rows, observed_row, aggregate_by_tenant, aggregate_observations, any_duration,
  total_executions, rank_total,
}

IsDistinct-snoc :
    (ns : List String) (n : String)
    → IsDistinct ns
    → contains n ns ≡ false
    → IsDistinct (ns ++ n ∷ [])
unfolding contains
IsDistinct-snoc [] n d h = (refl, tt)
IsDistinct-snoc (m ∷ ns) n (fresh, d) h = (
  ground (
    arith,
    contains-append m ns (n ∷ []),
    string_comparable.equal_iff m n,
    string_comparable.equal_iff n m,
  ),
  IsDistinct-snoc ns n d (ground arith),
)

or_new : (a b : Bool) → (a || ((false || b) && not a)) ≡ (a || b)
or_new true b = refl
or_new false true = refl
or_new false false = refl

module _ {F : Type 0} ⦃f : Float F⦄ where
  abbrev pub tenants_of : List (TenantObservation F) → List String
  tenants_of obs = map (λ t. t.tenant) obs

  tenants-append :
      (obs : List (TenantObservation F)) (t : TenantObservation F)
      → tenants_of (obs ++ t ∷ []) ≡ tenants_of obs ++ t.tenant ∷ []
  tenants-append [] t = refl
  tenants-append (o ∷ obs) t = ap (λ ns. o.tenant ∷ ns) (tenants-append obs t)

  contains-add_unseen :
      (t : String) (seen : List String) (obs : List (TenantObservation F)) (ts : List String)
      → contains t (tenants_of (add_unseen seen obs ts))
        ≡ (contains t (tenants_of obs) || (contains t ts && not (contains t seen)))
  unfolding add_unseen contains
  contains-add_unseen t seen obs [] = ground arith
  contains-add_unseen t seen obs (k ∷ ts) = elim (Bool-cases (contains k seen)) [
    | inl e ↦
        rw e (ground (arith, contains-add_unseen t seen obs ts, string_comparable.equal_iff t k))
    | inr e ↦ rw e (
        contains-add_unseen t seen (obs ++ unmeasured_tenant k ∷ []) ts
        ∙ ap (λ ns. contains t ns || (contains t ts && not (contains t seen)))
            (tenants-append obs (unmeasured_tenant k))
        ∙ ground
            (arith, contains-append t (tenants_of obs) (k ∷ []), string_comparable.equal_iff t k))
  ]

  -- What is seen stays among the rows, and each key is new to them.
  IsDistinct-add_unseen :
      (seen : List String) (obs : List (TenantObservation F)) (ts : List String)
      → IsDistinct ts
      → IsDistinct (tenants_of obs)
      → ((t : String) → contains t ts ≡ true → contains t (tenants_of obs) ≡ contains t seen)
      → IsDistinct (tenants_of (add_unseen seen obs ts))
  unfolding add_unseen contains
  IsDistinct-add_unseen seen obs [] d e h = e
  IsDistinct-add_unseen seen obs (k ∷ ts) (fresh, d) e h = elim (Bool-cases (contains k seen)) [
    | inl s ↦ rw s (IsDistinct-add_unseen seen obs ts d e (λ t c. h t (ground arith)))
    | inr s ↦ rw s (
        IsDistinct-add_unseen seen (obs ++ unmeasured_tenant k ∷ []) ts d
          (rw (tenants-append obs (unmeasured_tenant k)) (
            IsDistinct-snoc (tenants_of obs) k e
              (h k (ground (arith, string_comparable.equal_iff k k)) ∙ s)))
          (λ t c.
            ap (contains t) (tenants-append obs (unmeasured_tenant k))
            ∙ ground (
              arith,
              contains-append t (tenants_of obs) (k ∷ []),
              h t,
              string_comparable.equal_iff t k,
            )))
  ]

module _ {F : Type 0} ⦃f : Float F⦄ (round : F → ℤ) where
  -- The groups that name a tenant.
  abbrev pub groups_of : String → List (GroupObservation F) → List (GroupObservation F)
  groups_of = with_key (λ g. g.tenant)

  -- A row has the groups that name its tenant, each with its share of them.
  abbrev pub HasGroups : List (GroupObservation F) → TenantAggregate F → Type 0
  HasGroups group_obs row =
      let gs = groups_of row.tenant group_obs in
      Perm row.groups (map (group_row round (group_total nought gs)) gs)

  abbrev by : List (GroupObservation F) → Assoc String (List (GroupObservation F))
  by group_obs = by_key (λ g. g.tenant) [] group_obs

  abbrev all_obs :
      List (TenantObservation F) → List (GroupObservation F) → List (TenantObservation F)
  all_obs tenant_obs group_obs = add_unseen (tenants_of tenant_obs) tenant_obs (keys (by group_obs))

  tenant-observed_row :
      (b : Bool) (n : ℤ) (s : F) (t : TenantObservation F) (gs : List (GroupObservation F))
      → (observed_row round b n s t gs).tenant ≡ t.tenant
  unfolding observed_row
  tenant-observed_row b n s t gs = refl

  HasGroups-observed_row :
      (b : Bool) (n : ℤ) (s : F) (t : TenantObservation F) (group_obs : List (GroupObservation F))
      → HasGroups group_obs (observed_row round b n s t (get_list t.tenant (by group_obs)))
  unfolding observed_row group_rows get
  HasGroups-observed_row b n s t group_obs =
      rw (get_list-by_key (λ g. g.tenant) t.tenant [] group_obs) (
        sort_by-perm group_less (
          map (group_row round (group_total nought (groups_of t.tenant group_obs)))
            (groups_of t.tenant group_obs)))

  HasGroups-rows :
      (b : Bool) (n : ℤ) (s : F) (group_obs : List (GroupObservation F))
      (obs : List (TenantObservation F))
      → All
          (HasGroups group_obs)
          (map (λ t. observed_row round b n s t (get_list t.tenant (by group_obs))) obs)
  HasGroups-rows b n s group_obs [] = tt
  HasGroups-rows b n s group_obs (t ∷ obs) =
      (HasGroups-observed_row b n s t group_obs, HasGroups-rows b n s group_obs obs)

  rows_of : List (TenantObservation F) → List (GroupObservation F) → List (TenantAggregate F)
  unfolding aggregate_observations aggregate_by_tenant
  rows_of tenant_obs group_obs =
      let obs = all_obs tenant_obs group_obs in
      map
        (λ t.
          observed_row round (any_duration obs) (total_executions round (pos 0) obs)
            (rank_total (any_duration obs) nought obs) t (get_list t.tenant (by group_obs)))
        obs

  tenants-rows_of :
      (tenant_obs : List (TenantObservation F)) (group_obs : List (GroupObservation F))
      → map (λ r. r.tenant) (rows_of tenant_obs group_obs)
        ≡ tenants_of (all_obs tenant_obs group_obs)
  unfolding rows_of observed_row
  tenants-rows_of tenant_obs group_obs = map-map _ _ (all_obs tenant_obs group_obs)

  -- If no tenant is measured twice, the report has exactly one row for each tenant that is measured or
  -- that a group names, and no other row; and the groups of a row are those that name its tenant, each as
  -- often as it was observed, with its evaluations and its share of their sum.
  pub aggregate_observations_lem :
      (tenant_obs : List (TenantObservation F)) (group_obs : List (GroupObservation F)) (t : String)
      → IsDistinct (tenants_of tenant_obs)
      → let rows = (aggregate_observations round tenant_obs group_obs).tenants in
        (contains t (map (λ r. r.tenant) rows)
          ≡ (contains t (tenants_of tenant_obs) || contains t (map (λ g. g.tenant) group_obs)))
        × IsDistinct (map (λ r. r.tenant) rows)
        × All (HasGroups group_obs) rows
  unfolding aggregate_observations aggregate_by_tenant rows_of
  aggregate_observations_lem tenant_obs group_obs t d =
      let seen = tenants_of tenant_obs in
      let ks = keys (by group_obs) in
      (
        contains-keys-sort_by (λ r. r.tenant) tenant_less t (rows_of tenant_obs group_obs)
            ∙ ap (contains t) (tenants-rows_of tenant_obs group_obs)
            ∙ contains-add_unseen t seen tenant_obs ks
            ∙ ap (λ b. contains t seen || (b && not (contains t seen)))
                (keys-by_key (λ g. g.tenant) t [] group_obs)
            ∙ or_new (contains t seen) (contains t (map (λ g. g.tenant) group_obs)),
        IsDistinct-sort_by (λ r. r.tenant) tenant_less (rows_of tenant_obs group_obs)
            (rw (tenants-rows_of tenant_obs group_obs) (
              IsDistinct-add_unseen seen tenant_obs ks
                (by_key-IsDistinct (λ g. g.tenant) [] group_obs tt) d (λ n c. refl))),
        sort_by-All tenant_less (HasGroups group_obs) (rows_of tenant_obs group_obs)
            (HasGroups-rows _ _ _ group_obs (all_obs tenant_obs group_obs)),
      )
