-- ===== src/Tenancy/Tests.antt =====
-- The policies of the documentation, and a chain of two sources.
use obscost.Prelude.{some, List, [], ◌∷◌, ◌≡◌, ◌↔◌, refl}
use obscost.Prelude.Map.{get}
use obscost.Tenancy.{
  Facts, DiscoverySource, parse_unmapped_policy, parsed, refused, empty_tenant, policy, resolve,
}
use obscost.Tenancy.Policy.{Denotes, parse_unmapped_policy_lem}

parse_unmapped_policy_lem_example :
    (parse_unmapped_policy "tenant:ops" ≡ parsed (policy "tenant" "ops"))
    ↔ Denotes "tenant:ops" (policy "tenant" "ops")
parse_unmapped_policy_lem_example = parse_unmapped_policy_lem "tenant:ops" (policy "tenant" "ops")

no_name : parse_unmapped_policy "tenant:" ≡ refused (empty_tenant "tenant:")
unfolding parse_unmapped_policy
no_name = refl

abbrev chain : List DiscoverySource
chain =
    record { source = "namespace"; tenants = ("n", "x") ∷ [] }
    ∷ record { source = "static"; tenants = ("n", "a") ∷ [] }
    ∷ []

abbrev facts : Facts
facts = record { namespace = "n"; annotations = [] }

first_source : resolve chain facts ≡ some "a"
unfolding resolve get
first_source = refl
