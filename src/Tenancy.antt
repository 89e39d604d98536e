-- ===== src/Tenancy.antt =====
-- internal/tenancy: the policy for rules without a tenant (policy.go), and the chain of discovery
-- sources (resolver.go).
pub mod Policy
pub mod Resolver
mod Tests
use Prim.Native.Char.{code}
use Prim.Native.String
use obscost.Prelude.{
  String, Bool, true, false, ◌||◌, Option, none, some, List, [], ◌∷◌, if◌then◌else◌, ◌==◌,
  string_comparable, nat_beq,
}
use obscost.Prelude.Map.{Assoc, get}

-- `strings.HasPrefix` and `strings.TrimPrefix`: what follows a prefix
unfoldable pub strip_prefix : String → String → Option String
strip_prefix String.[] s = some s
strip_prefix (String.◌∷◌ c p) String.[] = none
strip_prefix (String.◌∷◌ c p) (String.◌∷◌ d s) =
    let rest = strip_prefix p s in if nat_beq (code c) (code d) then rest else none

pub record UnmappedPolicy : Type 0 where
  pub mode : String
  pub fallback_tenant : String

pub data PolicyError : Type 0 where
  empty_tenant : String → PolicyError
  unknown_policy : String → PolicyError

pub data PolicyResult : Type 0 where
  parsed : UnmappedPolicy → PolicyResult
  refused : PolicyError → PolicyResult

abbrev pub policy : String → String → UnmappedPolicy
policy mode fallback = record { mode = mode; fallback_tenant = fallback }

-- the last two cases of `ParseUnmappedPolicy`, on what follows "tenant:"
unfoldable pub parse_fallback : String → Option String → PolicyResult
parse_fallback raw none = refused (unknown_policy raw)
parse_fallback raw (some name) =
    if name == "" then refused (empty_tenant raw) else parsed (policy "tenant" name)

-- `ParseUnmappedPolicy`
unfoldable pub parse_unmapped_policy : String → PolicyResult
unfolding strip_prefix parse_fallback
parse_unmapped_policy raw =
    if raw == "" || raw == "error"
    then parsed (policy "error" "")
    else if raw == "skip"
    then parsed (policy "skip" "")
    else parse_fallback raw (strip_prefix "tenant:" raw)

-- What `Apply` returns: a tenant to keep the rule under, nothing, or `ErrUnmapped`.
pub data Outcome : Type 0 where
  keep : String → Outcome
  drop : Outcome
  unmapped : Outcome

-- `UnmappedPolicy.Apply`; `none` for a rule that did not resolve
unfoldable pub apply : UnmappedPolicy → Option String → Outcome
apply p (some tenant) = keep tenant
apply p none =
    if p.mode == "skip"
    then drop
    else if p.mode == "tenant"
    then keep p.fallback_tenant
    else unmapped

pub record Facts : Type 0 where
  pub namespace : String
  pub annotations : Assoc String String

-- `config.DiscoverySource`, as far as the resolver reads it
pub record DiscoverySource : Type 0 where
  pub source : String
  pub tenants : Assoc String String

-- `chainResolver.Resolve`
unfoldable pub resolve : List DiscoverySource → Facts → Option String
unfolding get
resolve [] facts = none
resolve (src ∷ sources) facts =
    let rest = resolve sources facts in
    if src.source == "static"
    then elim (get facts.namespace src.tenants) [ none ↦ rest | some tenant ↦ some tenant ]
    else rest
