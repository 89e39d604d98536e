-- ===== src/Prelude/Map/Nested.antt =====
-- Go's `map[string]map[string]V`.
use Prim.Native.String.{String}
use mathlib.Core.Path.{◌≡◌, refl, ap, ◌∙◌}
use mathlib.Core.Bool.{◌&&◌}
use mathlib.Core.Logic.{inl, inr}
use mathlib.Core.Option.{Option, none, some}
use mathlib.Core.List.{[]}
use obscost.Prelude.Tests.{◌==◌, if◌then◌else◌, string_comparable, Bool-cases}
use obscost.Prelude.Map.{Assoc, get, put, get-put}

-- `m[a][b]` of a map of maps, where a missing inner map reads as empty
abbrev pub nil_or {ℓ} : {V : Type ℓ} → Option (Assoc String V) → Assoc String V
nil_or none = []
nil_or (some n) = n

abbrev pub inner {ℓ} : {V : Type ℓ} → String → Assoc String (Assoc String V) → Assoc String V
inner a m = nil_or (get a m)

abbrev pub get_in {ℓ} : {V : Type ℓ} → String → String → Assoc String (Assoc String V) → Option V
get_in a b m = get b (inner a m)

-- `m[a][b] = v`, where a missing inner map is made first
abbrev pub put_in {ℓ} :
    {V : Type ℓ}
    → String
    → String
    → V
    → Assoc String (Assoc String V)
    → Assoc String (Assoc String V)
put_in a b v m = put a (put b v (inner a m)) m

pub inner-put {ℓ} :
    {V : Type ℓ} (a a' : String) (n : Assoc String V) (m : Assoc String (Assoc String V))
    → inner a (put a' n m) ≡ (if a == a' then n else inner a m)
inner-put a a' n m =
    ap nil_or (get-put a' a n m)
    ∙ elim (Bool-cases (a == a')) [ inl e ↦ rw e refl | inr e ↦ rw e refl ]

pub get_in-put_in {ℓ} :
    {V : Type ℓ} (a b a' b' : String) (v : V) (m : Assoc String (Assoc String V))
    → get_in a b (put_in a' b' v m) ≡ (if a == a' && b == b' then some v else get_in a b m)
get_in-put_in a b a' b' v m =
    ap (get b) (inner-put a a' (put b' v (inner a' m)) m) ∙ elim (Bool-cases (a == a')) [
      | inl e ↦ rw (e, get-put b' b v (inner a' m), (string_comparable.equal_iff a a').0 e) refl
      | inr e ↦ rw e refl
    ]
