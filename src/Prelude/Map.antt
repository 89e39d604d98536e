-- ===== src/Prelude/Map.antt =====
-- Go's `map[K]V` as an association list, a key at most once. The order of the list stands for the
-- order of a `range`, which Go leaves open.
pub mod Nested
use mathlib.Core.Path.{◌≡◌, refl, ap}
use mathlib.Core.Bool.{true}
use mathlib.Core.Option.{Option, none, some}
use mathlib.Core.List.{List, [], ◌∷◌}
use native.Mathlib.Omega.{arith}
use obscost.Prelude.Tests.{Comparable, ◌==◌, if◌then◌else◌, is_some}
use obscost.Prelude.Lists.{contains, IsDistinct, All, All-imp}

abbrev pub Assoc {ℓ κ} : Type ℓ → Type κ → Type (ℓ ⊔ κ)
Assoc K V = List (K × V)

abbrev pub keys {ℓ κ} : {K : Type ℓ} {V : Type κ} → Assoc K V → List K
keys [] = []
keys ((k, v) ∷ m) = k ∷ keys m

module _ {ℓ κ} {K : Type ℓ} {V : Type κ} ⦃e : Comparable K⦄ where
  -- `v, ok := m[k]`
  unfoldable pub get : K → Assoc K V → Option V
  get k [] = none
  get k ((j, v) ∷ m) = if k == j then some v else get k m

  -- `m[k] = v`
  unfoldable pub put : K → V → Assoc K V → Assoc K V
  put k v [] = (k, v) ∷ []
  put k v ((j, w) ∷ m) = let rest = put k v m in if k == j then (k, v) ∷ m else (j, w) ∷ rest

  pub get-put :
      (k j : K) (v : V) (m : Assoc K V) → get j (put k v m) ≡ (if j == k then some v else get j m)
  unfolding get put
  get-put k j v [] = refl
  get-put k j v ((i, w) ∷ m) =
      ground (arith, get-put k j v m, e.equal_iff k i, e.equal_iff j i, e.equal_iff j k)

  pub is_some-get : (k : K) (m : Assoc K V) → is_some (get k m) ≡ contains k (keys m)
  unfolding get contains
  is_some-get k [] = refl
  is_some-get k ((j, v) ∷ m) = ground (arith, is_some-get k m)

  pub contains-keys-put :
      (k j : K) (v : V) (m : Assoc K V)
      → contains j (keys (put k v m)) ≡ (if j == k then true else contains j (keys m))
  unfolding contains put
  contains-keys-put k j v [] = ground arith
  contains-keys-put k j v ((i, w) ∷ m) =
      ground (arith, contains-keys-put k j v m, e.equal_iff k i, e.equal_iff j i, e.equal_iff j k)

  pub put-IsDistinct :
      (k : K) (v : V) (m : Assoc K V) → IsDistinct (keys m) → IsDistinct (keys (put k v m))
  unfolding contains put
  put-IsDistinct k v [] d = ground arith
  put-IsDistinct k v ((j, w) ∷ m) (fresh, d) =
      ground
        (arith, put-IsDistinct k v m d, contains-keys-put k j v m, e.equal_iff k j, e.equal_iff j k)

  -- Each entry of a map is what its key finds.
  pub entries-get :
      (m : Assoc K V) → IsDistinct (keys m) → All (λ entry. get entry.0 m ≡ some entry.1) m
  unfolding get
  entries-get [] d = tt
  entries-get ((k, v) ∷ m) (fresh, d) = (
    ground (arith, e.equal_iff k k),
    All-imp
        (λ entry h. ground (arith, h, ap is_some h, is_some-get entry.0 m, e.equal_iff entry.0 k)) m
        (entries-get m d),
  )
