-- ===== src/Prelude/Names.antt =====
-- Go's `map[K]struct{}` as a list of names, each once.
use mathlib.Core.Path.{◌≡◌, refl}
use mathlib.Core.Bool.{false, ◌||◌}
use mathlib.Core.Logic.{inl, inr}
use mathlib.Core.List.{List, [], ◌∷◌, ◌++◌}
use native.Mathlib.Omega.{arith}
use obscost.Prelude.Tests.{Comparable, ◌==◌, if◌then◌else◌, Bool-cases}
use obscost.Prelude.Lists.{contains, contains-append, IsDistinct}

module _ {ℓ} {A : Type ℓ} ⦃e : Comparable A⦄ where
  unfoldable pub add_name : List A → A → List A
  add_name ns n = if contains n ns then ns else ns ++ n ∷ []

  unfoldable pub add_names : List A → List A → List A
  unfolding add_name
  add_names ns [] = ns
  add_names ns (m ∷ ms) = add_names (add_name ns m) ms

  pub contains-add_name :
      (t : A) (ns : List A) (n : A) → contains t (add_name ns n) ≡ (contains t ns || t == n)
  unfolding add_name contains
  contains-add_name t ns n = elim (Bool-cases (contains n ns)) [
    | inl h ↦ ground (arith, e.equal_iff t n)
    | inr h ↦ ground (arith, contains-append t ns (n ∷ []))
  ]

  pub contains-add_names :
      (t : A) (ns ms : List A) → contains t (add_names ns ms) ≡ (contains t ns || contains t ms)
  unfolding add_names contains
  contains-add_names t ns [] = ground arith
  contains-add_names t ns (m ∷ ms) =
      ground (arith, contains-add_names t (add_name ns m) ms, contains-add_name t ns m)

  IsDistinct-snoc :
      (ns : List A) (n : A) → contains n ns ≡ false → IsDistinct ns → IsDistinct (ns ++ n ∷ [])
  unfolding contains
  IsDistinct-snoc [] n h d = (refl, tt)
  IsDistinct-snoc (m ∷ ns) n h (fresh, d) = (
    ground (arith, contains-append m ns (n ∷ []), e.equal_iff m n, e.equal_iff n m),
    IsDistinct-snoc ns n (ground arith) d,
  )

  pub add_name-IsDistinct : (ns : List A) (n : A) → IsDistinct ns → IsDistinct (add_name ns n)
  unfolding add_name
  add_name-IsDistinct ns n d = elim (Bool-cases (contains n ns)) [
    | inl h ↦ rw h d
    | inr h ↦ rw h (IsDistinct-snoc ns n h d)
  ]

  pub add_names-IsDistinct : (ns ms : List A) → IsDistinct ns → IsDistinct (add_names ns ms)
  unfolding add_names
  add_names-IsDistinct ns [] d = d
  add_names-IsDistinct ns (m ∷ ms) d =
      add_names-IsDistinct (add_name ns m) ms (add_name-IsDistinct ns m d)
