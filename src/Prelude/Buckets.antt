-- ===== src/Prelude/Buckets.antt =====
-- A list gathered by the values of a key has the same elements, whatever the order of the keys.
use mathlib.Core.Path.{◌≡◌, refl, ap}
use mathlib.Core.Bool.{Bool, true, false}
use mathlib.Core.Logic.{inl, inr}
use mathlib.Core.List.{List, [], ◌∷◌, ◌++◌, Perm, perm_middle}
use mathlib.Core.List.Perm
use native.Mathlib.Omega.{arith}
use obscost.Prelude.Tests.{Comparable, ◌==◌, Bool-cases}
use obscost.Prelude.Lists.{All, contains, select, IsDistinct}
use obscost.Prelude.Counting.{with_key}

pub select-select {ℓ} :
    {A : Type ℓ} (p q : A → Bool) (xs : List A) → select p (select q xs) ≡ select q (select p xs)
unfolding select
select-select p q [] = refl
select-select p q (x ∷ xs) = ground (arith, select-select p q xs)

module _ {ℓ κ} {A : Type ℓ} {K : Type κ} ⦃e : Comparable K⦄ (key : A → K) where
  abbrev pub gather : List A → List K → List A
  gather as' [] = []
  gather as' (k ∷ ks) = with_key key k as' ++ gather as' ks

  gather-nothing : (ks : List K) → gather [] ks ≡ []
  unfolding select
  gather-nothing [] = refl
  gather-nothing (k ∷ ks) = gather-nothing ks

  gather-absent :
      (a : A) (as' : List A) (ks : List K)
      → contains (key a) ks ≡ false
      → gather (a ∷ as') ks ≡ gather as' ks
  unfolding select contains
  gather-absent a as' [] h = refl
  gather-absent a as' (k ∷ ks) h = elim (Bool-cases (key a == k)) [
    | inl h' ↦ ground arith
    | inr h' ↦ rw h' (ap (λ xs. with_key key k as' ++ xs) (gather-absent a as' ks (ground arith)))
  ]

  gather-present :
      (a : A) (as' : List A) (ks : List K)
      → IsDistinct ks
      → contains (key a) ks ≡ true
      → Perm (gather (a ∷ as') ks) (a ∷ gather as' ks)
  unfolding select contains
  gather-present a as' [] d h = cc h
  gather-present a as' (k ∷ ks) (fresh, d) h = elim (Bool-cases (key a == k)) [
    | inl h' ↦ rw (h', gather-absent a as' ks (ground (arith, e.equal_iff (key a) k))) Perm.rfl
    | inr h' ↦ rw h' (
        Perm.trans
          (Perm.append_left (with_key key k as') (gather-present a as' ks d (ground arith)))
          (perm_middle (with_key key k as') (gather as' ks)))
  ]

  pub gather-perm :
      (ks : List K)
      → IsDistinct ks
      → (as' : List A) → All (λ a. contains (key a) ks ≡ true) as'
      → Perm (gather as' ks) as'
  gather-perm ks d [] h = rw (gather-nothing ks) Perm.rfl
  gather-perm ks d (a ∷ as') (h, hs) =
      Perm.trans (gather-present a as' ks d h) (Perm.cons a (gather-perm ks d as' hs))
