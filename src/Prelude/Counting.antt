-- ===== src/Prelude/Counting.antt =====
-- Sums of natural numbers over lists, and counting a list by the values of a key.
use Prim.Native.Nat.{ℕ, ◌+◌}
use mathlib.Core.Path.{◌≡◌, refl, ap, ◌∙◌}
use mathlib.Core.Bool.{Bool, true, false}
use mathlib.Core.List.{List, [], ◌∷◌, ◌++◌, map}
use native.Mathlib.Omega.{arith}
use obscost.Prelude.Tests.{Comparable, ◌==◌}
use obscost.Prelude.Lists.{length, All, contains, select, IsDistinct}
use obscost.Prelude.Sort.{insert_by, sort_by}

abbrev pub sum : List ℕ → ℕ
sum [] = 0
sum (n ∷ ns) = n + sum ns

pub sum-append : (ms ns : List ℕ) → sum (ms ++ ns) ≡ sum ms + sum ns
sum-append [] ns = omega arith
sum-append (m ∷ ms) ns = omega (arith, sum-append ms ns)

module _ {ℓ} {A : Type ℓ} (n : A → ℕ) (less : A → A → Bool) where
  sum-insert_by : (x : A) (xs : List A) → sum (map n (insert_by less x xs)) ≡ n x + sum (map n xs)
  unfolding insert_by
  sum-insert_by x [] = refl
  sum-insert_by x (y ∷ ys) = ground (arith, sum-insert_by x ys)

  pub sum-sort_by : (xs : List A) → sum (map n (sort_by less xs)) ≡ sum (map n xs)
  unfolding sort_by
  sum-sort_by [] = refl
  sum-sort_by (x ∷ xs) = sum-insert_by x (sort_by less xs) ∙ ap (λ s. n x + s) (sum-sort_by xs)

module _ {ℓ κ} {A : Type ℓ} {K : Type κ} ⦃e : Comparable K⦄ (key : A → K) where
  -- The elements with a key.
  abbrev pub with_key : K → List A → List A
  with_key k = select (λ a. key a == k)

  sum-nothing : (ks : List K) → sum (map (λ k. length (with_key k [])) ks) ≡ 0
  unfolding select
  sum-nothing [] = refl
  sum-nothing (k ∷ ks) = omega (arith, sum-nothing ks)

  -- An element with a key that is not in the list counts nowhere.
  sum-absent :
      (a : A) (as' : List A) (ks : List K)
      → contains (key a) ks ≡ false
      → sum (map (λ k. length (with_key k (a ∷ as'))) ks)
        ≡ sum (map (λ k. length (with_key k as')) ks)
  unfolding select contains
  sum-absent a as' [] h = refl
  sum-absent a as' (k ∷ ks) h = ground (arith, sum-absent a as' ks)

  sum-present :
      (a : A) (as' : List A) (ks : List K)
      → IsDistinct ks
      → contains (key a) ks ≡ true
      → sum (map (λ k. length (with_key k (a ∷ as'))) ks)
        ≡ 1 + sum (map (λ k. length (with_key k as')) ks)
  unfolding select contains
  sum-present a as' [] d h = cc h
  sum-present a as' (k ∷ ks) (fresh, d) h =
      ground (arith, sum-present a as' ks d, sum-absent a as' ks, e.equal_iff (key a) k)

  -- Counted by distinct keys that cover them, the elements are all counted, once each.
  pub sum-with_key :
      (ks : List K)
      → IsDistinct ks
      → (as' : List A) → All (λ a. contains (key a) ks ≡ true) as'
      → sum (map (λ k. length (with_key k as')) ks) ≡ length as'
  sum-with_key ks d [] h = sum-nothing ks
  sum-with_key ks d (a ∷ as') (h, hs) =
      omega (arith, sum-present a as' ks d h, sum-with_key ks d as' hs)
