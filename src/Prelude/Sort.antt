-- ===== src/Prelude/Sort.antt =====
-- `sort.Slice`, `sort.SliceStable` and `sort.Strings`: a stable insertion sort by a comparison.
-- Where the comparison is total on the elements, every correct sort returns the same slice.
use Prim.Native.Nat.{suc}
use mathlib.Core.Path.{◌≡◌, refl, ap, ◌∙◌}
use mathlib.Core.Bool.{Bool, false, ◌||◌}
use mathlib.Core.Logic.{inl, inr}
use mathlib.Core.List.{List, [], ◌∷◌, map, Perm, Permᴰ}
use mathlib.Core.List.Perm
use native.Mathlib.Omega.{arith}
use obscost.Prelude.Tests.{Comparable, ◌==◌, if◌then◌else◌, Bool-cases}
use obscost.Prelude.Lists.{length, All, contains, IsDistinct}
use obscost.Prelude.Order.{IsStrict, IsTotal}

module _ {ℓ} {A : Type ℓ} (less : A → A → Bool) where
  unfoldable pub insert_by : A → List A → List A
  insert_by x [] = x ∷ []
  insert_by x (y ∷ ys) = let rest = insert_by x ys in if less y x then y ∷ rest else x ∷ y ∷ ys

  unfoldable pub sort_by : List A → List A
  unfolding insert_by
  sort_by [] = []
  sort_by (x ∷ xs) = insert_by x (sort_by xs)

  -- Each element is not after those that follow it.
  abbrev pub IsSorted : List A → Type 0
  IsSorted [] = Unit
  IsSorted (x ∷ xs) = All (λ y. less y x ≡ false) xs × IsSorted xs

  insert_by-perm : (x : A) (xs : List A) → Perm (insert_by x xs) (x ∷ xs)
  unfolding insert_by
  insert_by-perm x [] = Perm.rfl
  insert_by-perm x (y ∷ ys) = elim (Bool-cases (less y x)) [
    | inl e ↦ rw e (Perm.trans (Perm.cons y (insert_by-perm x ys)) (Perm.swap x y ys))
    | inr e ↦ rw e Perm.rfl
  ]

  -- A sort loses and invents nothing.
  pub sort_by-perm : (xs : List A) → Perm (sort_by xs) xs
  unfolding sort_by
  sort_by-perm [] = Perm.rfl
  sort_by-perm (x ∷ xs) = Perm.trans (insert_by-perm x (sort_by xs)) (Perm.cons x (sort_by-perm xs))

  insert_by-All {κ} :
      (P : A → Type κ) (x : A) (xs : List A) → P x → All P xs → All P (insert_by x xs)
  unfolding insert_by
  insert_by-All P x [] p ps = (p, tt)
  insert_by-All P x (y ∷ ys) p (q, qs) = elim (Bool-cases (less y x)) [
    | inl e ↦ rw e (q, insert_by-All P x ys p qs)
    | inr e ↦ rw e (p, (q, qs))
  ]

  pub sort_by-All {κ} : (P : A → Type κ) (xs : List A) → All P xs → All P (sort_by xs)
  unfolding sort_by
  sort_by-All P [] ps = tt
  sort_by-All P (x ∷ xs) (p, ps) = insert_by-All P x (sort_by xs) p (sort_by-All P xs ps)

  length-insert_by : (x : A) (xs : List A) → length (insert_by x xs) ≡ length (x ∷ xs)
  unfolding insert_by
  length-insert_by x [] = refl
  length-insert_by x (y ∷ ys) = ground (arith, length-insert_by x ys)

  pub length-sort_by : (xs : List A) → length (sort_by xs) ≡ length xs
  unfolding sort_by
  length-sort_by [] = refl
  length-sort_by (x ∷ xs) = length-insert_by x (sort_by xs) ∙ ap suc (length-sort_by xs)

  module _ (strict : IsStrict less) where
    All-below :
        (x y : A) (ys : List A)
        → less y x ≡ false
        → All (λ z. less z y ≡ false) ys
        → All (λ z. less z x ≡ false) ys
    All-below x y [] h ps = tt
    All-below x y (z ∷ zs) h (p, ps) = (strict.le_trans x y z h p, All-below x y zs h ps)

    insert_by-IsSorted : (x : A) (xs : List A) → IsSorted xs → IsSorted (insert_by x xs)
    unfolding insert_by
    insert_by-IsSorted x [] s = (tt, tt)
    insert_by-IsSorted x (y ∷ ys) (below, s) = elim (Bool-cases (less y x)) [
      | inl e ↦ rw e (
        insert_by-All (λ z. less z y ≡ false) x ys (strict.asym y x e) below,
        insert_by-IsSorted x ys s,
      )
      | inr e ↦ rw e ((e, All-below x y ys e below), (below, s))
    ]

    pub sort_by-IsSorted : (xs : List A) → IsSorted (sort_by xs)
    unfolding sort_by
    sort_by-IsSorted [] = tt
    sort_by-IsSorted (x ∷ xs) = insert_by-IsSorted x (sort_by xs) (sort_by-IsSorted xs)

    module _ (total : IsTotal less) where
      insert_by_comm :
          (x y : A) (xs : List A) → insert_by x (insert_by y xs) ≡ insert_by y (insert_by x xs)
      unfolding insert_by
      insert_by_comm x y [] = ground (arith, total x y, strict.asym x y, strict.asym y x)
      insert_by_comm x y (z ∷ zs) = ground (
        arith,
        insert_by_comm x y zs,
        total x y,
        strict.asym x y,
        strict.asym y x,
        strict.le_trans x y z,
        strict.le_trans y x z,
      )

      -- Under a total order the result does not depend on the order of the input.
      pub sort_by_unique : {xs ys : List A} → Permᴰ xs ys → sort_by xs ≡ sort_by ys
      unfolding sort_by
      sort_by_unique Permᴰ.nil = refl
      sort_by_unique (Permᴰ.cons {a = a} {b = b} {l₁ = xs} {l₂ = ys} e p) = cc (e, sort_by_unique p)
      sort_by_unique (Permᴰ.swap {a = a} {b = b} {a' = a'} {b' = b'} {l = l} e f) =
          cc (insert_by_comm a b (sort_by l), e, f)
      sort_by_unique (Permᴰ.trans p q) = sort_by_unique p ∙ sort_by_unique q

module _ {ℓ} {A : Type ℓ} ⦃e : Comparable A⦄ (less : A → A → Bool) where
  contains-insert_by :
      (a x : A) (xs : List A) → contains a (insert_by less x xs) ≡ (a == x || contains a xs)
  unfolding insert_by contains
  contains-insert_by a x [] = refl
  contains-insert_by a x (y ∷ ys) = ground (arith, contains-insert_by a x ys)

  pub contains-sort_by : (a : A) (xs : List A) → contains a (sort_by less xs) ≡ contains a xs
  unfolding sort_by contains
  contains-sort_by a [] = refl
  contains-sort_by a (x ∷ xs) = rw contains-insert_by (rw (contains-sort_by a xs))

module _ {ℓ κ} {A : Type ℓ} {B : Type κ} (f : A → B) (less : B → B → Bool) where
  map-insert_by :
      (x : A) (xs : List A)
      → map f (insert_by (λ a b. less (f a) (f b)) x xs) ≡ insert_by less (f x) (map f xs)
  unfolding insert_by
  map-insert_by x [] = refl
  map-insert_by x (y ∷ ys) = ground (arith, map-insert_by x ys)

  -- Sorting images is sorting by the image.
  pub map-sort_by :
      (xs : List A) → map f (sort_by (λ a b. less (f a) (f b)) xs) ≡ sort_by less (map f xs)
  unfolding sort_by
  map-sort_by [] = refl
  map-sort_by (x ∷ xs) =
      map-insert_by x (sort_by (λ a b. less (f a) (f b)) xs) ∙ rw (map-sort_by xs)

module _ {ℓ κ} {A : Type ℓ} {B : Type κ} (g : A → B) (less : A → A → Bool) (less' : B → B → Bool)
    (same : (a b : A) → less' (g a) (g b) ≡ less a b) where
  All-map :
      (x : A) (xs : List A)
      → All (λ y. less y x ≡ false) xs
      → All (λ z. less' z (g x) ≡ false) (map g xs)
  All-map x [] h = tt
  All-map x (y ∷ ys) (p, ps) = (same y x ∙ p, All-map x ys ps)

  -- A map that keeps the comparison keeps the order.
  pub IsSorted-map : (xs : List A) → IsSorted less xs → IsSorted less' (map g xs)
  IsSorted-map [] s = tt
  IsSorted-map (x ∷ xs) (b, s) = (All-map x xs b, IsSorted-map xs s)

-- Sorting changes neither which keys stand in a list nor that each stands once.
module _ {ℓ κ} {A : Type ℓ} {K : Type κ} ⦃e : Comparable K⦄ (key : A → K)
    (less : A → A → Bool) where
  contains-keys-insert_by :
      (k : K) (x : A) (xs : List A)
      → contains k (map key (insert_by less x xs)) ≡ (k == key x || contains k (map key xs))
  unfolding insert_by contains
  contains-keys-insert_by k x [] = refl
  contains-keys-insert_by k x (y ∷ ys) = ground (arith, contains-keys-insert_by k x ys)

  pub contains-keys-sort_by :
      (k : K) (xs : List A) → contains k (map key (sort_by less xs)) ≡ contains k (map key xs)
  unfolding sort_by contains
  contains-keys-sort_by k [] = refl
  contains-keys-sort_by k (x ∷ xs) = rw contains-keys-insert_by (rw (contains-keys-sort_by k xs))

  IsDistinct-insert_by :
      (x : A) (xs : List A)
      → contains (key x) (map key xs) ≡ false
      → IsDistinct (map key xs)
      → IsDistinct (map key (insert_by less x xs))
  unfolding insert_by contains
  IsDistinct-insert_by x [] h d = (refl, tt)
  IsDistinct-insert_by x (y ∷ ys) h (fresh, d) = elim (Bool-cases (less y x)) [
    | inl l ↦ rw l (
      ground (
        arith,
        contains-keys-insert_by (key y) x ys,
        e.equal_iff (key y) (key x),
        e.equal_iff (key x) (key y),
      ),
      IsDistinct-insert_by x ys (ground arith) d,
    )
    | inr l ↦ rw l (h, (fresh, d))
  ]

  pub IsDistinct-sort_by :
      (xs : List A) → IsDistinct (map key xs) → IsDistinct (map key (sort_by less xs))
  unfolding sort_by
  IsDistinct-sort_by [] d = tt
  IsDistinct-sort_by (x ∷ xs) (fresh, d) =
      IsDistinct-insert_by x (sort_by less xs) (contains-keys-sort_by (key x) xs ∙ fresh)
        (IsDistinct-sort_by xs d)
