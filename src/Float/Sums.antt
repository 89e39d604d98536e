-- ===== src/Float/Sums.antt =====
-- Sums of exact numbers: a `+=` loop in any order, and sums of quotients and products.
use obscost.Prelude.{Bool, List, [], ◌∷◌, ◌++◌, map, ◌≡◌, refl, sym, ap, ◌∙◌, Bool-cases, inl, inr}
use obscost.Prelude.Sort.{insert_by, sort_by}
use obscost.Float.{Float, nought, sum_from, total_of, IsExact}

module _ {F : Type 0} ⦃f : Float F⦄ (exact : IsExact F) where
  open exact use {zero-add, add_comm, add_assoc, add-mul, zero-mul, add-div, zero-div}

  pub add-zero : (a : F) → f.add a nought ≡ a
  add-zero a = add_comm a nought ∙ zero-add a

  pub sum_from-eq-add : (acc : F) (xs : List F) → sum_from acc xs ≡ f.add acc (total_of xs)
  unfolding sum_from
  sum_from-eq-add acc [] = sym (add-zero acc)
  sum_from-eq-add acc (x ∷ xs) =
      sum_from-eq-add (f.add acc x) xs
      ∙ add_assoc acc x (total_of xs)
      ∙ ap (f.add acc)
          (sym (sum_from-eq-add (f.add nought x) xs ∙ ap (λ y. f.add y (total_of xs)) (zero-add x)))

  pub total-cons : (x : F) (xs : List F) → total_of (x ∷ xs) ≡ f.add x (total_of xs)
  unfolding sum_from
  total-cons x xs =
      sum_from-eq-add (f.add nought x) xs ∙ ap (λ y. f.add y (total_of xs)) (zero-add x)

  pub add_left_comm : (a b c : F) → f.add a (f.add b c) ≡ f.add b (f.add a c)
  add_left_comm a b c = sym (add_assoc a b c) ∙ ap (λ x. f.add x c) (add_comm a b) ∙ add_assoc b a c

  module _ {ℓ} {A : Type ℓ} (g : A → F) where
    pub total-div :
        (c : F) (xs : List A)
        → total_of (map (λ a. f.div (g a) c) xs) ≡ f.div (total_of (map g xs)) c
    unfolding sum_from
    total-div c [] = sym (zero-div c)
    total-div c (x ∷ xs) =
        total-cons _ (map (λ a. f.div (g a) c) xs)
        ∙ ap (f.add (f.div (g x) c)) (total-div c xs)
        ∙ sym (add-div (g x) (total_of (map g xs)) c)
        ∙ ap (λ y. f.div y c) (sym (total-cons (g x) (map g xs)))

    pub total-mul :
        (c : F) (xs : List A)
        → total_of (map (λ a. f.mul (g a) c) xs) ≡ f.mul (total_of (map g xs)) c
    unfolding sum_from
    total-mul c [] = sym (zero-mul c)
    total-mul c (x ∷ xs) =
        total-cons _ (map (λ a. f.mul (g a) c) xs)
        ∙ ap (f.add (f.mul (g x) c)) (total-mul c xs)
        ∙ sym (add-mul (g x) (total_of (map g xs)) c)
        ∙ ap (λ y. f.mul y c) (sym (total-cons (g x) (map g xs)))

    pub total-append :
        (xs ys : List A)
        → total_of (map g (xs ++ ys)) ≡ f.add (total_of (map g xs)) (total_of (map g ys))
    unfolding sum_from
    total-append [] ys = sym (zero-add _)
    total-append (x ∷ xs) ys =
        total-cons (g x) (map g (xs ++ ys))
        ∙ ap (f.add (g x)) (total-append xs ys)
        ∙ sym (add_assoc (g x) _ _)
        ∙ ap (λ y. f.add y (total_of (map g ys))) (sym (total-cons (g x) (map g xs)))

    total-insert_by :
        (less : A → A → Bool) (x : A) (xs : List A)
        → total_of (map g (insert_by less x xs)) ≡ f.add (g x) (total_of (map g xs))
    unfolding insert_by
    total-insert_by less x [] = total-cons (g x) []
    total-insert_by less x (y ∷ ys) = elim (Bool-cases (less y x)) [
      | inl e ↦ rw e (
          total-cons (g y) _
          ∙ ap (f.add (g y)) (total-insert_by less x ys)
          ∙ add_left_comm (g y) (g x) _
          ∙ ap (f.add (g x)) (sym (total-cons (g y) (map g ys))))
      | inr e ↦ rw e (total-cons (g x) (map g (y ∷ ys)))
    ]

    -- Sorting does not change a sum.
    pub total-sort_by :
        (less : A → A → Bool) (xs : List A)
        → total_of (map g (sort_by less xs)) ≡ total_of (map g xs)
    unfolding sort_by
    total-sort_by less [] = refl
    total-sort_by less (x ∷ xs) =
        total-insert_by less x (sort_by less xs)
        ∙ ap (f.add (g x)) (total-sort_by less xs)
        ∙ sym (total-cons (g x) (map g xs))
