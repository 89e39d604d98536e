-- ===== src/Cost/Allocate/Unmeasured.antt =====
-- The expected tenants without a driver value.
use obscost.Prelude.{
  String, not, ◌&&◌, List, [], ◌∷◌, ◌≡◌, ◌∙◌, arith, is_some, contains, IsDistinct, str_lt,
  string_comparable,
}
use obscost.Prelude.Order.{str_lt-IsStrict}
use obscost.Prelude.Sort.{IsSorted, sort_by-IsSorted, contains-sort_by}
use obscost.Prelude.Map.{Assoc, keys, get, is_some-get}
use obscost.Float.{Float}
use obscost.Cost.{Inventory, Measurement}
use obscost.Cost.Allocate.{missing, unmeasured_of, allocate}
use obscost.Cost.Allocate.Parts.{allocate-unmeasured}

module _ {F : Type 0} ⦃f : Float F⦄ where
  contains-missing :
      (drivers : Assoc String F) (seen expected : List String) (t : String)
      → contains t (missing drivers seen expected)
        ≡ (contains t expected && not (is_some (get t drivers)) && not (contains t seen))
  unfolding missing contains
  contains-missing drivers seen [] t = ground arith
  contains-missing drivers seen (x ∷ xs) t =
      ground (arith, contains-missing drivers (x ∷ seen) xs t, string_comparable.equal_iff t x)

  missing-IsDistinct :
      (drivers : Assoc String F) (seen expected : List String)
      → IsDistinct (missing drivers seen expected)
  unfolding missing contains
  missing-IsDistinct drivers seen [] = tt
  missing-IsDistinct drivers seen (x ∷ xs) = ground (
    arith,
    missing-IsDistinct drivers (x ∷ seen) xs,
    contains-missing drivers (x ∷ seen) xs x,
    string_comparable.equal_iff x x,
  )

  -- The unmeasured tenants are those expected tenants that have no driver, and no others, in
  -- ascending order.
  unmeasured_lem :
      (m : Measurement F) (inv : Inventory F) (expected : List String)
      → let missing_tenants = (allocate m inv expected).unmeasured in
        ((t : String)
          → contains t missing_tenants ≡ (contains t expected && not (contains t (keys m.drivers))))
        × IsSorted str_lt missing_tenants
  unfolding unmeasured_of
  unmeasured_lem m inv expected = rw (allocate-unmeasured m inv expected) (
    λ t.
        contains-sort_by str_lt t (missing m.drivers [] expected)
        ∙ contains-missing m.drivers [] expected t
        ∙ (unfold contains in ground (arith, is_some-get t m.drivers)),
    sort_by-IsSorted str_lt str_lt-IsStrict (missing m.drivers [] expected),
  )
