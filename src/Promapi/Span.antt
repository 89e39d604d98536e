-- ===== src/Promapi/Span.antt =====
-- What a window's text means, read back by PromQL's grammar of a number and a unit.
use obscost.Prelude.{
  ℕ, ◌*◌, ◌/◌, ◌%◌, ◌<◌, ◌≤◌, String, false, Option, none, some, List, [], ◌∷◌, ◌≡◌, ◌⊎◌, refl, sym,
  ap, ◌∙◌, All, arith, if◌then◌else◌, ◌==◌, string_comparable, Bool-cases, inl, inr, ltb, nat_beq,
}
use obscost.Prelude.Text.Decimal.{read_number, read_number-show_nat}
use obscost.Prelude.Int.{ℤ, pos, negsuc, pos_part}
use obscost.Prelude.Result.{Error, ok, err}
use obscost.Promapi.{millisecond, TimeUnit, unit_of, duration_units, show_term, show_in, duration}

-- The units of PromQL's durations below a week, in nanoseconds.
abbrev pub size_of : String → Option ℕ
size_of s =
    if s == "ms"
    then some 1000000
    else if s == "s"
    then some (1000 * 1000000)
    else if s == "m"
    then some (60 * (1000 * 1000000))
    else if s == "h"
    then some (60 * (60 * (1000 * 1000000)))
    else if s == "d"
    then some (24 * (60 * (60 * (1000 * 1000000))))
    else none

-- A term of PromQL's durations in nanoseconds: a number and a unit.
abbrev pub times_size : ℕ → Option ℕ → Option ℕ
times_size n none = none
times_size n (some size) = some (n * size)

unfoldable pub read_span : String → Option ℕ
unfolding read_number
read_span s = let (n, rest) = read_number 0 s in times_size n (size_of rest)

-- A unit whose suffix is read back.
record IsUnit (u : TimeUnit) : Type 0 where
  suffix : (n : ℕ) → read_number n u.suffix ≡ (n, u.suffix)
  size : size_of u.suffix ≡ some u.size
  divides : (d : ℕ) → d % u.size ≡ 0 → d % millisecond ≡ 0

duration_units-IsUnit : All IsUnit duration_units
unfolding read_number
duration_units-IsUnit = (
  record { suffix = λ n. refl; size = refl; divides = λ d h. omega arith },
  (
    record { suffix = λ n. refl; size = refl; divides = λ d h. omega arith },
    (
      record { suffix = λ n. refl; size = refl; divides = λ d h. omega arith },
      (
        record { suffix = λ n. refl; size = refl; divides = λ d h. omega arith },
        (record { suffix = λ n. refl; size = refl; divides = λ d h. omega arith }, tt),
      ),
    ),
  ),
)

read_span-show_term :
    (d : ℕ) (u : TimeUnit) → IsUnit u → read_span (show_term d u) ≡ some (d / u.size * u.size)
unfolding read_span
read_span-show_term d u v =
    rw (read_number-show_nat (d / u.size) u.suffix, v.suffix (d / u.size), v.size) refl

divides_unit : (d k : ℕ) → d % k ≡ 0 → d / k * k ≡ d
divides_unit d k h = grind arith

-- the whole milliseconds of a window
abbrev pub in_milliseconds : ℕ → ℕ
in_milliseconds d = d / 1000000 * 1000000

show_in_lem :
    (d : ℕ) (us : List TimeUnit)
    → All IsUnit us
    → read_span (show_in d us) ≡ some (in_milliseconds d)
unfolding show_in read_number
show_in_lem d [] h =
    read_span-show_term d (unit_of "ms" millisecond)
      (record { suffix = λ n. refl; size = refl; divides = λ d' k. k })
show_in_lem d (u ∷ us) (v, h) = elim (Bool-cases (nat_beq (d % u.size) 0)) [
  | inl e ↦ rw e (
      read_span-show_term d u v
      ∙ ap some (
          divides_unit d u.size (ground (arith, e))
          ∙ sym (divides_unit d millisecond (v.divides d (ground (arith, e))))))
  | inr e ↦ rw e (show_in_lem d us h)
]

nonzero : (n : ℕ) → ltb n millisecond ≡ false → nat_beq n 0 ≡ false
nonzero n h = ground arith

-- A positive window of at least a millisecond is written as one term of PromQL, a number and one of the
-- units ms, s, m, h and d, which by PromQL's own sizes of them is the window in whole milliseconds; any
-- other window is an error.
pub duration_lem :
    (d : ℤ)
    → ((n : ℕ) × ((d ≡ pos n)
          × (1000000 ≤ n)
          × ((s : String) × ((duration d ≡ ok s) × (read_span s ≡ some (in_milliseconds n))))))
      ⊎ ((pos_part d < 1000000) × ((e : Error) × (duration d ≡ err e)))
unfolding duration
duration_lem (negsuc n) = inr (omega arith, (_, refl))
duration_lem (pos n) = elim (Bool-cases (ltb n millisecond)) [
  | inl e ↦ inr (
    ground (arith, e),
    elim (Bool-cases (nat_beq n 0)) [ inl z ↦ rw z (_, refl) | inr z ↦ rw (z, e) (_, refl) ],
  )
  | inr e ↦ inl (
    n,
    (
      refl,
      ground (arith, e),
      (
        show_in n duration_units,
        (rw (nonzero n e, e) refl, show_in_lem n duration_units duration_units-IsUnit),
      ),
    ),
  )
]
