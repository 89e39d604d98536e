-- ===== src/RuleOutput/Count/Chunk.antt =====
-- `countChunk`, for one name at a time.
use obscost.Prelude.{
  String, Bool, true, false, ◌||◌, Option, none, some, List, [], ◌∷◌, ◌≡◌, refl, sym, ap, ◌∙◌,
  arith, if◌then◌else◌, ◌==◌, string_comparable, equal_comm, ◌&&◌, Bool-cases, inl, inr, contains,
}
use mathlib.Core.Path.{ap₂}
use obscost.Prelude.Int.{ℤ, pos, ◌+ℤ◌, wrap_int}
use obscost.Prelude.Map.{Assoc, get, put, get-put}
use obscost.Prelude.Result.{Error, ok, err}
use obscost.Float.{Float, nought}
use obscost.Promapi.{Sample, label_value}
use obscost.Attribution.{value_or}
use obscost.RuleOutput.Join.{MetricCount}
use obscost.RuleOutput.Count.{
  Tally, measured, failed, bad_value, tally_value, tally_named, tally, series_found, put_counts,
  count_chunk,
}

or_shuffle : (a b c : Bool) → (a || (b || c)) ≡ ((b || a) || c)
or_shuffle true true c = refl
or_shuffle true false c = refl
or_shuffle false true c = refl
or_shuffle false false c = refl

or_false : (b : Bool) → (b || false) ≡ b
or_false true = refl
or_false false = refl

-- A name that was not asked for is another.
other_name :
    (name n : String) (names : List String)
    → contains name names ≡ false
    → contains n names ≡ true
    → (name == n) ≡ false
other_name name n names e asked = elim (Bool-cases (name == n)) [
  | inl k ↦ cc (e, asked, (string_comparable.equal_iff name n).0 k)
  | inr k ↦ k
]

module _ {F : Type 0} ⦃f : Float F⦄ (round : F → ℤ) where
  abbrev pub is_bad : Option F → Bool
  is_bad none = true
  is_bad (some v) = f.lt v nought

  abbrev pub add_rounded : ℤ → Option F → ℤ
  add_rounded n none = n
  add_rounded n (some v) = if f.lt v nought then n else wrap_int (n +ℤ round v)

  -- Whether a name has a sample that cannot be counted.
  unfoldable pub any_bad : String → List (Sample F) → Bool
  any_bad n [] = false
  any_bad n (s ∷ samples) = (label_value "__name__" s == n && is_bad s.value) || any_bad n samples

  -- The sum of a name's rounded samples in 64 bits.
  unfoldable pub rounded_sum : String → ℤ → List (Sample F) → ℤ
  unfolding wrap_int
  rounded_sum n acc [] = acc
  rounded_sum n acc (s ∷ samples) =
      rounded_sum n (if label_value "__name__" s == n then add_rounded acc s.value else acc) samples

  bad-tally_value :
      (n name : String) (o : Option F) (t : Tally)
      → contains n (tally_value round name o t).bad ≡ ((name == n && is_bad o) || contains n t.bad)
  unfolding contains
  bad-tally_value n name none t =
      ground (arith, string_comparable.equal_iff n name, string_comparable.equal_iff name n)
  bad-tally_value n name (some v) t = elim (Bool-cases (f.lt v nought)) [
    | inl e ↦
        rw e
          (ground (arith, string_comparable.equal_iff n name, string_comparable.equal_iff name n))
    | inr e ↦ rw e (ground arith)
  ]

  if_same : (b : Bool) (n : ℤ) → n ≡ (if b then n else n)
  if_same true n = refl
  if_same false n = refl

  found-tally_value :
      (n name : String) (o : Option F) (t : Tally)
      → value_or (get n (tally_value round name o t).found) (pos 0) ≡ (
          if name == n
          then add_rounded (value_or (get n t.found) (pos 0)) o
          else value_or (get n t.found) (pos 0))
  found-tally_value n name none t = if_same (name == n) (value_or (get n t.found) (pos 0))
  found-tally_value n name (some v) t = elim (Bool-cases (f.lt v nought)) [
    | inl e ↦ rw e (if_same (name == n) (value_or (get n t.found) (pos 0)))
    | inr e ↦ elim (Bool-cases (name == n)) [
      | inl k ↦
          let same = (string_comparable.equal_iff name n).0 k in
          rw
            (
              e,
              get-put name n (wrap_int (value_or (get name t.found) (pos 0) +ℤ round v)) t.found,
              k,
              equal_comm n name,
              k,
            )
            (ap (λ m. wrap_int (value_or (get m t.found) (pos 0) +ℤ round v)) same)
      | inr k ↦
          rw
            (
              e,
              get-put name n (wrap_int (value_or (get name t.found) (pos 0) +ℤ round v)) t.found,
              equal_comm n name,
              k,
            )
            refl
    ]
  ]

  tally_named_lem :
      (names : List String) (n name : String) (o : Option F) (t : Tally)
      → contains n names ≡ true
      → (contains n (tally_named round names name o t).bad
          ≡ ((name == n && is_bad o) || contains n t.bad))
        × (value_or (get n (tally_named round names name o t).found) (pos 0) ≡ (
            if name == n
            then add_rounded (value_or (get n t.found) (pos 0)) o
            else value_or (get n t.found) (pos 0)))
  unfolding tally_named
  tally_named_lem names n name o t asked = elim (Bool-cases (contains name names)) [
    | inl e ↦ rw e (bad-tally_value n name o t, found-tally_value n name o t)
    | inr e ↦ rw (e, other_name name n names e asked) (refl, refl)
  ]

  tally_lem :
      (names : List String) (n : String) (samples : List (Sample F)) (t : Tally)
      → contains n names ≡ true
      → (contains n (tally round names t samples).bad ≡ (any_bad n samples || contains n t.bad))
        × (value_or (get n (tally round names t samples).found) (pos 0)
            ≡ rounded_sum n (value_or (get n t.found) (pos 0)) samples)
  unfolding tally any_bad rounded_sum
  tally_lem names n [] t asked = (refl, refl)
  tally_lem names n (s ∷ samples) t asked =
      let t' = tally_named round names (label_value "__name__" s) s.value t in
      let (bad, found) = tally_lem names n samples t' asked in
      let (bad', found') = tally_named_lem names n (label_value "__name__" s) s.value t asked in
      (
        bad ∙ ap (λ b. any_bad n samples || b) bad' ∙ or_shuffle (any_bad n samples) _ _,
        found ∙ ap (λ k. rounded_sum n k samples) found',
      )

  count_lem :
      (n : String) (samples : List (Sample F)) (t : Tally)
      → contains n t.bad ≡ (any_bad n samples || contains n [])
      → value_or (get n t.found) (pos 0) ≡ rounded_sum n (value_or (get n []) (pos 0)) samples
      → series_found round t n
        ≡ (if any_bad n samples then failed bad_value else measured (rounded_sum n (pos 0) samples))
  unfolding get contains
  count_lem n samples t bad found =
      ap₂ (λ b k. if b then failed bad_value else measured k) (bad ∙ or_false (any_bad n samples))
        found

  if_some : (b : Bool) (c : MetricCount) → (if b then some c else some c) ≡ some c
  if_some true c = refl
  if_some false c = refl

  put_counts_lem :
      (g : String → MetricCount) (n : String) (names : List String) (res : Assoc String MetricCount)
      → get n (put_counts round g res names) ≡ (if contains n names then some (g n) else get n res)
  unfolding contains
  put_counts_lem g n [] res = refl
  put_counts_lem g n (m ∷ names) res =
      put_counts_lem g n names (put m (g m) res)
      ∙ ap (λ o. if contains n names then some (g n) else o) (get-put m n (g m) res)
      ∙ elim (Bool-cases (n == m)) [
        | inl k ↦ rw k (
            ap (λ x. if contains n names then some (g n) else some (g x))
              (sym ((string_comparable.equal_iff n m).0 k))
            ∙ if_some (contains n names) (g n))
        | inr k ↦ rw k refl
      ]

  -- If the query succeeds, every name that was asked for is counted on its own: not measured if one of its
  -- samples is negative or cannot be read, and otherwise the sum of its rounded samples in 64 bits, which
  -- is 0 where it has none. If the query fails, every name that was asked for carries the error. No other
  -- name is counted.
  pub count_chunk_lem :
      (text : Error → String) (names : List String) (n : String) (samples : List (Sample F))
      (e : Error)
      → (get n (count_chunk round text (ok samples) names) ≡ (
          if contains n names
          then some (
              if any_bad n samples
              then failed bad_value
              else measured (rounded_sum n (pos 0) samples))
          else none))
        × (get n (count_chunk round text (err e) names)
            ≡ (if contains n names then some (failed (text e)) else none))
  unfolding count_chunk
  count_chunk_lem text names n samples e =
      let none_yet : Tally = record { found = []; bad = [] } in
      (
        put_counts_lem (series_found round (tally round names none_yet samples)) n names []
            ∙ elim (Bool-cases (contains n names)) [
              | inl asked ↦
                  let (bad, found) = tally_lem names n samples none_yet asked in
                  rw asked
                    (ap some (count_lem n samples (tally round names none_yet samples) bad found))
              | inr asked ↦ rw asked refl
            ],
        put_counts_lem (λ m. failed (text e)) n names [],
      )
