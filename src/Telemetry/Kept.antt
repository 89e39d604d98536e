-- ===== src/Telemetry/Kept.antt =====
-- What the loop over the lines of a file keeps of them.
use obscost.Prelude.{
  ℕ, ◌+◌, String, Bool, true, false, List, [], ◌∷◌, ◌≡◌, refl, arith, if◌then◌else◌, Bool-cases,
  inl, inr, length, length-append, select,
}
use obscost.Telemetry.{Line, skip, faulty, good, ReadError, Reading, add_line, read_lines}

abbrev pub is_skip : {F C : Type 0} → Line F C → Bool
is_skip skip = true
is_skip (faulty c) = false
is_skip (good e) = false

pub is_skip-if :
    {F C : Type 0} (b : Bool) (x y : Line F C)
    → is_skip (if b then x else y) ≡ (if b then is_skip x else is_skip y)
is_skip-if true x y = refl
is_skip-if false x y = refl

pub no_skip-if :
    {F C : Type 0} (b : Bool) (x y : Line F C)
    → is_skip x ≡ false
    → is_skip y ≡ false
    → is_skip (if b then x else y) ≡ false
no_skip-if true x y h k = h
no_skip-if false x y h k = k

module _ {F C : Type 0} (path : String) (classify : String → Line F C) where
  abbrev pub kept : Reading F C → ℕ
  kept r = length r.executions + length r.read_errors

  kept-add_line :
      (n : ℕ) (l : Line F C) (r : Reading F C)
      → kept (add_line path n l r) ≡ kept r + (if is_skip l then 0 else 1)
  kept-add_line n skip r = omega arith
  kept-add_line n (faulty c) r =
      let e : ReadError C = record { source = path; line = n; cause = c } in
      omega (arith, length-append r.read_errors (e ∷ []))
  kept-add_line n (good e) r = omega (arith, length-append r.executions (e ∷ []))

  pub kept-read_lines :
      (n : ℕ) (r : Reading F C) (lines : List String)
      → kept (read_lines path classify n r lines)
          + length (select (λ l. is_skip (classify l)) lines)
        ≡ kept r + length lines
  unfolding read_lines select
  kept-read_lines n r [] = refl
  kept-read_lines n r (l ∷ lines) =
      let rest = kept-read_lines (n + 1) (add_line path (n + 1) (classify l) r) lines in
      elim (Bool-cases (is_skip (classify l))) [
        | inl e ↦ rw e (omega (arith, rest, rw e at (kept-add_line (n + 1) (classify l) r)))
        | inr e ↦ rw e (omega (arith, rest, rw e at (kept-add_line (n + 1) (classify l) r)))
      ]
