-- ===== src/Prelude/Text/Decimal.antt =====
-- Decimal digits, read back.
use Prim.Native.Nat.{ℕ, zero, suc, ◌+◌, ◌-◌, ◌*◌, ◌/◌, ◌%◌, ◌<◌}
use Prim.Native.Char.{Char, code}
use Prim.Native.String.{String}
use Prim.Native.String
use mathlib.Core.Path.{◌≡◌, refl, ap, ◌∙◌}
use mathlib.Core.Bool.{true, ◌&&◌}
use mathlib.Core.Logic.{inl, inr}
use native.Mathlib.Omega.{arith}
use text.Mathlib.TextLemmas.{nil-append, cons-append, append_assoc}
use obscost.Prelude.Tests.{ltb, leb, if◌then◌else◌, Bool-cases}
use obscost.Prelude.Text.{digit, show_digits, show_nat}

-- The number at the head of a text, and what follows it.
unfoldable pub read_number : ℕ → String → ℕ × String
read_number n String.[] = (n, "")
read_number n (String.◌∷◌ c s) =
    let rest = read_number (n * 10 + (code c - 48)) s in
    if leb 48 (code c) && leb (code c) 57 then rest else (n, String.◌∷◌ c s)

-- A digit is one character, whose code is the digit's.
digit-code : (d : ℕ) → d < 10 → (c : Char) × (digit d ≡ String.◌∷◌ c "") × (code c ≡ 48 + d)
unfolding digit
digit-code zero h = ("0", refl, refl)
digit-code (suc zero) h = ("1", refl, refl)
digit-code (suc (suc zero)) h = ("2", refl, refl)
digit-code (suc (suc (suc zero))) h = ("3", refl, refl)
digit-code (suc (suc (suc (suc zero)))) h = ("4", refl, refl)
digit-code (suc (suc (suc (suc (suc zero))))) h = ("5", refl, refl)
digit-code (suc (suc (suc (suc (suc (suc zero)))))) h = ("6", refl, refl)
digit-code (suc (suc (suc (suc (suc (suc (suc zero))))))) h = ("7", refl, refl)
digit-code (suc (suc (suc (suc (suc (suc (suc (suc zero)))))))) h = ("8", refl, refl)
digit-code (suc (suc (suc (suc (suc (suc (suc (suc (suc zero))))))))) h = ("9", refl, refl)
digit-code (suc (suc (suc (suc (suc (suc (suc (suc (suc (suc n)))))))))) h = absurd (omega arith)

digit_in_range : (k d : ℕ) → k ≡ 48 + d → d < 10 → (leb 48 k && leb k 57) ≡ true
digit_in_range k d e h = ground arith

read_number-digit :
    (n d : ℕ) (s : String)
    → d < 10
    → read_number n (String.◌++◌ (digit d) s) ≡ read_number (n * 10 + d) s
unfolding read_number
read_number-digit n d s h =
    let (c, same, value) = digit-code d h in
    rw (same, cons-append c "" s, nil-append s, digit_in_range (code c) d value h)
      (ap (λ k. read_number (n * 10 + k) s) (omega (arith, value)))

read_number-show_digits :
    (fuel n : ℕ) (s : String) → n < fuel → read_number 0 (show_digits fuel n s) ≡ read_number n s
unfolding show_digits
read_number-show_digits zero n s h = absurd (omega arith)
read_number-show_digits (suc fuel) n s h =
    let s' = String.◌++◌ (digit (n % 10)) s in
    elim (Bool-cases (ltb n 10)) [
      | inl e ↦ rw e (
          read_number-digit 0 (n % 10) s (omega arith)
          ∙ ap (λ k. read_number k s) (ground (arith, e)))
      | inr e ↦ rw e (
          read_number-show_digits fuel (n / 10) s' (ground (arith, e))
          ∙ read_number-digit (n / 10) (n % 10) s (omega arith)
          ∙ ap (λ k. read_number k s) (omega arith))
    ]

append-show_digits :
    (fuel n : ℕ) (s t : String)
    → String.◌++◌ (show_digits fuel n s) t ≡ show_digits fuel n (String.◌++◌ s t)
unfolding show_digits
append-show_digits zero n s t = refl
append-show_digits (suc fuel) n s t = elim (Bool-cases (ltb n 10)) [
  | inl e ↦ rw e (append_assoc (digit (n % 10)) s t)
  | inr e ↦ rw e (
      append-show_digits fuel (n / 10) (String.◌++◌ (digit (n % 10)) s) t
      ∙ ap (show_digits fuel (n / 10)) (append_assoc (digit (n % 10)) s t))
]

-- A number followed by a text reads as the number and what the text makes of it.
pub read_number-show_nat :
    (n : ℕ) (s : String) → read_number 0 (String.◌++◌ (show_nat n) s) ≡ read_number n s
unfolding show_nat
read_number-show_nat n s =
    ap (read_number 0)
      (append-show_digits (suc n) n "" s ∙ ap (show_digits (suc n) n) (nil-append s))
    ∙ read_number-show_digits (suc n) n s (omega arith)
