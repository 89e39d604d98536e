-- ===== src/Cost/Window.antt =====
-- `windowString` of internal/cost/cost.go: how a window of nanoseconds is spelt. `Duration.String` of
-- the standard library is an argument.
use obscost.Prelude.{
  ℕ, ◌/◌, ◌%◌, ◌*◌, String, ◌&&◌, [], ◌∷◌, if◌then◌else◌, nat_beq, ltb, leb, sprintf, show_nat,
}
use obscost.Prelude.Int.{ℤ, pos, negsuc}

abbrev second : ℕ
second = 1_000_000_000

abbrev minute : ℕ
minute = 60 * second

abbrev hour : ℕ
hour = 60 * minute

-- `windowString`, of a window that is not negative
whole_units : (ℤ → String) → ℕ → String
whole_units format_duration d =
    if leb (48 * hour) d && nat_beq (d % (24 * hour)) 0
    then sprintf (show_nat (d / (24 * hour)) ∷ "d" ∷ [])
    else if ltb 0 d && nat_beq (d % hour) 0
    then sprintf (show_nat (d / hour) ∷ "h" ∷ [])
    else if ltb 0 d && nat_beq (d % minute) 0
    then sprintf (show_nat (d / minute) ∷ "m" ∷ [])
    else if ltb 0 d && nat_beq (d % second) 0
    then sprintf (show_nat (d / second) ∷ "s" ∷ [])
    else format_duration (pos d)

unfoldable pub window_string : (ℤ → String) → ℤ → String
unfolding whole_units
window_string format_duration (pos d) = whole_units format_duration d
window_string format_duration (negsuc d) = format_duration (negsuc d)
