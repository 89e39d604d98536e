-- ===== src/Promapi/Tests.antt =====
-- Windows as the documentation writes them, and selectors that are accepted and refused.
use obscost.Prelude.{
  ℕ, ◌≤◌, ◌<◌, String, some, List, [], ◌∷◌, map, ◌≡◌, ◌⊎◌, ◌↔◌, refl, sprintf, if◌then◌else◌, ◌==◌,
  string_comparable,
}
use obscost.Prelude.Int.{pos, pos_part}
use obscost.Prelude.Result.{Error, ok, err}
use obscost.Promapi.{
  duration, Matcher, Promql, Selector, trim_space, parse_selector, selects, refused, matches_user,
  not_in_braces, apply,
}
use obscost.Promapi.Selection.{Selects, parse_selector_lem}
use obscost.Promapi.Span.{read_span, in_milliseconds, duration_lem}

duration_lem_example :
    ((n : ℕ) × ((pos 1500000000 ≡ pos n)
        × (1000000 ≤ n)
        × ((s : String) × ((duration (pos 1500000000) ≡ ok s)
              × (read_span s ≡ some (in_milliseconds n))))))
    ⊎ ((pos_part (pos 1500000000) < 1000000) × ((e : Error) × (duration (pos 1500000000) ≡ err e)))
duration_lem_example = duration_lem (pos 1500000000)

week : duration (pos 604800000000000) ≡ ok "7d"
unfolding duration
week = refl

part_of_second : duration (pos 1500000000) ≡ ok "1500ms"
unfolding duration
part_of_second = refl

-- A parser of one matcher, whose expressions are a metric with its matchers.
abbrev one_matcher : Promql (String × List Matcher)
one_matcher = record {
  parse_metric_selector = λ s.
      if s == "{}"
      then ok []
      else ok (
          record {
            name = if s == "{user=\"a\"}" then "user" else "cluster";
            kind = "=";
            value = "a";
          }
          ∷ []);
  parse_expr = λ s. ok (s, []);
  on_selectors = λ g e. (e.0, g e.1);
  show_expr = λ e. sprintf (e.0 ∷ map (λ m. m.name) e.1);
}

abbrev in_cluster : Selector
in_cluster = record {
  text = "{cluster=\"a\"}";
  matchers = record { name = "cluster"; kind = "="; value = "a" } ∷ [];
}

parse_selector_lem_example :
    (parse_selector one_matcher " {cluster=\"a\"}\n" ≡ selects in_cluster)
    ↔ Selects one_matcher (trim_space " {cluster=\"a\"}\n") in_cluster
parse_selector_lem_example = parse_selector_lem one_matcher " {cluster=\"a\"}\n" in_cluster

accepted : parse_selector one_matcher " {cluster=\"a\"}\n" ≡ selects in_cluster
unfolding parse_selector
accepted = refl

on_user : parse_selector one_matcher "{user=\"a\"}" ≡ refused (matches_user "{user=\"a\"}")
unfolding parse_selector
on_user = refl

no_braces : parse_selector one_matcher "up" ≡ refused (not_in_braces "up")
unfolding parse_selector
no_braces = refl

applied : apply one_matcher in_cluster "up" ≡ ok "upcluster"
unfolding apply sprintf
applied = refl
