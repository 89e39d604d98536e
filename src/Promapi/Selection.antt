-- ===== src/Promapi/Selection.antt =====
-- Which texts `ParseSelector` accepts.
use obscost.Prelude.{
  String, true, false, none, List, [], ◌∷◌, ◌≡◌, ◌↔◌, refl, ap, arith, ◌==◌, string_comparable,
  Bool-cases, Option-cases, inl, inr, is_empty, All,
}
use mathlib.Core.Path.{subst}
use obscost.Prelude.Result.{Result, ok, err}
use obscost.Promapi.{
  Matcher, Promql, Selector, trim_space, opens_brace, refused_matcher, selects, check_matchers,
  parse_trimmed, parse_selector,
}

-- A matcher on neither the metric's name nor the tenant label.
abbrev pub IsPlain : Matcher → Type 0
IsPlain m = ((m.name == "__name__") ≡ false) × ((m.name == "user") ≡ false)

refused_matcher_iff :
    (s : String) (ms : List Matcher) → (refused_matcher s ms ≡ none) ↔ All IsPlain ms
unfolding refused_matcher
refused_matcher_iff s [] = (λ h. tt, λ h. refl)
refused_matcher_iff s (m ∷ ms) = elim (Bool-cases (m.name == "__name__")) [
  | inl e ↦ rw e ((λ h. cc h), (λ h. cc (h.0.0)))
  | inr e ↦ elim (Bool-cases (m.name == "user")) [
    | inl e' ↦ rw (e, e') ((λ h. cc h), (λ h. cc (h.0.1)))
    | inr e' ↦
        rw (e, e')
          (
            (λ h. ((refl, refl), (refused_matcher_iff s ms).0 h)),
            (λ h. (refused_matcher_iff s ms).1 h.1),
          )
  ]
]

module _ {Ast : Type 0} (promql : Promql Ast) where
  -- What a trimmed text selects: nothing extra for an empty one; otherwise the matchers that PromQL reads
  -- in its braces, of which there is one at least.
  pub data Selects (s : String) (sel : Selector) : Type 0 where
    nothing : s ≡ "" → sel ≡ record { text = ""; matchers = [] } → Selects s sel
    matching :
        (s == "") ≡ false
        → opens_brace s ≡ true
        → promql.parse_metric_selector s ≡ ok sel.matchers
        → is_empty sel.matchers ≡ false
        → All IsPlain sel.matchers
        → sel.text ≡ s
        → Selects s sel

  checked :
      (s : String) (sel : Selector) (r : Result (List Matcher))
      → promql.parse_metric_selector s ≡ r
      → (s == "") ≡ false
      → opens_brace s ≡ true
      → check_matchers promql s r ≡ selects sel
      → Selects s sel
  checked s sel (err e) p full open' h = cc h
  checked s sel (ok ms) p full open' h = elim (Bool-cases (is_empty ms)) [
    | inl e ↦ cc (rw e at h)
    | inr e ↦ elim (Option-cases (refused_matcher s ms)) [
      | inl k ↦
          let same : record { text = s; matchers = ms } ≡ sel = cc (rw (e, k) at h) in
          subst (Selects s) same (matching full open' p e ((refused_matcher_iff s ms).0 k) refl)
      | inr (e', k) ↦ cc (rw (e, k) at h)
    ]
  ]

  Selects-sound :
      (s : String) (sel : Selector) → parse_trimmed promql s ≡ selects sel → Selects s sel
  Selects-sound s sel h = elim (Bool-cases (s == "")) [
    | inl e ↦ nothing ((string_comparable.equal_iff s "").0 e) (cc (rw e at h))
    | inr e ↦ elim (Bool-cases (opens_brace s)) [
      | inl e' ↦ checked s sel (promql.parse_metric_selector s) refl e e' (rw (e, e') at h)
      | inr e' ↦ cc (rw (e, e') at h)
    ]
  ]

  Selects-complete :
      (s : String) (sel : Selector) → Selects s sel → parse_trimmed promql s ≡ selects sel
  Selects-complete s sel (nothing e h) = rw (e, h) refl
  Selects-complete s sel (matching full open' p some' plain e) =
      rw (full, open', p, some', (refused_matcher_iff s sel.matchers).1 plain)
        (ap selects (ground (arith, e)))

  -- A text is accepted, as this selector, exactly if without the space around it it is empty (and selects
  -- nothing extra) or begins with a brace and PromQL reads one or more matchers in it, none of them on the
  -- metric's name or on the tenant label.
  pub parse_selector_lem :
      (raw : String) (sel : Selector)
      → (parse_selector promql raw ≡ selects sel) ↔ Selects (trim_space raw) sel
  unfolding parse_selector
  parse_selector_lem raw sel =
      (Selects-sound (trim_space raw) sel, Selects-complete (trim_space raw) sel)
