-- ===== src/Tenancy/Policy.antt =====
-- Which texts `ParseUnmappedPolicy` accepts, and what becomes of an unresolved rule under them.
use Prim.Native.Char.{code}
use Prim.Native.String
use text.Mathlib.TextEquality.{Char-path}
use text.Mathlib.TextLemmas.{nil-append, cons-append}
use obscost.Prelude.{
  String, false, Option, none, some, ◌≡◌, ◌≢◌, ◌↔◌, ◌⊎◌, refl, sym, ap, arith, ◌==◌,
  string_comparable, nat_beq, Bool-cases, inl, inr,
}
use obscost.Tenancy.{
  strip_prefix, UnmappedPolicy, policy, parse_fallback, parse_unmapped_policy, parsed, Outcome,
  keep, drop, unmapped, apply,
}

strip_prefix-append : (p s : String) → strip_prefix p (String.◌++◌ p s) ≡ some s
unfolding strip_prefix
strip_prefix-append String.[] s = ap some (nil-append s)
strip_prefix-append (String.◌∷◌ c p) s =
    rw (cons-append c p s) (ground (arith, strip_prefix-append p s))

append-strip_prefix : (p s t : String) → strip_prefix p s ≡ some t → s ≡ String.◌++◌ p t
unfolding strip_prefix
append-strip_prefix String.[] s t h = cc (h, nil-append t)
append-strip_prefix (String.◌∷◌ c p) String.[] t h = cc h
append-strip_prefix (String.◌∷◌ c p) (String.◌∷◌ d s) t h =
    elim (Bool-cases (nat_beq (code c) (code d))) [
      | inl e ↦
          cc
            (Char-path c d (ground arith), append-strip_prefix p s t (rw e at h), cons-append c p t)
      | inr e ↦ ground arith
    ]

-- The policy that a text stands for.
pub data Denotes (raw : String) (p : UnmappedPolicy) : Type 0 where
  by_default : raw ≡ "" → p ≡ policy "error" "" → Denotes raw p
  by_error : raw ≡ "error" → p ≡ policy "error" "" → Denotes raw p
  by_skip : raw ≡ "skip" → p ≡ policy "skip" "" → Denotes raw p
  by_tenant :
      (name : String)
      → name ≢ ""
      → raw ≡ String.◌++◌ "tenant:" name
      → p ≡ policy "tenant" name
      → Denotes raw p

fallback_sound :
    (raw : String) (p : UnmappedPolicy) (o : Option String)
    → strip_prefix "tenant:" raw ≡ o
    → parse_fallback raw o ≡ parsed p
    → Denotes raw p
unfolding parse_fallback
fallback_sound raw p none e h = cc h
fallback_sound raw p (some name) e h = elim (Bool-cases (name == "")) [
  | inl empty ↦ ground arith
  | inr full ↦
      by_tenant name (λ k. cc ((string_comparable.equal_iff name "").1 k, full))
        (append-strip_prefix "tenant:" raw name e) (ground arith)
]

-- A text with the prefix is none of the fixed ones.
not_fixed :
    (raw name fixed : String)
    → raw ≡ String.◌++◌ "tenant:" name
    → strip_prefix "tenant:" fixed ≡ none
    → (raw == fixed) ≡ false
not_fixed raw name fixed e h = elim (Bool-cases (raw == fixed)) [
  | inl k ↦
      cc (e, h, (string_comparable.equal_iff raw fixed).0 k, strip_prefix-append "tenant:" name)
  | inr k ↦ k
]

fixed_texts :
    (strip_prefix "tenant:" "" ≡ none)
    × (strip_prefix "tenant:" "error" ≡ none)
    × (strip_prefix "tenant:" "skip" ≡ none)
unfolding strip_prefix
fixed_texts = (refl, refl, refl)

not_empty : (name : String) → name ≢ "" → (name == "") ≡ false
not_empty name full = elim (Bool-cases (name == "")) [
  | inl k ↦ absurd (full ((string_comparable.equal_iff name "").0 k))
  | inr k ↦ k
]

Denotes-complete :
    (raw : String) (p : UnmappedPolicy) → Denotes raw p → parse_unmapped_policy raw ≡ parsed p
unfolding parse_unmapped_policy parse_fallback
Denotes-complete raw p (by_default e h) = rw (e, h) refl
Denotes-complete raw p (by_error e h) = rw (e, h) refl
Denotes-complete raw p (by_skip e h) = rw (e, h) refl
Denotes-complete raw p (by_tenant name full e h) =
    let (default, error, skip) = fixed_texts in
    rw
      (
        not_fixed raw name "" e default,
        not_fixed raw name "error" e error,
        not_fixed raw name "skip" e skip,
        ap (strip_prefix "tenant:") e,
        strip_prefix-append "tenant:" name,
        not_empty name full,
      )
      (ap parsed (sym h))

Denotes-sound :
    (raw : String) (p : UnmappedPolicy) → parse_unmapped_policy raw ≡ parsed p → Denotes raw p
unfolding parse_unmapped_policy parse_fallback
Denotes-sound raw p h = elim (Bool-cases (raw == "")) [
  | inl e ↦ by_default ((string_comparable.equal_iff raw "").0 e) (ground arith)
  | inr e ↦ elim (Bool-cases (raw == "error")) [
    | inl e' ↦ by_error ((string_comparable.equal_iff raw "error").0 e') (ground arith)
    | inr e' ↦ elim (Bool-cases (raw == "skip")) [
      | inl e'' ↦ by_skip ((string_comparable.equal_iff raw "skip").0 e'') (ground arith)
      | inr e'' ↦ fallback_sound raw p (strip_prefix "tenant:" raw) refl (ground arith)
    ]
  ]
]

-- A text is accepted, and as this policy, exactly if it is empty or "error" (refuse the rule), "skip"
-- (drop it), or "tenant:" and a name that is not empty (keep it under that name).
pub parse_unmapped_policy_lem :
    (raw : String) (p : UnmappedPolicy) → (parse_unmapped_policy raw ≡ parsed p) ↔ Denotes raw p
parse_unmapped_policy_lem raw p = (Denotes-sound raw p, Denotes-complete raw p)

-- What becomes of a rule that no discovery source resolves.
abbrev Unresolved : String → Outcome → Type 0
Unresolved raw o =
    (((raw ≡ "") ⊎ (raw ≡ "error")) × (o ≡ unmapped))
    ⊎ (((raw ≡ "skip") × (o ≡ drop))
        ⊎ ((name : String) × ((raw ≡ String.◌++◌ "tenant:" name) × (o ≡ keep name))))

-- Under an accepted text a resolved rule keeps its tenant, and an unresolved one is refused, dropped or
-- kept under the named tenant as the text says.
apply_lem :
    (raw : String) (p : UnmappedPolicy) (tenant : String)
    → parse_unmapped_policy raw ≡ parsed p
    → (apply p (some tenant) ≡ keep tenant) × Unresolved raw (apply p none)
unfolding apply
apply_lem raw p tenant h = (refl, go (Denotes-sound raw p h))
  where
    go : Denotes raw p → Unresolved raw (apply p none)
    go (by_default e k) = inl (inl e, rw k refl)
    go (by_error e k) = inl (inr e, rw k refl)
    go (by_skip e k) = inr (inl (e, rw k refl))
    go (by_tenant name full e k) = inr (inr (name, (e, rw k refl)))
