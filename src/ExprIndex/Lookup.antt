-- ===== src/ExprIndex/Lookup.antt =====
-- `lookup` answers with a definition only if it is the only one of its tenant and expression.
use mathlib.Core.Path.{ap₂}
use obscost.Prelude.{
  String, Bool, true, false, not, ◌&&◌, ◌||◌, Option, none, some, List, [], ◌∷◌, ◌≡◌, refl, sym, ap,
  ◌∙◌, arith, if◌then◌else◌, ◌==◌, string_comparable, Bool-cases, inl, inr, is_some, is_empty,
  select,
}
use obscost.Prelude.Map.{get}
use obscost.Prelude.Map.Nested.{get_in, get_in-put_in}
use obscost.Rule.{AnnotatedRule}
use obscost.ExprIndex.{
  Parser, ExprIndex, LookupResult, add_definition, add_definitions, build_expr_index, is_true,
  look_up_key, lookup, found, failed, not_parsed, ambiguous_rule, no_match,
}

module _ {Ast : Type 0} (parser : Parser Ast) (tenant key : String) where
  -- The definitions of a tenant with an expression.
  abbrev pub matches : AnnotatedRule Ast → Bool
  matches d = tenant == d.tenant && key == parser.show_expr d.ast

  -- The first definition that is there, before or in the list.
  abbrev first : Option (AnnotatedRule Ast) → List (AnnotatedRule Ast) → Option (AnnotatedRule Ast)
  first (some d) ds = some d
  first none [] = none
  first none (d ∷ ds) = some d

  -- Whether there are two or more.
  abbrev many : Option (AnnotatedRule Ast) → List (AnnotatedRule Ast) → Bool
  many (some d) ds = not (is_empty ds)
  many none [] = false
  many none (d ∷ ds) = not (is_empty ds)

  abbrev entry : ExprIndex Ast → Option (AnnotatedRule Ast)
  entry idx = get_in tenant key idx.by_tenant_and_expr

  abbrev mark : ExprIndex Ast → Bool
  mark idx = is_true (get_in tenant key idx.ambiguous)

  first-nil : (o : Option (AnnotatedRule Ast)) → o ≡ first o []
  first-nil none = refl
  first-nil (some d) = refl

  many-nil : (m : Bool) (o : Option (AnnotatedRule Ast)) → m ≡ (m || many o [])
  many-nil m none = ground arith
  many-nil m (some d) = ground arith

  first-step :
      (b : Bool) (o : Option (AnnotatedRule Ast)) (d : AnnotatedRule Ast)
      (ms : List (AnnotatedRule Ast))
      → first (if b && not (is_some o) then some d else o) ms ≡ first o (if b then d ∷ ms else ms)
  first-step true none d ms = refl
  first-step true (some c) d ms = refl
  first-step false o d ms = refl

  many-step :
      (b : Bool) (o : Option (AnnotatedRule Ast)) (d : AnnotatedRule Ast)
      (ms : List (AnnotatedRule Ast)) (m : Bool)
      → ((if b && is_some o then true else m)
          || many (if b && not (is_some o) then some d else o) ms)
        ≡ (m || many o (if b then d ∷ ms else ms))
  many-step true none d ms m = refl
  many-step true (some c) d ms m = ground arith
  many-step false o d ms m = refl

  slot :
      (idx : ExprIndex Ast) (d : AnnotatedRule Ast)
      → matches d ≡ true
      → get_in d.tenant (parser.show_expr d.ast) idx.by_tenant_and_expr ≡ entry idx
  slot idx d h =
      rw
        (
          sym ((string_comparable.equal_iff tenant d.tenant).0 (ground arith)),
          sym ((string_comparable.equal_iff key (parser.show_expr d.ast)).0 (ground arith)),
        )
        refl

  -- One definition changes only its own slot: it takes it if it is free, and marks it otherwise.
  add_definition_lem :
      (idx : ExprIndex Ast) (d : AnnotatedRule Ast)
      → (entry (add_definition parser idx d)
          ≡ (if matches d && not (is_some (entry idx)) then some d else entry idx))
        × (mark (add_definition parser idx d)
            ≡ (if matches d && is_some (entry idx) then true else mark idx))
  unfolding add_definition
  add_definition_lem idx d =
      let k = parser.show_expr d.ast in
      let old = get_in d.tenant k idx.by_tenant_and_expr in
      let by = get_in-put_in tenant key d.tenant k d idx.by_tenant_and_expr in
      let am = ap is_true (get_in-put_in tenant key d.tenant k true idx.ambiguous) in
      elim (Bool-cases (matches d)) [
        | inl h ↦ elim (Bool-cases (is_some (entry idx))) [
          | inl e ↦ rw (ap is_some (slot idx d h) ∙ e, e, h) (refl, am ∙ rw h refl)
          | inr e ↦ rw (ap is_some (slot idx d h) ∙ e, e, h) (by ∙ rw h refl, refl)
        ]
        | inr h ↦ elim (Bool-cases (is_some old)) [
          | inl e ↦ rw (e, h) (refl, am ∙ rw h refl)
          | inr e ↦ rw (e, h) (by ∙ rw h refl, refl)
        ]
      ]

  entry-add_definitions :
      (idx : ExprIndex Ast) (ds : List (AnnotatedRule Ast))
      → (entry (add_definitions parser idx ds) ≡ first (entry idx) (select matches ds))
        × (mark (add_definitions parser idx ds)
            ≡ (mark idx || many (entry idx) (select matches ds)))
  unfolding add_definitions select
  entry-add_definitions idx [] = (first-nil (entry idx), many-nil (mark idx) (entry idx))
  entry-add_definitions idx (d ∷ ds) =
      let (rest, rest') = entry-add_definitions (add_definition parser idx d) ds in
      let (now, now') = add_definition_lem idx d in
      (
        rest
            ∙ ap (λ o. first o (select matches ds)) now
            ∙ first-step (matches d) (entry idx) d (select matches ds),
        rest'
            ∙ ap₂ (λ m o. m || many o (select matches ds)) now' now
            ∙ many-step (matches d) (entry idx) d (select matches ds) (mark idx),
      )

  -- What there is to answer, from the list of all definitions that match.
  abbrev pub answer : String → List (AnnotatedRule Ast) → LookupResult Ast
  answer query [] = failed (no_match tenant query)
  answer query (d ∷ []) = found d
  answer query (d ∷ e ∷ ds) = failed (ambiguous_rule tenant query)

  look_up_key-answer :
      (idx : ExprIndex Ast) (query : String) (ms : List (AnnotatedRule Ast))
      → entry idx ≡ first none ms
      → mark idx ≡ many none ms
      → look_up_key idx tenant query key ≡ answer query ms
  unfolding look_up_key
  look_up_key-answer idx query [] e m = rw (m, e) refl
  look_up_key-answer idx query (d ∷ []) e m = rw (m, e) refl
  look_up_key-answer idx query (d ∷ d' ∷ ds) e m = rw m refl

module _ {Ast : Type 0} (parser : Parser Ast) (definitions : List (AnnotatedRule Ast)) where
  -- What a query text means: no answer if it does not parse, and otherwise the definition of the tenant
  -- that prints like it, if there is exactly one.
  abbrev pub meaning : String → String → Option Ast → LookupResult Ast
  meaning tenant query none = failed (not_parsed query)
  meaning tenant query (some ast) =
      answer parser tenant (parser.show_expr ast) query
        (select (matches parser tenant (parser.show_expr ast)) definitions)

  -- A lookup in the index of some definitions gives a definition only if it is the one definition of
  -- the tenant whose expression prints like the parsed query; with none it reports no match, with two
  -- or more an ambiguity, and a query that does not parse is refused.
  pub lookup_lem :
      (tenant query : String)
      → lookup parser (build_expr_index parser definitions) tenant query
        ≡ meaning tenant query (parser.parse_expr query)
  unfolding lookup build_expr_index
  lookup_lem tenant query = go (parser.parse_expr query)
    where
      go :
          (o : Option Ast)
          → elim o [
            | none ↦ failed (not_parsed query)
            | some ast ↦
                look_up_key
                  (build_expr_index parser definitions)
                  tenant
                  query
                  (parser.show_expr ast)
          ]
            ≡ meaning tenant query o
      go none = refl
      go (some ast) =
          let key = parser.show_expr ast in
          let empty : ExprIndex Ast = record { by_tenant_and_expr = []; ambiguous = [] } in
          let (e, m) = entry-add_definitions parser tenant key empty definitions in
          look_up_key-answer parser tenant key (build_expr_index parser definitions) query
            (select (matches parser tenant key) definitions) (unfold build_expr_index get in e)
            (unfold build_expr_index get in m)
