-- ===== src/Telemetry/MimirMetrics/RuleGroup.antt =====
-- `splitRuleGroup`, on the labels that Mimir makes of a file and a group.
use Prim.Native.Char.{Char, code}
use Prim.Native.String
use text.Mathlib.TextLemmas.{nil-append, cons-append, cons≢nil, append-nil}
use obscost.Prelude.{
  ℕ, String, Bool, false, ◌||◌, none, some, [], ◌∷◌, sprintf, ◌≡◌, refl, sym, ap, ◌∙◌, arith, ◌==◌,
  string_comparable, nat_beq, Bool-cases, inl, inr,
}
use obscost.Telemetry.MimirMetrics.{
  split_last, trim_slashes, path_base, file_and_group, split_rule_group,
}

abbrev pub has_char : ℕ → String → Bool
has_char k String.[] = false
has_char k (String.◌∷◌ c s) = nat_beq (code c) k || has_char k s

split_last-absent : (k : ℕ) (s : String) → has_char k s ≡ false → split_last k s ≡ none
unfolding split_last
split_last-absent k String.[] h = refl
split_last-absent k (String.◌∷◌ c s) h = rw (split_last-absent k s (ground arith)) (ground arith)

split_last-append :
    (k : ℕ) (a s x y : String)
    → split_last k s ≡ some (x, y)
    → split_last k (String.◌++◌ a s) ≡ some (String.◌++◌ a x, y)
unfolding split_last
split_last-append k String.[] s x y h = cc (h, nil-append s, nil-append x)
split_last-append k (String.◌∷◌ c a) s x y h =
    ground (arith, split_last-append k a s x y h, cons-append c a s, cons-append c a x)

split_last-colon :
    (s : String) → has_char 59 s ≡ false → split_last 59 (String.◌++◌ ";" s) ≡ some ("", s)
unfolding split_last
split_last-colon s h = rw (cons-append _ "" s, nil-append s, split_last-absent 59 s h) refl

split_last-slash :
    (s : String) → has_char 47 s ≡ false → split_last 47 (String.◌++◌ "/" s) ≡ some ("", s)
unfolding split_last
split_last-slash s h = rw (cons-append _ "" s, nil-append s, split_last-absent 47 s h) refl

not_empty : (c : Char) (s : String) → (String.◌∷◌ c s == "") ≡ false
not_empty c s = elim (Bool-cases (String.◌∷◌ c s == "")) [
  | inl e ↦ absurd (cons≢nil ((string_comparable.equal_iff (String.◌∷◌ c s) "").0 e))
  | inr e ↦ e
]

-- A path keeps its end if that is no slash.
trim_slashes-name :
    (c : Char) (s : String)
    → has_char 47 (String.◌∷◌ c s) ≡ false
    → trim_slashes (String.◌∷◌ c s) ≡ String.◌∷◌ c s
unfolding trim_slashes
trim_slashes-name c String.[] h = ground (arith, h)
trim_slashes-name c (String.◌∷◌ d s) h = rw (trim_slashes-name d s (ground arith)) refl

head-append :
    (a : String) (c : Char) (s : String)
    → (d : Char) × (r : String) × (String.◌++◌ a (String.◌∷◌ c s) ≡ String.◌∷◌ d r)
head-append String.[] c s = (c, s, nil-append (String.◌∷◌ c s))
head-append (String.◌∷◌ b a) c s =
    (b, String.◌++◌ a (String.◌∷◌ c s), cons-append b a (String.◌∷◌ c s))

trim_slashes-cons :
    (b d : Char) (r t : String)
    → t ≡ String.◌∷◌ d r
    → trim_slashes t ≡ t
    → trim_slashes (String.◌∷◌ b t) ≡ String.◌∷◌ b t
unfolding trim_slashes
trim_slashes-cons b d r t e h = rw h (rw e refl)

trim_slashes-append :
    (a : String) (c : Char) (s : String)
    → trim_slashes (String.◌∷◌ c s) ≡ String.◌∷◌ c s
    → trim_slashes (String.◌++◌ a (String.◌∷◌ c s)) ≡ String.◌++◌ a (String.◌∷◌ c s)
trim_slashes-append String.[] c s h = cc (h, nil-append (String.◌∷◌ c s))
trim_slashes-append (String.◌∷◌ b a) c s h =
    let (d, r, e) = head-append a c s in
    ap trim_slashes (cons-append b a (String.◌∷◌ c s))
    ∙ trim_slashes-cons b d r (String.◌++◌ a (String.◌∷◌ c s)) e (trim_slashes-append a c s h)
    ∙ sym (cons-append b a (String.◌∷◌ c s))

path_base-ends :
    (p x y : String)
    → (p == "") ≡ false
    → trim_slashes p ≡ p
    → split_last 47 p ≡ some (x, y)
    → path_base p ≡ y
unfolding path_base
path_base-ends p x y n t l = rw (t, n, l) refl

-- A file in a directory has its own name as its base.
path_base-append :
    (dir : String) (c : Char) (name : String)
    → has_char 47 (String.◌∷◌ c name) ≡ false
    → (String.◌++◌ dir (String.◌++◌ "/" (String.◌∷◌ c name)) == "") ≡ false
      × (path_base (String.◌++◌ dir (String.◌++◌ "/" (String.◌∷◌ c name))) ≡ String.◌∷◌ c name)
path_base-append dir c name h =
    let file = String.◌∷◌ c name in
    let (d, r, e) = head-append "/" c name in
    let (d', r', e') = head-append dir d r in
    let path = String.◌++◌ dir (String.◌++◌ "/" file) in
    let n : (path == "") ≡ false = rw (e, e') (not_empty d' r') in
    let t : trim_slashes path ≡ path = rw e (
      trim_slashes-append dir d r
        (rw e at (trim_slashes-append "/" c name (trim_slashes-name c name h)))) in
    (
      n,
      path_base-ends path (String.◌++◌ dir "") file n t
          (split_last-append 47 dir (String.◌++◌ "/" file) "" file (split_last-slash file h)),
    )

file_and_group-base :
    (value file group base : String)
    → (file == "") ≡ false
    → path_base file ≡ base
    → file_and_group value (some (file, group)) ≡ (base, group)
file_and_group-base value file group base n b = rw n (ap (λ x. (x, group)) b)

-- The label that Mimir makes of a file in a directory and a group is split back into the file's name and
-- the group, if the name is not empty and has no slash, and the group has no semicolon; the directory
-- may have both.
pub split_rule_group-sprintf :
    (dir : String) (c : Char) (name group : String)
    → has_char 47 (String.◌∷◌ c name) ≡ false
    → has_char 59 group ≡ false
    → split_rule_group (sprintf (dir ∷ "/" ∷ String.◌∷◌ c name ∷ ";" ∷ group ∷ []))
      ≡ (String.◌∷◌ c name, group)
unfolding sprintf split_rule_group
split_rule_group-sprintf dir c name group h g =
    let file = String.◌∷◌ c name in
    let (n, b) = path_base-append dir c name h in
    let l =
      split_last-append 59 dir (String.◌++◌ "/" (String.◌++◌ file (String.◌++◌ ";" group)))
        (String.◌++◌ "/" (String.◌++◌ file "")) group
        (split_last-append 59 "/" (String.◌++◌ file (String.◌++◌ ";" group)) (String.◌++◌ file "")
          group
          (split_last-append 59 file (String.◌++◌ ";" group) "" group
            (split_last-colon group g))) in
    rw (append-nil group, l, append-nil file)
      (file_and_group-base "" (String.◌++◌ dir (String.◌++◌ "/" file)) group file n b)
