-- ===== src/RuleOutput/Chunks.antt =====
-- `chunk` splits its names into queries that stay within both limits, and `dedupe` prepares them.
use mathlib.Core.List.{append-nil, append_assoc, map-id}
use obscost.Prelude.{
  nil_of_is_empty, ℕ, ◌+◌, ◌≤◌, String, true, false, not, ◌&&◌, ◌||◌, List, [], ◌∷◌, ◌++◌, ◌≡◌,
  refl, sym, ap, ◌∙◌, arith, ◌==◌, string_comparable, Bool-cases, inl, inr, ltb, leb, is_empty,
  length, length-append, contains, All, All-append, IsDistinct, str_lt,
}
use obscost.Prelude.Order.{str_lt-IsStrict}
use obscost.Prelude.Sort.{IsSorted, sort_by-IsSorted, contains-sort_by, IsDistinct-sort_by}
use obscost.RuleOutput.{
  quoted_length, ChunkState, chunk_step, chunk_loop, finish_chunks, chunk, distinct_names, dedupe,
}

-- The bytes of the regex over some names, a separator for each.
unfoldable pub regex_size : List String → ℕ
unfolding quoted_length
regex_size [] = 0
regex_size (n ∷ ns) = quoted_length n + 1 + regex_size ns

regex_size-append : (xs ys : List String) → regex_size (xs ++ ys) ≡ regex_size xs + regex_size ys
unfolding regex_size
regex_size-append [] ys = omega arith
regex_size-append (x ∷ xs) ys = omega (arith, regex_size-append xs ys)

abbrev pub joined : List (List String) → List String
joined [] = []
joined (c ∷ cs) = c ++ joined cs

joined-append : (cs ds : List (List String)) → joined (cs ++ ds) ≡ joined cs ++ joined ds
joined-append [] ds = refl
joined-append (c ∷ cs) ds =
    ap (λ xs. c ++ xs) (joined-append cs ds) ∙ sym (append_assoc c (joined cs) (joined ds))

module _ (max_names max_bytes : ℕ) where
  -- Within the number of names, and within the bytes unless it is a single name.
  abbrev pub IsWithin : List String → Type 0
  IsWithin c =
      (leb (length c) max_names ≡ true)
      × ((leb (regex_size c) max_bytes || leb (length c) 1) ≡ true)

  abbrev pub IsChunk : List String → Type 0
  IsChunk c = (is_empty c ≡ false) × IsWithin c

  record IsState (s : ChunkState) : Type 0 where
    out : All IsChunk s.out
    cur : IsWithin s.cur
    size : s.size ≡ regex_size s.cur

  IsWithin-snoc :
      1 ≤ max_names
      → (cur : List String) (n : String) (size : ℕ) → size ≡ regex_size cur
      → (not (is_empty cur)
          && (leb max_names (length cur) || ltb max_bytes (size + (quoted_length n + 1))))
        ≡ false
      → IsWithin (cur ++ n ∷ [])
  unfolding regex_size
  IsWithin-snoc positive [] n size e h = (ground arith, ground arith)
  IsWithin-snoc positive (c ∷ cs) n size e h = (
    ground (arith, length-append (c ∷ cs) (n ∷ [])),
    ground (arith, regex_size-append (c ∷ cs) (n ∷ [])),
  )

  IsState-chunk_step :
      1 ≤ max_names
      → (s : ChunkState) (n : String) → IsState s
      → IsState (chunk_step max_names max_bytes s n)
  unfolding chunk_step regex_size
  IsState-chunk_step positive s n v =
      let l = quoted_length n + 1 in
      elim (Bool-cases
        (not (is_empty s.cur) && (leb max_names (length s.cur) || ltb max_bytes (s.size + l)))) [
          | inl e ↦ rw e (record {
            out = All-append IsChunk s.out (s.cur ∷ []) v.out ((ground arith, v.cur), tt);
            cur = ground arith;
            size = omega arith;
          })
          | inr e ↦ rw e (record {
            out = v.out;
            cur = IsWithin-snoc positive s.cur n s.size v.size e;
            size = omega (arith, v.size, regex_size-append s.cur (n ∷ []));
          })
        ]

  IsState-chunk_loop :
      1 ≤ max_names
      → (s : ChunkState) (names : List String) → IsState s
      → IsState (chunk_loop max_names max_bytes s names)
  unfolding chunk_loop
  IsState-chunk_loop positive s [] v = v
  IsState-chunk_loop positive s (n ∷ names) v =
      IsState-chunk_loop positive (chunk_step max_names max_bytes s n) names
        (IsState-chunk_step positive s n v)

  joined-chunk_step :
      (s : ChunkState) (n : String)
      → let t = chunk_step max_names max_bytes s n in
        joined t.out ++ t.cur ≡ (joined s.out ++ s.cur) ++ n ∷ []
  unfolding chunk_step
  joined-chunk_step s n =
      let l = quoted_length n + 1 in
      elim (Bool-cases
        (not (is_empty s.cur) && (leb max_names (length s.cur) || ltb max_bytes (s.size + l)))) [
          | inl e ↦ rw e (
              ap (λ xs. xs ++ n ∷ [])
                (joined-append s.out (s.cur ∷ [])
                  ∙ ap (λ xs. joined s.out ++ xs) (append-nil s.cur)))
          | inr e ↦ rw e (sym (append_assoc (joined s.out) s.cur (n ∷ [])))
        ]

  joined-chunk_loop :
      (s : ChunkState) (names : List String)
      → let t = chunk_loop max_names max_bytes s names in
        joined t.out ++ t.cur ≡ (joined s.out ++ s.cur) ++ names
  unfolding chunk_loop
  joined-chunk_loop s [] = sym (append-nil (joined s.out ++ s.cur))
  joined-chunk_loop s (n ∷ names) =
      joined-chunk_loop (chunk_step max_names max_bytes s n) names
      ∙ ap (λ xs. xs ++ names) (joined-chunk_step s n)
      ∙ append_assoc (joined s.out ++ s.cur) (n ∷ []) names

  finish_lem :
      (s : ChunkState)
      → IsState s
      → (joined (finish_chunks s) ≡ joined s.out ++ s.cur) × All IsChunk (finish_chunks s)
  unfolding finish_chunks
  finish_lem s v = elim (Bool-cases (is_empty s.cur)) [
    | inl e ↦ rw (e, nil_of_is_empty s.cur e) (sym (append-nil (joined s.out)), v.out)
    | inr e ↦ rw e (
      joined-append s.out (s.cur ∷ []) ∙ ap (λ xs. joined s.out ++ xs) (append-nil s.cur),
      All-append IsChunk s.out (s.cur ∷ []) v.out ((e, v.cur), tt),
    )
  ]

  -- If at least one name is allowed, the queries ask for the names in their order, each once per
  -- occurrence; every query has a name, has at most the allowed number of names, and stays within the
  -- allowed bytes unless it asks for a single name.
  pub chunk_lem :
      1 ≤ max_names
      → (names : List String)
      → (joined (chunk max_names max_bytes names) ≡ names)
        × All IsChunk (chunk max_names max_bytes names)
  unfolding chunk regex_size
  chunk_lem positive names =
      let empty : ChunkState = record { out = []; cur = []; size = 0 } in
      let v : IsState empty = record {
        out = tt;
        cur = (ground arith, ground arith);
        size = refl;
      } in
      let (same, all) =
        finish_lem (chunk_loop max_names max_bytes empty names)
          (IsState-chunk_loop positive empty names v) in
      (same ∙ joined-chunk_loop empty names, all)

contains-distinct_names :
    (seen names : List String) (t : String)
    → contains t (distinct_names seen names)
      ≡ (contains t names && not (t == "") && not (contains t seen))
unfolding distinct_names contains
contains-distinct_names seen [] t = ground arith
contains-distinct_names seen (n ∷ ns) t = elim (Bool-cases (n == "" || contains n seen)) [
  | inl e ↦
      rw e (ground (arith, contains-distinct_names seen ns t, string_comparable.equal_iff t n))
  | inr e ↦
      rw e
        (ground (arith, contains-distinct_names (n ∷ seen) ns t, string_comparable.equal_iff t n))
]

distinct_names-IsDistinct : (seen names : List String) → IsDistinct (distinct_names seen names)
unfolding distinct_names contains
distinct_names-IsDistinct seen [] = tt
distinct_names-IsDistinct seen (n ∷ ns) = elim (Bool-cases (n == "" || contains n seen)) [
  | inl e ↦ rw e (distinct_names-IsDistinct seen ns)
  | inr e ↦ rw e (
    ground (arith, contains-distinct_names (n ∷ seen) ns n, string_comparable.equal_iff n n),
    distinct_names-IsDistinct (n ∷ seen) ns,
  )
]

-- The names counted are the names asked for without the empty one, each once, in ascending order.
pub dedupe_lem :
    (names : List String)
    → ((t : String) → contains t (dedupe names) ≡ (contains t names && not (t == "")))
      × IsDistinct (dedupe names)
      × IsSorted str_lt (dedupe names)
unfolding dedupe contains
dedupe_lem names = (
  λ t.
      contains-sort_by str_lt t (distinct_names [] names)
      ∙ contains-distinct_names [] names t
      ∙ ground arith,
  rw map-id at (
      IsDistinct-sort_by (λ n. n) str_lt (distinct_names [] names)
        (rw (map-id (distinct_names [] names)) (distinct_names-IsDistinct [] names))),
  sort_by-IsSorted str_lt str_lt-IsStrict (distinct_names [] names),
)
