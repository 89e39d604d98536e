-- ===== src/RuleOutput/Tests.antt =====
-- Five names in queries of at most two names and twelve bytes.
use obscost.Prelude.{String, List, [], ◌∷◌, ◌≡◌, refl, arith, string_comparable, All}
use obscost.RuleOutput.{chunk, dedupe}
use obscost.RuleOutput.Chunks.{joined, IsChunk, chunk_lem}

abbrev names : List String
names = "a" ∷ "b.c" ∷ "job:errors:rate5m" ∷ "d" ∷ "e" ∷ []

chunk_lem_example : (joined (chunk 2 12 names) ≡ names) × All (IsChunk 2 12) (chunk 2 12 names)
chunk_lem_example = chunk_lem 2 12 (omega arith) names

-- A name that is too long on its own still gets a query.
three_queries :
    chunk 2 12 names ≡ ("a" ∷ "b.c" ∷ []) ∷ ("job:errors:rate5m" ∷ []) ∷ ("d" ∷ "e" ∷ []) ∷ []
unfolding chunk
three_queries = refl

two_names : dedupe ("b" ∷ "" ∷ "a" ∷ "b" ∷ []) ≡ "a" ∷ "b" ∷ []
unfolding dedupe
two_names = refl
