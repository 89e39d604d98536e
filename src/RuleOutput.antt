-- ===== src/RuleOutput.antt =====
-- internal/ruleoutput/count.go: the names that one query counts. A regex is measured in bytes.
pub mod Chunks
pub mod Join
pub mod Count
pub mod Report
mod Tests
use Prim.Native.Char.{code}
use Prim.Native.String
use obscost.Prelude.{
  ℕ, suc, ◌+◌, String, Bool, true, false, not, ◌&&◌, ◌||◌, List, [], ◌∷◌, ◌++◌, if◌then◌else◌, ◌==◌,
  string_comparable, ltb, leb, nat_beq, is_empty, length, contains, str_lt,
}
use obscost.Prelude.Sort.{sort_by}

-- the bytes of a code point in UTF-8
abbrev char_bytes : ℕ → ℕ
char_bytes c = if ltb c 128 then 1 else if ltb c 2048 then 2 else if ltb c 65536 then 3 else 4

-- the code points that `regexp.QuoteMeta` puts a backslash before: \.+*?()|[]{}^$
abbrev is_meta : ℕ → Bool
is_meta c =
    nat_beq c 92
    || nat_beq c 46
    || nat_beq c 43
    || nat_beq c 42
    || nat_beq c 63
    || nat_beq c 40
    || nat_beq c 41
    || nat_beq c 124
    || nat_beq c 91
    || nat_beq c 93
    || nat_beq c 123
    || nat_beq c 125
    || nat_beq c 94
    || nat_beq c 36

-- `len(regexp.QuoteMeta(s))`
unfoldable pub quoted_length : String → ℕ
quoted_length String.[] = 0
quoted_length (String.◌∷◌ c s) =
    let rest = quoted_length s in char_bytes (code c) + (if is_meta (code c) then 1 else 0) + rest

-- The variables of the loop of `chunk`.
pub record ChunkState : Type 0 where
  pub out : List (List String)
  pub cur : List String
  pub size : ℕ

-- what follows the loop
finish_chunks : ChunkState → List (List String)
finish_chunks s = if is_empty s.cur then s.out else s.out ++ s.cur ∷ []

module _ (max_names max_bytes : ℕ) where
  -- the body of the loop of `chunk`
  chunk_step : ChunkState → String → ChunkState
  unfolding quoted_length
  chunk_step s n =
      let l = quoted_length n + 1 in
      if not (is_empty s.cur) && (leb max_names (length s.cur) || ltb max_bytes (s.size + l))
      then record { out = s.out ++ s.cur ∷ []; cur = n ∷ []; size = 0 + l }
      else record s { cur = s.cur ++ n ∷ []; size = s.size + l }

  chunk_loop : ChunkState → List String → ChunkState
  unfolding chunk_step
  chunk_loop s [] = s
  chunk_loop s (n ∷ names) = chunk_loop (chunk_step s n) names

  -- `chunk`
  unfoldable pub chunk : List String → List (List String)
  unfolding chunk_loop finish_chunks
  chunk names = finish_chunks (chunk_loop (record { out = []; cur = []; size = 0 }) names)

-- the loop of `dedupe`, with the names seen so far
distinct_names : List String → List String → List String
distinct_names seen [] = []
distinct_names seen (n ∷ ns) =
    let skip = n == "" || contains n seen in
    let rest = distinct_names (if skip then seen else n ∷ seen) ns in
    if skip then rest else n ∷ rest

-- `dedupe`
unfoldable pub dedupe : List String → List String
unfolding distinct_names sort_by str_lt contains
dedupe names = sort_by str_lt (distinct_names [] names)
