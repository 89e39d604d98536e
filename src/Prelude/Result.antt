-- ===== src/Prelude/Result.antt =====
-- Go's `error` and results with one. `fmt.Errorf` with `%w` keeps the error that it wraps.
pub mod Runs
use Prim.Native.String.{String}

pub data Error : Type 0 where
  message : String → Error
  wrapped : String → Error → Error

pub data Result {ℓ} (A : Type ℓ) : Type ℓ where
  ok : A → Result A
  err : Error → Result A

-- A call that reads and changes a state, and may fail. What was written before an error stays written.
abbrev pub Action : Type 0 → Type 0 → Type 0
Action S A = S → Result A × S

module _ {S : Type 0} where
  unfoldable pub pure : {A : Type 0} → A → Action S A
  pure a s = (ok a, s)

  -- a result that needs no state
  unfoldable pub lift : {A : Type 0} → Result A → Action S A
  lift r s = (r, s)

  infixl 5 ◌>>=◌
  unfoldable pub ◌>>=◌ : {A B : Type 0} → Action S A → (A → Action S B) → Action S B
  ◌>>=◌ m k s = let (r, s') = m s in elim r [ ok a ↦ k a s' | err e ↦ (err e, s') ]

  -- `fmt.Errorf("%s: %w", context, err)` around an error
  unfoldable pub in_context : {A : Type 0} → String → Action S A → Action S A
  in_context context m s =
      let (r, s') = m s in elim r [ ok a ↦ (ok a, s') | err e ↦ (err (wrapped context e), s') ]
