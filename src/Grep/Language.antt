-- ===== src/Grep/Language.antt =====
-- What the expressions mean, with no matching strategy.
use ence.Base.{ℕ, ◌≡◌, ◌≢◌, ◌⊎◌, List, [], ◌∷◌, ◌++◌, All}
use ence.Grep.{star, dot, dollar, caret}

-- A byte of the text that the expression's byte `c` stands for.
abbrev pub Fits : ℕ → ℕ → Type 0
Fits c t = (t ≡ c) ⊎ (c ≡ dot)

-- The expression does not go on with a star.
abbrev pub NoStar : List ℕ → Type 0
NoStar [] = Unit
NoStar (d ∷ _) = d ≢ star

abbrev pub NotEnd : ℕ → List ℕ → Type 0
NotEnd c [] = c ≢ dollar
NotEnd c (_ ∷ _) = Unit

-- The expression matches at the start of the text.
pub data Here : List ℕ → List ℕ → Type 0 where
  done : {text : List ℕ} → Here [] text
  -- `c*` takes any run of bytes that `c` stands for
  run :
      {c d : ℕ} {re text : List ℕ} (bytes after : List ℕ)
      → d ≡ star
      → All (Fits c) bytes
      → text ≡ bytes ++ after
      → Here re after
      → Here (c ∷ d ∷ re) text
  at_end : {c : ℕ} → c ≡ dollar → Here (c ∷ []) []
  byte :
      {c t : ℕ} {re ts : List ℕ}
      → NoStar re
      → NotEnd c re
      → Fits c t
      → Here re ts
      → Here (c ∷ re) (t ∷ ts)

-- The expression matches somewhere in the text; after `^` only at its start.
pub data Somewhere : List ℕ → List ℕ → Type 0 where
  anchored : {c : ℕ} {re text : List ℕ} → c ≡ caret → Here re text → Somewhere (c ∷ re) text
  anywhere :
      {re text : List ℕ} (before after : List ℕ)
      → ((rest : List ℕ) → re ≢ caret ∷ rest)
      → text ≡ before ++ after
      → Here re after
      → Somewhere re text
