-- ===== src/Base/Arrays.antt =====
-- C arrays as functions of the index, and their update at one index.
use Prim.Native.Nat.{ℕ}
use mathlib.Core.Path.{◌≡◌, refl}
use mathlib.Core.Bool.{Bool, true, false}
use mathlib.Core.Logic.{◌≢◌}
use native.Mathlib.Omega.{arith}
use package.ence.Base.Tests.{◌==◌, if◌then◌else◌}

module _ {ℓ} {A : Type ℓ} where
  abbrev pub update : (ℕ → A) → ℕ → A → ℕ → A
  update f i a j = if j == i then a else f j

  pub update_self : (f : ℕ → A) (i : ℕ) (a : A) → update f i a i ≡ a
  update_self f i a = ground arith

  pub update_ne : (f : ℕ → A) (i j : ℕ) (a : A) → j ≢ i → update f i a j ≡ f j
  update_ne f i j a h = ground arith

pub map-update {ℓ κ} :
    {A : Type ℓ} {B : Type κ} (h : A → B) (f : ℕ → A) (i : ℕ) (a : A) (j : ℕ)
    → h (update f i a j) ≡ update (λ k. h (f k)) i (h a) j
map-update h f i a j = branch (j == i)
  where
    branch : (b : Bool) → h (if b then a else f j) ≡ (if b then h a else h (f j))
    branch true = refl
    branch false = refl
