-- ===== src/Strings/Compare.antt =====
-- memcmp and strncmp against equality of the bytes.
use ence.Base.{ℕ, zero, suc, ◌+◌, ◌<◌, ◌≡◌, ◌≢◌, ◌↔◌, refl, arith, pos, ℕ_discrete}
use native.Mathlib.Numerals.{add-one}
use ence.Strings.{Mem, rest, memcmp, strncmp}

memcmp-zero : (v1 v2 : Mem) (n i : ℕ) → memcmp v1 v2 n ≡ pos 0 → i < n → v1 i ≡ v2 i
unfolding memcmp
memcmp-zero v1 v2 zero i e lt = absurd (omega arith)
memcmp-zero v1 v2 (suc n) zero e lt = ground arith
memcmp-zero v1 v2 (suc n) (suc i) e lt =
    rw (← add-one i) (ground (arith, memcmp-zero (rest v1) (rest v2) n i))

memcmp-same : (v1 v2 : Mem) (n : ℕ) → ((i : ℕ) → i < n → v1 i ≡ v2 i) → memcmp v1 v2 n ≡ pos 0
unfolding memcmp
memcmp-same v1 v2 zero same = refl
memcmp-same v1 v2 (suc n) same =
    ground (arith, same 0, memcmp-same (rest v1) (rest v2) n (λ i lt. same (i + 1) (omega arith)))

-- memcmp is 0 exactly when the `n` bytes are equal, pairwise.
pub memcmp_iff : (v1 v2 : Mem) (n : ℕ) → (memcmp v1 v2 n ≡ pos 0) ↔ ((i : ℕ) → i < n → v1 i ≡ v2 i)
memcmp_iff v1 v2 n = (λ e i lt. memcmp-zero v1 v2 n i e lt, memcmp-same v1 v2 n)

-- The strings agree up to their first byte 0, or in their first `n` bytes.
abbrev pub SameString : Mem → Mem → ℕ → Type 0
SameString p q n = (i : ℕ) → i < n → ((j : ℕ) → j < i → p j ≢ 0) → p i ≡ q i

-- The first byte of equal strings, and the rest where it is not 0.
strncmp-zero_step :
    (p q : Mem) (n : ℕ)
    → strncmp p q (suc n) ≡ pos 0
    → (p 0 ≡ q 0) × (p 0 ≢ 0 → strncmp (rest p) (rest q) n ≡ pos 0)
unfolding strncmp
strncmp-zero_step p q n e = (ground arith, λ live. ground arith)

strncmp-zero : (p q : Mem) (n : ℕ) → strncmp p q n ≡ pos 0 → SameString p q n
strncmp-zero p q zero e i lt live = absurd (omega arith)
strncmp-zero p q (suc n) e zero lt live = (strncmp-zero_step p q n e).0
strncmp-zero p q (suc n) e (suc i) lt live = rw (← add-one i) (
    strncmp-zero (rest p) (rest q) n ((strncmp-zero_step p q n e).1 (live 0 (omega arith))) i
      (omega arith) (λ j ltj. live (j + 1) (omega arith)))

SameString-rest :
    (p q : Mem) (n : ℕ) → p 0 ≢ 0 → SameString p q (suc n) → SameString (rest p) (rest q) n
SameString-rest p q n live same i lt all_live = same (i + 1) (omega arith) earlier
  where
    earlier : (j : ℕ) → j < i + 1 → p j ≢ 0
    earlier zero ltj = live
    earlier (suc j) ltj = rw (← add-one j) (all_live j (omega arith))

strncmp-same : (p q : Mem) (n : ℕ) → SameString p q n → strncmp p q n ≡ pos 0
unfolding strncmp
strncmp-same p q zero same = refl
strncmp-same p q (suc n) same =
    let first : p 0 ≡ q 0 = same 0 (omega arith) (λ j lt. absurd (omega arith)) in
    elim (ℕ_discrete (p 0) 0) [
      | yes e ↦ ground arith
      | no live ↦
          let more = strncmp-same (rest p) (rest q) n (SameString-rest p q n live same) in
          ground arith
    ]

-- strncmp is 0 exactly when the strings agree up to their end, or in their first `n` bytes.
pub strncmp_iff : (p q : Mem) (n : ℕ) → (strncmp p q n ≡ pos 0) ↔ SameString p q n
strncmp_iff p q n = (strncmp-zero p q n, strncmp-same p q n)
