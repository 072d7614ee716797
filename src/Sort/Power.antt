-- ===== src/Sort/Power.antt =====
-- nextPower2 of sort.c.
use ence.Base.{
  ℕ, zero, suc, ◌+◌, ◌*◌, ◌^◌, ◌≤◌, ◌<◌, ◌≡◌, refl, sym, ap, ◌∙◌, Bool-cases, inl, inr, ltb, arith,
  dec_lt, subst,
}
use ence.Sort.{double_from, next_power2}
use native.Mathlib.Nat.{pow-suc, pow-le-pow_right}

-- `p` is the least power of 2 that is not below `n`.
pub record Least (n p : ℕ) : Type 0 where
  pub power : (k : ℕ) × (p ≡ 2 ^ k)
  pub enough : n ≤ p
  pub least : (k : ℕ) → n ≤ 2 ^ k → p ≤ 2 ^ k

doubled : (n k j : ℕ) → 2 ^ k < n → n ≤ 2 ^ j → 2 ^ (k + 1) ≤ 2 ^ j
doubled n k j lt le = elim (dec_lt k j) [
  | yes further ↦ pow-le-pow_right (omega arith) (omega arith)
  | no back ↦
      let small : 2 ^ j ≤ 2 ^ k = pow-le-pow_right (omega arith) (omega arith) in
      absurd (omega arith)
]

double_from-Least :
    (fuel n k : ℕ)
    → n ≤ 2 ^ (k + fuel)
    → ((j : ℕ) → n ≤ 2 ^ j → 2 ^ k ≤ 2 ^ j)
    → Least n (double_from fuel n (2 ^ k))
unfolding double_from
double_from-Least zero n k le least =
    let same : k + 0 ≡ k = omega arith in
    record { power = (k, refl); enough = subst (λ (j : ℕ). n ≤ 2 ^ j) same le; least = least }
double_from-Least (suc fuel) n k le least = elim (Bool-cases (ltb (2 ^ k) n)) [
  | inl h ↦
      let next : suc k ≡ k + 1 = omega arith in
      let twice : 2 ^ k * 2 ≡ 2 ^ (k + 1) = sym (pow-suc 2 k) ∙ ap (λ (e : ℕ). 2 ^ e) next in
      let le' : n ≤ 2 ^ (k + 1 + fuel) = subst (λ (e : ℕ). n ≤ 2 ^ e) (omega arith) le in
      rw (double_from, h)
        (subst (λ (x : ℕ). Least n (double_from fuel n x)) (sym twice)
          (double_from-Least fuel n (k + 1) le' (λ j lej. doubled n k j (ground (arith, h)) lej)))
  | inr h ↦
      rw (double_from, h) (record { power = (k, refl); enough = ground (arith, h); least = least })
]

-- Up to 2 ^ 30, nextPower2 gives the least power of 2 that is not below the number.
pub next_power2-Least : (n : ℕ) → n ≤ 2 ^ 30 → Least n (next_power2 n)
unfolding next_power2
next_power2-Least n le =
    double_from-Least 31 n 0 (omega arith)
      (λ j lej. pow-le-pow_right (omega arith) {i = 0} {j = j} (omega arith))
