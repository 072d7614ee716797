-- ===== src/Fs/Bitmap.antt =====
-- Bits of the bytes of a block.
use ence.Base.{
  ℕ, zero, suc, ◌+◌, ◌-◌, ◌/◌, ◌%◌, ◌^◌, ◌≤◌, ◌≡◌, ◌≢◌, refl, sym, ap, ◌∙◌, update, arith,
  ℕ_discrete,
}
use ence.Strings.{Mem}
use ence.Fs.{bit, mark, unmark}
use native.Mathlib.Nat.{pow-suc, mul_comm, div-div-eq-div-mul}

-- the bit `k` of a number
abbrev bit_of : ℕ → ℕ → ℕ
bit_of x k = x / 2 ^ k % 2

halves : (x k : ℕ) → x / 2 ^ suc k ≡ x / 2 / 2 ^ k
halves x k = rw (pow-suc 2 k, mul_comm (2 ^ k) 2) (sym (div-div-eq-div-mul x 2 (2 ^ k)))

bit_of-suc : (x k : ℕ) → bit_of x (suc k) ≡ bit_of (x / 2) k
bit_of-suc x k = ap (λ (y : ℕ). y % 2) (halves x k)

add_half : (x k : ℕ) → (x + 2 ^ suc k) / 2 ≡ x / 2 + 2 ^ k
add_half x k = omega (arith, pow-suc 2 k)

sub_half : (x k : ℕ) → (x - 2 ^ suc k) / 2 ≡ x / 2 - 2 ^ k
sub_half x k = omega (arith, pow-suc 2 k)

even : (k : ℕ) → 2 ^ suc k % 2 ≡ 0
even k = omega (arith, pow-suc 2 k)

set_same : (k x : ℕ) → bit_of x k ≡ 0 → bit_of (x + 2 ^ k) k ≡ 1
set_same zero x e = omega arith
set_same (suc k) x e =
    bit_of-suc (x + 2 ^ suc k) k ∙ rw (add_half x k) (set_same k (x / 2) (sym (bit_of-suc x k) ∙ e))

set_other : (k j x : ℕ) → k ≢ j → bit_of x k ≡ 0 → bit_of (x + 2 ^ k) j ≡ bit_of x j
set_other zero zero x ne e = absurd (ne refl)
set_other zero (suc j) x ne e =
    let half : (x + 2 ^ 0) / 2 ≡ x / 2 = omega arith in
    bit_of-suc (x + 2 ^ 0) j ∙ rw half (sym (bit_of-suc x j))
set_other (suc k) zero x ne e = omega (arith, even k)
set_other (suc k) (suc j) x ne e =
    bit_of-suc (x + 2 ^ suc k) j
    ∙ rw (add_half x k) (set_other k j (x / 2) (λ h. ne (ap suc h)) (sym (bit_of-suc x k) ∙ e))
    ∙ sym (bit_of-suc x j)

clear_same : (k x : ℕ) → bit_of x k ≡ 1 → bit_of (x - 2 ^ k) k ≡ 0
clear_same zero x e = omega arith
clear_same (suc k) x e =
    bit_of-suc (x - 2 ^ suc k) k
    ∙ rw (sub_half x k) (clear_same k (x / 2) (sym (bit_of-suc x k) ∙ e))

large : (k x : ℕ) → bit_of x k ≡ 1 → 2 ^ k ≤ x
large zero x e = omega arith
large (suc k) x e = omega (arith, pow-suc 2 k, large k (x / 2) (sym (bit_of-suc x k) ∙ e))

clear_other : (k j x : ℕ) → k ≢ j → bit_of x k ≡ 1 → bit_of (x - 2 ^ k) j ≡ bit_of x j
clear_other zero zero x ne e = absurd (ne refl)
clear_other zero (suc j) x ne e =
    let half : (x - 2 ^ 0) / 2 ≡ x / 2 = omega arith in
    bit_of-suc (x - 2 ^ 0) j ∙ rw half (sym (bit_of-suc x j))
clear_other (suc k) zero x ne e = omega (arith, even k, large (suc k) x e)
clear_other (suc k) (suc j) x ne e =
    bit_of-suc (x - 2 ^ suc k) j
    ∙ rw (sub_half x k) (clear_other k j (x / 2) (λ h. ne (ap suc h)) (sym (bit_of-suc x k) ∙ e))
    ∙ sym (bit_of-suc x j)

-- One byte of a block is replaced.
bit-update : (m : Mem) (a v j : ℕ) → j / 8 ≡ a → bit (update m a v) j ≡ bit_of v (j % 8)
bit-update m a v j e =
    let here : update m a v (j / 8) ≡ v = ground (arith, e) in ap (λ (x : ℕ). bit_of x (j % 8)) here

bit_elsewhere : (m : Mem) (a v j : ℕ) → j / 8 ≢ a → bit (update m a v) j ≡ bit m j
bit_elsewhere m a v j e =
    let there : update m a v (j / 8) ≡ m (j / 8) = ground (arith, e) in
    ap (λ (x : ℕ). bit_of x (j % 8)) there

pub bit-mark_same : (m : Mem) (i : ℕ) → bit m i ≡ 0 → bit (mark m i) i ≡ 1
bit-mark_same m i e = bit-update m (i / 8) _ i refl ∙ set_same (i % 8) (m (i / 8)) e

pub bit-mark_other : (m : Mem) (i j : ℕ) → j ≢ i → bit m i ≡ 0 → bit (mark m i) j ≡ bit m j
bit-mark_other m i j ne e = elim (ℕ_discrete (j / 8) (i / 8)) [
  | yes same ↦
      bit-update m (i / 8) _ j same
      ∙ set_other (i % 8) (j % 8) (m (i / 8)) (λ twin. ne (omega arith)) e
      ∙ ap (λ (x : ℕ). bit_of (m x) (j % 8)) (sym same)
  | no apart ↦ bit_elsewhere m (i / 8) _ j apart
]

pub bit-unmark_same : (m : Mem) (i : ℕ) → bit m i ≡ 1 → bit (unmark m i) i ≡ 0
bit-unmark_same m i e = bit-update m (i / 8) _ i refl ∙ clear_same (i % 8) (m (i / 8)) e

pub bit-unmark_other : (m : Mem) (i j : ℕ) → j ≢ i → bit m i ≡ 1 → bit (unmark m i) j ≡ bit m j
bit-unmark_other m i j ne e = elim (ℕ_discrete (j / 8) (i / 8)) [
  | yes same ↦
      bit-update m (i / 8) _ j same
      ∙ clear_other (i % 8) (j % 8) (m (i / 8)) (λ twin. ne (omega arith)) e
      ∙ ap (λ (x : ℕ). bit_of (m x) (j % 8)) (sym same)
  | no apart ↦ bit_elsewhere m (i / 8) _ j apart
]
