-- ===== src/Decimal/Print.antt =====
-- The digits that printint writes: their value, and how many they are.
use ence.Base.{
  ℕ, zero, suc, ◌+◌, ◌-◌, ◌*◌, ◌/◌, ◌%◌, ◌^◌, ◌≤◌, ◌<◌, ◌≡◌, Bool, List, [], ◌∷◌, ltb, ◌==◌, u32,
  if◌then◌else◌, arith, length, length-append,
}
use native.Mathlib.Nat.{div-add-mod, mod-add-div, mul_comm, pow-suc}
use ence.Decimal.{digit, digits_from, int_buf}

-- the value of a digit's byte
abbrev pub digit_value : ℕ → ℕ
digit_value c = if ltb c b'A' then c - b'0' else c - b'A' + 10

-- the number that digits stand for, lowest first
abbrev pub value : (base : ℕ) → List ℕ → ℕ
value base [] = 0
value base (c ∷ cs) = digit_value c + base * value base cs

digit-value : (d : ℕ) → d < 16 → digit_value (digit d) ≡ d
digit-value d h = ground arith

-- One round divides by the base, so by `k` at least where the base is that large.
quotient-lt : (x base k bound : ℕ) → k ≤ base → x < k * bound → x / base < bound
quotient-lt x base k bound lo h = grind (arith, div-add-mod x base)

digits_from-value :
    (fuel x base : ℕ)
    → 2 ≤ base
    → base ≤ 16
    → x < 2 ^ fuel
    → value base (digits_from fuel x base) ≡ x
unfolding digits_from
digits_from-value zero x base lo hi fits = omega arith
digits_from-value (suc fuel) x base lo hi fits =
    let more : value base (if x / base == 0 then [] else digits_from fuel (x / base) base)
        ≡ x / base =
      ground (
        arith,
        digits_from-value fuel (x / base) base,
        quotient-lt x base 2 (2 ^ fuel) lo (rw (← mul_comm (2 ^ fuel) 2, ← pow-suc 2 fuel) fits),
      ) in
    rw (more, digit-value (x % base) (omega arith)) (mod-add-div x base)

-- A number below `10 ^ (k + 1)` has at most `k + 1` digits in a base from 10 on.
digits_from-short :
    (k fuel x base : ℕ) → 10 ≤ base → x < 10 ^ suc k → length (digits_from fuel x base) ≤ suc k
unfolding digits_from
digits_from-short k zero x base big h = omega arith
digits_from-short zero (suc fuel) x base big h =
    let last : x / base ≡ 0 = omega (arith, quotient-lt x base 10 1 big (omega arith)) in
    rw last (omega arith)
digits_from-short (suc k) (suc fuel) x base big h = ground (
  arith,
  digits_from-short k fuel (x / base) base,
  quotient-lt x base 10 (10 ^ suc k) big (rw (← mul_comm (10 ^ suc k) 10, ← pow-suc 10 (suc k)) h),
)

-- The loop of printint writes the digits of its number, lowest first: they stand for the number
-- itself, in any base from 10 to 16, and with a sign they fit into the 16 bytes of buf.
pub printint_digits :
    (xx base : ℕ) (sgn : Bool)
    → xx < 2 ^ 32
    → 10 ≤ base
    → base ≤ 16
    → (value base (digits_from 32 xx base) ≡ xx) × (length (int_buf xx base sgn) ≤ 16)
unfolding int_buf
printint_digits xx base sgn fits lo hi =
    let short = digits_from-short 9 32 xx base lo (omega arith) in
    let short_neg = digits_from-short 9 32 (u32 (2 ^ 32 - xx)) base lo (omega arith) in
    (
      digits_from-value 32 xx base (omega arith) hi fits,
      ground (arith, length-append (digits_from 32 (u32 (2 ^ 32 - xx)) base) (b'-' ∷ [])),
    )
