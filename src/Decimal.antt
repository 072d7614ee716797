-- ===== src/Decimal.antt =====
-- printint of lab10xv6/xv6/printf.c and atoi of lab10xv6/xv6/ulib.c. An int is its bit pattern, below
-- 2 ^ 32; the digits go out by putc, so printint is the list of the bytes written.
pub mod Print
pub mod Round
mod Tests
use ence.Base.{
  ℕ, zero, suc, ◌+◌, ◌-◌, ◌*◌, ◌/◌, ◌%◌, ◌^◌, Bool, true, false, ◌&&◌, List, [], ◌∷◌, ◌++◌, ltb,
  leb, ◌==◌, u32, if◌then◌else◌,
}
use mathlib.Core.List.{reverse}

-- digits[d]
abbrev pub digit : ℕ → ℕ
digit d = if ltb d 10 then b'0' + d else b'A' + (d - 10)

-- The do loop of printint: the bytes that it puts into buf, lowest digit first. 32 rounds are enough
-- for a uint in any base from 2 on.
unfoldable pub digits_from : (fuel x base : ℕ) → List ℕ
digits_from zero x base = []
digits_from (suc fuel) x base =
    let more = digits_from fuel (x / base) base in
    digit (x % base) ∷ (if x / base == 0 then [] else more)

abbrev pub is_negative : ℕ → Bool
is_negative w = leb (2 ^ 31) w

-- buf before it is written out backwards
pub int_buf : (xx base : ℕ) (sgn : Bool) → List ℕ
int_buf xx base sgn =
    if sgn && is_negative xx
    then digits_from 32 (u32 (2 ^ 32 - xx)) base ++ (b'-' ∷ [])
    else digits_from 32 xx base

pub printint : (xx base : ℕ) (sgn : Bool) → List ℕ
printint xx base sgn = reverse (int_buf xx base sgn)

abbrev pub is_digit : ℕ → Bool
is_digit c = leb b'0' c && leb c b'9'

-- The loop of atoi with `n` so far, over a string as the list of its bytes before the byte 0. The
-- arithmetic of an int wraps.
unfoldable pub atoi_from : (n : ℕ) → List ℕ → ℕ
atoi_from n [] = n
atoi_from n (c ∷ cs) =
    let more = atoi_from (u32 (n * 10 + (c - b'0'))) cs in if is_digit c then more else n

pub atoi : List ℕ → ℕ
atoi s = atoi_from 0 s
