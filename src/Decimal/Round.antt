-- ===== src/Decimal/Round.antt =====
-- atoi reads what printint writes.
use ence.Base.{
  ℕ, zero, suc, ◌+◌, ◌-◌, ◌*◌, ◌/◌, ◌^◌, ◌<◌, ◌≡◌, refl, ap, ◌∙◌, Bool, true, false, ◌&&◌, List, [],
  ◌∷◌, ◌++◌, ◌==◌, u32, if◌then◌else◌, arith, All, append_assoc, Bool-cases, inl, inr,
}
use mathlib.Core.List.{reverse, reverse-append}
use ence.Decimal.{digits_from, is_digit, is_negative, int_buf, printint, atoi_from, atoi}
use ence.Decimal.Print.{value, printint_digits}

abbrev IsDigit : ℕ → Type 0
IsDigit c = is_digit c ≡ true

digits_from-IsDigit : (fuel x : ℕ) → All IsDigit (digits_from fuel x 10)
unfolding digits_from
digits_from-IsDigit zero x = tt
digits_from-IsDigit (suc fuel) x = (ground arith, rest-IsDigit (digits_from-IsDigit fuel (x / 10)))
  where
    rest-IsDigit :
        All IsDigit (digits_from fuel (x / 10) 10)
        → All IsDigit (if x / 10 == 0 then [] else digits_from fuel (x / 10) 10)
    rest-IsDigit all = elim (Bool-cases (x / 10 == 0)) [ inl e ↦ rw e tt | inr e ↦ rw e all ]

-- the first byte behind a number is no digit
abbrev pub NoDigit : List ℕ → Type 0
NoDigit [] = Unit
NoDigit (c ∷ _) = is_digit c ≡ false

atoi_from-stop : (n : ℕ) (rest : List ℕ) → NoDigit rest → atoi_from n rest ≡ n
unfolding atoi_from
atoi_from-stop n [] h = refl
atoi_from-stop n (c ∷ cs) h = rw h

-- Reading the digits `cs`, which stand lowest first, from their end.
atoi_from-reverse :
    (cs rest : List ℕ)
    → All IsDigit cs
    → value 10 cs < 2 ^ 32
    → atoi_from 0 (reverse cs ++ rest) ≡ atoi_from (value 10 cs) rest
unfolding atoi_from
atoi_from-reverse [] rest all fits = refl
atoi_from-reverse (c ∷ cs) rest all fits =
    ap (λ (s : List ℕ). atoi_from 0 (s ++ rest)) (reverse-append (c ∷ []) cs)
    ∙ ap (atoi_from 0) (append_assoc (reverse cs) (c ∷ []) rest)
    ∙ atoi_from-reverse cs (c ∷ rest) all.1 (omega arith)
    ∙ rw all.0 (ap (λ (n : ℕ). atoi_from n rest) last)
  where
    last : u32 (value 10 cs * 10 + (c - b'0')) ≡ value 10 (c ∷ cs)
    last = let d = all.0 in ground arith

-- atoi reads back the number that printint has written in base 10, for every int from 0 on, with or
-- without the sign flag, whatever follows that is no digit.
pub atoi-printint :
    (w : ℕ) (sgn : Bool) (rest : List ℕ)
    → w < 2 ^ 31
    → NoDigit rest
    → atoi (printint w 10 sgn ++ rest) ≡ w
unfolding atoi printint int_buf
atoi-printint w sgn rest fits stop =
    let nonneg : sgn && is_negative w ≡ false = ground arith in
    let same : value 10 (digits_from 32 w 10) ≡ w =
      (printint_digits w 10 sgn (omega arith) (omega arith) (omega arith)).0 in
    rw nonneg (
      atoi_from-reverse (digits_from 32 w 10) rest (digits_from-IsDigit 32 w) (omega arith)
      ∙ ap (λ (n : ℕ). atoi_from n rest) same
      ∙ atoi_from-stop w rest stop)
