-- ===== src/Decimal/Tests.antt =====
-- printint and atoi at some numbers, and the theorems at them.
use ence.Base.{◌-◌, ◌^◌, ◌≡◌, refl, true, false, [], ◌∷◌, ◌++◌, arith}
use ence.Decimal.{digits_from, int_buf, printint, atoi}
use ence.Decimal.Round.{atoi-printint}

minus_12 : printint (2 ^ 32 - 12) 10 true ≡ b'-' ∷ b'1' ∷ b'2' ∷ []
unfolding printint int_buf digits_from
minus_12 = refl

hex_beef : printint 0xbeef 16 false ≡ b'B' ∷ b'E' ∷ b'E' ∷ b'F' ∷ []
unfolding printint int_buf digits_from
hex_beef = refl

atoi-printint_example : atoi (printint 4096 10 true ++ (b' ' ∷ b'7' ∷ [])) ≡ 4096
atoi-printint_example = atoi-printint 4096 true (b' ' ∷ b'7' ∷ []) (omega arith) refl
